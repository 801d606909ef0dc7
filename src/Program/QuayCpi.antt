-- ===== src/Program/QuayCpi.antt =====
-- instructions/venues/quay.rs: the swap instruction of one leg.
use quay_titan_integration.Prelude.{ℕ, Bool, Result, ok, List, [], ◌∷◌, ◌++◌, if◌then◌else◌}
use quay_titan_integration.Prelude.Bytes.{le_bytes}
use quay_titan_integration.Solana.{Pubkey, AccountMeta, Instruction}
use quay_titan_integration.Program.State.{TemplateError}

-- `PROGRAM_ID`: QUayE6nexQWYNZAEqfN8FxoNwQDSu3CAzT2qq9J1ArG
abbrev pub program_id : Pubkey
program_id = 0x7d3116d0f820c93a33d74b849df02335788234dd59b541e1b3ad0b0dc28c0306

abbrev pub swap_discriminator : ℕ
swap_discriminator = 0x20

abbrev pub side_byte : Bool → ℕ
side_byte sell_base = if sell_base then 0 else 1

unfoldable pub swap : Bool → ℕ → List AccountMeta → Result TemplateError (List Instruction)
swap sell_base amount_in account_metas = ok (
    record {
      program_id = program_id;
      accounts = account_metas;
      bytes =
          swap_discriminator ∷ (le_bytes 8 amount_in ++ (le_bytes 8 0 ++ side_byte sell_base ∷ []));
    }
    ∷ [])
