-- ===== src/Tests/Program.antt =====
-- A token account of TitanPDA, a token ledger, a bitmap and a leg's amount.
use quay_titan_integration.Prelude.{
  if◌then◌else◌, ◌==◌, ◌+◌, ℕ, ◌-◌, ◌*◌, ◌/◌, ◌≤◌, min, ◌≡◌, refl, true, false, List, ◌∷◌, ◌++◌,
  replicate, arith, slice?,
}
use quay_titan_integration.Prelude.Bytes.{le_bytes, from_le_bytes}
use quay_titan_integration.Program.State.{AccountInfo}
use quay_titan_integration.Program.Accounts.{
  TokenIds, extract_token_owner, is_titan_pda_token_account,
}
use quay_titan_integration.Program.Legs.{leg_input_amount, leg_input_amount-exact}

abbrev ids : TokenIds
ids = record {
  associated_address = λ owner program mint. if owner == 55 then mint - 10 else mint + 10;
  spl_token_id = 81;
  token_2022_id = 82;
  native_mint_id = 83;
}

abbrev owner_bytes : List ℕ
owner_bytes = 55 ∷ replicate 31 0

abbrev with_data : List ℕ → AccountInfo
with_data bytes = record {
  key = 9;
  is_signer = false;
  is_writable = true;
  owner = 81;
  lamports = 1;
  bytes = bytes;
}

abbrev token_account : AccountInfo
token_account = with_data (replicate 32 1 ++ (owner_bytes ++ (le_bytes 8 700 ++ replicate 93 0)))

passes : is_titan_pda_token_account ids token_account 55 ≡ true
unfolding is_titan_pda_token_account extract_token_owner slice? le_bytes from_le_bytes
passes = refl

leg_input_amount-exact_example :
    (leg_input_amount 1000 400 500000000 ≡ (1000 - 400) * min 500000000 1000000000 / 1000000000)
    × (leg_input_amount 1000 400 500000000 ≤ 1000 - 400)
    × (1000000000 ≤ 500000000 → leg_input_amount 1000 400 500000000 ≡ 1000 - 400)
leg_input_amount-exact_example = leg_input_amount-exact 1000 400 500000000 (omega arith)
