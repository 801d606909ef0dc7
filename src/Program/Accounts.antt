-- ===== src/Program/Accounts.antt =====
-- instructions/swap_route_v3.rs: what the program reads out of token accounts, mints and the token
-- ledger. The ids of the two token programs and of the native mint are constants of SPL crates.
pub mod Layout
use quay_titan_integration.Prelude.{
  ℕ, Bool, true, false, not, ◌&&◌, ◌||◌, Option, none, some, Result, ok, err, ok_or, ◌>>=◌, ◌>>◌,
  require, List, ◌==◌, ◌!=◌, ltb, if◌then◌else◌, length, get_elem?, slice?,
}
use quay_titan_integration.Prelude.Bytes.{from_le_bytes}
use quay_titan_integration.Solana.{Pubkey, new_from_array}
use quay_titan_integration.Program.State.{TemplateError, invalid_account_data, AccountInfo}

pub record TokenIds : Type 0 where
  pub spl_token_id : Pubkey
  -- The address of the associated token account of an owner, under a token program, for a mint.
  pub associated_address : (owner program mint : Pubkey) → Pubkey
  pub token_2022_id : Pubkey
  pub native_mint_id : Pubkey

unfoldable pub account_exists : AccountInfo → Bool
account_exists account = ltb 0 account.lamports && ltb 0 (length account.bytes)

unfoldable pub extract_token_amount : AccountInfo → Result TemplateError ℕ
extract_token_amount account = do
  bytes ← ok_or (slice? account.bytes 64 72) invalid_account_data
  ok (from_le_bytes bytes)

unfoldable pub extract_token_owner : AccountInfo → Result TemplateError Pubkey
extract_token_owner account = do
  bytes ← ok_or (slice? account.bytes 32 64) invalid_account_data
  ok (new_from_array bytes)

unfoldable pub extract_mint_decimals : AccountInfo → Result TemplateError ℕ
extract_mint_decimals mint = ok_or (get_elem? mint.bytes 44) invalid_account_data

-- `let Ok(owner) = ... else { return false }; owner == *expected_authority`
abbrev pub owned_by : Pubkey → Result TemplateError Pubkey → Bool
owned_by expected_authority (ok owner) = owner == expected_authority
owned_by expected_authority (err e) = false

module _ (ids : TokenIds) where
  unfoldable pub is_native_mint : AccountInfo → Bool
  is_native_mint mint = mint.key == ids.native_mint_id

  unfoldable pub get_token_program_for_mint : AccountInfo → AccountInfo → AccountInfo → AccountInfo
  get_token_program_for_mint mint token_program token_2022_program =
      if mint.owner == ids.token_2022_id then token_2022_program else token_program

  unfoldable pub is_titan_pda_token_account : AccountInfo → Pubkey → Bool
  is_titan_pda_token_account account expected_authority =
      if account.owner != ids.spl_token_id && account.owner != ids.token_2022_id
      then false
      else if ltb (length account.bytes) 165
      then false
      else owned_by expected_authority (extract_token_owner account)

-- The token ledger's stored amount: the account it is about, and the amount.
unfoldable pub read_ledger_data : List ℕ → Pubkey → Result TemplateError ℕ
read_ledger_data bytes input_key = do
  require (not (ltb (length bytes) 48)) invalid_account_data
  key_bytes ← ok_or (slice? bytes 8 40) invalid_account_data
  require (new_from_array key_bytes == input_key) invalid_account_data
  amount_bytes ← ok_or (slice? bytes 40 48) invalid_account_data
  ok (from_le_bytes amount_bytes)

unfoldable pub read_token_ledger :
    Option AccountInfo → AccountInfo → Result TemplateError (Option ℕ)
read_token_ledger token_ledger input_token_account = elim token_ledger [
  | none ↦ ok none
  | some ledger ↦ do
    amount ← read_ledger_data ledger.bytes input_token_account.key
    ok (some amount)
]
