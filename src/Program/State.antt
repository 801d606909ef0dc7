-- ===== src/Program/State.antt =====
-- state.rs and error.rs of the program, and what it sees of an account.
use quay_titan_integration.Prelude.{ℕ, Bool, List}
use quay_titan_integration.Solana.{Pubkey}

abbrev pub max_swaps : ℕ
max_swaps = 12

abbrev pub max_mints : ℕ
max_mints = 12

pub data Venue : Type 0 where
  quay : (sell_base : Bool) → Venue

pub record SwapSpecInputV2 : Type 0 where
  pub venue : Venue
  pub from : ℕ
  pub to : ℕ
  pub weight_nanos : ℕ
  pub n_accounts : ℕ

pub record TitanPda : Type 0 where
  pub bump : ℕ

pub data TemplateError : Type 0 where
  invalid_swap_input : TemplateError
  missing_remaining_account : TemplateError
  invalid_account_data : TemplateError
  reserved_balance_violation : TemplateError

-- `AccountInfo`: the fields that the program reads. No other borrow is held while it reads one.
pub record AccountInfo : Type 0 where
  pub key : Pubkey
  pub is_signer : Bool
  pub is_writable : Bool
  pub owner : Pubkey
  pub lamports : ℕ
  pub bytes : List ℕ
