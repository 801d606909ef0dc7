-- ===== src/Solana.antt =====
-- The Solana types that the program passes about. A `Pubkey` is the 32-byte string itself, read as
-- a little-endian number, so that `new_from_array` and `to_bytes` are conversions of bytes.
use quay_titan_integration.Prelude.{ℕ, Bool, false, List}
use quay_titan_integration.Prelude.Bytes.{from_le_bytes}

abbrev pub Pubkey : Type 0
Pubkey = ℕ

-- `Pubkey::new_from_array`
abbrev pub new_from_array : List ℕ → Pubkey
new_from_array bytes = from_le_bytes bytes

-- `solana_account::Account`: the two fields that the program reads.
pub record Account : Type 0 where
  pub bytes : List ℕ
  pub owner : Pubkey

pub record AccountMeta : Type 0 where
  pub pubkey : Pubkey
  pub is_signer : Bool
  pub is_writable : Bool

-- `AccountMeta::new_readonly`
abbrev pub new_readonly : Pubkey → Bool → AccountMeta
new_readonly key signer = record { pubkey = key; is_signer = signer; is_writable = false }

pub record Instruction : Type 0 where
  pub program_id : Pubkey
  pub accounts : List AccountMeta
  pub bytes : List ℕ
