-- ===== src/Quay/Creation.antt =====
-- src/quay/creation.rs: the pools that a transaction's instructions create.
pub mod Exact
use quay_titan_integration.Prelude.{
  ℕ, suc, ◌≤◌, ◌<◌, ◌≡◌, refl, Bool, true, false, ◌&&◌, Option, none, some, List, [], ◌∷◌, ◌++◌,
  ◌==◌, if◌then◌else◌, get_elem?,
}
use quay_titan_integration.Solana.{Pubkey}
use quay_titan_integration.TradingVenue.Protocol.{PoolProtocol, quay}
use quay_titan_integration.TradingVenue.Creation.{ParsedInstruction, PoolCreation}
use quay_titan_integration.Quay.Sdk.{Sdk}
use quay_titan_integration.Quay.Venue.{quay_program_id}

-- `data.first() == Some(&byte)`
pub starts_with : ℕ → List ℕ → Bool
starts_with byte [] = false
starts_with byte (b ∷ bs) = b == byte

-- The chain of `?` in the closure of `filter_map`.
abbrev pub pool_from : Option Pubkey → Option Pubkey → Option Pubkey → Option PoolCreation
pool_from (some pool) (some base) (some quote_mint) =
    some (record { protocol = quay; pool = pool; mints = base ∷ quote_mint ∷ [] })
pool_from _ _ _ = none

module _ (sdk : Sdk) where
  pub is_init_strategy : ParsedInstruction → Bool
  is_init_strategy ix =
      ix.program_id == quay_program_id && starts_with sdk.disc_init_strategy ix.bytes

  -- The pool of an `init_strategy`: accounts 0, 5 and 6, or nothing when one is missing.
  pub pool_of : ParsedInstruction → Option PoolCreation
  pool_of ix =
      pool_from (get_elem? ix.accounts 0) (get_elem? ix.accounts 5) (get_elem? ix.accounts 6)

  -- The filter and the `filter_map`, fused: an instruction gives at most one pool.
  pub created_by : ParsedInstruction → Option PoolCreation
  created_by ix = if is_init_strategy ix then pool_of ix else none

  pub parse_pool_creations : List ParsedInstruction → List PoolCreation
  parse_pool_creations [] = []
  parse_pool_creations (ix ∷ ixs) = elim (created_by ix) [
    | some creation ↦ creation ∷ parse_pool_creations ixs
    | none ↦ parse_pool_creations ixs
  ]
