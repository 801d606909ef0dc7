-- ===== src/Quay/State/Atomic.antt =====
-- Failed runs of `refresh_state` of src/quay/state.rs.
use quay_titan_integration.Prelude.{Result, List, Option}
use quay_titan_integration.Solana.{Pubkey, Account}
use quay_titan_integration.TradingVenue.Error.{AccountCacheError}
use quay_titan_integration.TradingVenue.TokenInfo.{Spl}
use quay_titan_integration.Quay.Sdk.{Sdk}
use quay_titan_integration.Quay.Step.{
  IsAtomic, gets-Reads, run-Reads, try-Reads, modify-IsAtomic, then-IsAtomic,
}
use quay_titan_integration.Quay.State.{refresh_from, refresh_state}

ruleset atomic_rules = (then-IsAtomic, gets-Reads, run-Reads, try-Reads, modify-IsAtomic)

-- A refresh that fails leaves the whole venue as it was, whichever slot it failed at.
pub refresh_state-IsAtomic :
    (sdk : Sdk) (spl : Spl)
    (get_accounts : List Pubkey → Result AccountCacheError (List (Option Account)))
    → IsAtomic (refresh_state sdk spl get_accounts)
unfolding refresh_state refresh_from
refresh_state-IsAtomic sdk spl get_accounts = search atomic_rules depth 60
