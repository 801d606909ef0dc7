-- ===== src/Quay/State/Safe.antt =====
-- The slots that `refresh_state` of src/quay/state.rs indexes.
use quay_titan_integration.Prelude.{
  ℕ, ◌≤◌, ◌≡◌, true, Option, Result, err, List, ◌==◌, ltb, ltb→lt, ==_iff, length, get_elem?-lt,
  arith, ◌++◌, map_err, if◌then◌else◌, ok, returned, length-append,
}
use quay_titan_integration.Solana.{Pubkey, Account}
use quay_titan_integration.TradingVenue.Error.{
  AccountCacheError, account_cache_error, failed_to_fetch_multiple_account_data,
}
use quay_titan_integration.TradingVenue.TokenInfo.{Spl}
use quay_titan_integration.Quay.Sdk.{Sdk}
use quay_titan_integration.Quay.Venue.{QuayVenue}
use quay_titan_integration.Quay.Step.{
  run, try, ◌>>◌, IsSafe, try-IsSafe, modify-IsSafe, then-IsSafe, check-IsSafe,
}
use quay_titan_integration.Quay.State.{
  refresh_from, refresh_state, fixed_keys, required_update_pubkeys, slot,
}

slot-IsSafe :
    (accounts : List (Option Account)) (i : ℕ) (key : Pubkey)
    → 9 ≤ length accounts
    → ltb i 9 ≡ true
    → IsSafe (run (slot accounts i key))
unfolding slot
slot-IsSafe accounts i key enough small v =
    let (entry, e) = get_elem?-lt accounts i (omega (arith, ltb→lt i 9 small)) in ground arith

ruleset safe_rules = (then-IsSafe, try-IsSafe, modify-IsSafe)

module _ (sdk : Sdk) (spl : Spl) where
  refresh_from-IsSafe :
      (self : QuayVenue) (accounts : List (Option Account))
      → 9 ≤ length accounts
      → IsSafe (refresh_from sdk spl self accounts)
  unfolding refresh_from
  refresh_from-IsSafe self accounts enough = search (safe_rules, slot-IsSafe accounts) depth 60

  -- Refreshing a venue never panics, whatever list of accounts the cache returns: an answer of the
  -- wrong length is an error before any slot is read.
  pub refresh_state-IsSafe :
      (get_accounts : List Pubkey → Result AccountCacheError (List (Option Account)))
      → IsSafe (refresh_state sdk spl get_accounts)
  unfolding refresh_state required_update_pubkeys
  refresh_state-IsSafe get_accounts v =
      let needed = fixed_keys sdk v ++ v.ext_keys in
      then-IsSafe (try (map_err account_cache_error (get_accounts needed)))
        (λ accounts.
          run (
            if length accounts == length needed
            then ok tt
            else err (returned failed_to_fetch_multiple_account_data))
          >> refresh_from sdk spl v accounts)
        (try-IsSafe _)
        (λ accounts.
          check-IsSafe (length accounts == length needed) _ (refresh_from sdk spl v accounts)
            (λ counted. refresh_from-IsSafe v accounts (
              omega (
                arith,
                (==_iff (length accounts) (length needed)).0 counted,
                length-append (fixed_keys sdk v) v.ext_keys,
              ))))
        v
