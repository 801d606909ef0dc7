-- ===== src/Program/Route/Authority/Bystander.antt =====
-- instructions/swap_route_v3.rs: the token accounts that a route does not name.
use quay_titan_integration.Prelude.{
  inl, inr, ℕ, ◌≤◌, ◌≡◌, ◌≢◌, ok, List, All, In, get_elem?-In, arith, sym, ◌∙◌, [], ◌∷◌,
}
use quay_titan_integration.Solana.{Pubkey}
use quay_titan_integration.Program.State.{SwapSpecInputV2}
use quay_titan_integration.Program.Accounts.{TokenIds}
use quay_titan_integration.Program.Runtime.{
  World, Handle, Cpi, Runtime, create_ata, transfer, transfer_checked, close_account,
  system_transfer, sync_native, venue_call,
}
use quay_titan_integration.Program.Calls.{Calls-elim}
use quay_titan_integration.Program.Route.{SwapRouteV3, execute}
use quay_titan_integration.Program.Route.Closing.{held}
use quay_titan_integration.Program.Route.Authority.{
  Permitted, IsListed, creates_titan_ata, creates_input, creates_output, takes, takes_checked, pays,
  pays_checked, closes_input, closes_ata, wraps, syncs, trades,
}
use quay_titan_integration.Program.Route.Authority.Whole.{execute-Calls}

-- What a call may take from a token account: it takes from the source of a transfer, from the account
-- that is closed, and, for a trade, from the accounts that are passed to it.
abbrev pub MayTake : Cpi → Pubkey → Type 0
MayTake (create_ata payer owner mint ata program system) key = ⊥
MayTake (transfer program source destination authority amount signed) key = source ≡ key
MayTake (transfer_checked program source mint destination authority amount decimals signed) key =
    source ≡ key
MayTake (close_account program account destination authority signed) key = account ≡ key
MayTake (system_transfer source destination amount) key = ⊥
MayTake (sync_native program account) key = ⊥
MayTake (venue_call instruction keys) key = In key keys

-- The other programs take from no other account.
abbrev pub TakesOnly : Runtime → Type 0
TakesOnly rt =
    (cpi : Cpi) (key : Pubkey) (w w' : World)
    → ¬ MayTake cpi key
    → rt.invoke cpi w ≡ ok w'
    → held w key ≤ held w' key

module _ (rt : Runtime) (ids : TokenIds) (accounts : SwapRouteV3) (remaining : List Handle)
    (mints : ℕ) where
  pub All-In :
      (keys : List Pubkey) (key : Pubkey)
      → All (IsListed accounts remaining mints) keys
      → In key keys
      → IsListed accounts remaining mints key
  All-In [] key all at = absurd at
  All-In (k ∷ keys) key all (inl same) = let (h, listed, named) = all.0 in (h, listed, named ∙ same)
  All-In (k ∷ keys) key all (inr later) = All-In keys key all.1 later

  Permitted-spares :
      (key : Pubkey)
      → key ≢ accounts.input_token_account.key
      → ¬ IsListed accounts remaining mints key
      → (cpi : Cpi) → Permitted accounts remaining mints ids cpi
      → ¬ MayTake cpi key
  Permitted-spares key other unlisted cpi (creates_titan_ata i ata mint program p q r) t = t
  Permitted-spares key other unlisted cpi (creates_input mint program q r) t = t
  Permitted-spares key other unlisted cpi (creates_output i mint program q r) t = t
  Permitted-spares key other unlisted cpi (takes ata amount p) t = other (sym t)
  Permitted-spares key other unlisted cpi (takes_checked ata mint program amount decimals p q r) t =
      other (sym t)
  Permitted-spares key other unlisted cpi (pays i ata amount p) t =
      unlisted (ata, get_elem?-In remaining i ata p.0, t)
  Permitted-spares key other unlisted cpi (pays_checked i ata mint program amount decimals p q r)
        t =
      unlisted (ata, get_elem?-In remaining i ata p.0, t)
  Permitted-spares key other unlisted cpi (closes_input program r) t = other (sym t)
  Permitted-spares key other unlisted cpi (closes_ata i ata program p r) t =
      unlisted (ata, get_elem?-In remaining i ata p.0, t)
  Permitted-spares key other unlisted cpi (wraps amount) t = t
  Permitted-spares key other unlisted cpi (syncs program r) t = t
  Permitted-spares key other unlisted cpi (trades instruction keys e signed listed) t =
      unlisted (All-In keys key listed t)

  -- When a transfer takes only from its source, a close only from the account that is closed, a trade
  -- only from the accounts passed to it, and no other call takes tokens, a route that succeeds takes
  -- nothing from any token account that is neither the input account nor listed for the route: none
  -- of them holds less after it.
  pub execute-spares :
      TakesOnly rt
      → (key : Pubkey) → key ≢ accounts.input_token_account.key
      → ¬ IsListed accounts remaining mints key
      → (amount : ℕ) (swaps : List SwapSpecInputV2) (w w' : World)
      → execute rt ids accounts remaining mints amount swaps w ≡ ok (tt, w')
      → held w key ≤ held w' key
  execute-spares frame key other unlisted amount swaps w w' run =
      Calls-elim rt (Permitted accounts remaining mints ids) (λ u u'. held u key ≤ held u' key)
        (λ u. omega arith) (λ u mid u' first rest. omega (arith, first, rest))
        (λ cpi u u' p. frame cpi key u u' (Permitted-spares key other unlisted cpi p)) w w'
        (execute-Calls rt ids accounts remaining mints amount swaps w w' run)
