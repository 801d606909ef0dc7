-- ===== src/Program/Route/Total.antt =====
-- Panics of `execute` in instructions/swap_route_v3.rs as a whole.
use quay_titan_integration.Prelude.{
  ℕ, zero, suc, ◌+◌, ◌-◌, ◌<◌, ◌≡◌, Option, none, some, ok, List, [], ◌∷◌, All, length, get_elem?,
  ap, subst, ok-injective,
}
use quay_titan_integration.Program.State.{SwapSpecInputV2}
use quay_titan_integration.Program.Accounts.{TokenIds}
use quay_titan_integration.Program.Runtime.{World, Handle, Runtime, index, chain-eq-ok}
use quay_titan_integration.Program.Route.{
  SwapRouteV3, Request, check_request, read_request, read_ledger, mint_decimals, place,
}
use quay_titan_integration.Program.Route.Guards.{Valid, InRange, check_request-Valid}
use quay_titan_integration.Program.Route.Quiet.{check_request-IsQuiet}

All-get :
    (P : SwapSpecInputV2 → Type 0) (swaps : List SwapSpecInputV2) (i : ℕ) (spec : SwapSpecInputV2)
    → All P swaps
    → get_elem? swaps i ≡ some spec
    → P spec
All-get P [] i spec all e = cc
All-get P (s ∷ swaps) zero spec all e = let same : s ≡ spec = cc in subst P same all.0
All-get P (s ∷ swaps) (suc i) spec all e = All-get P swaps i spec all.1 e

index-eq-ok :
    {A : Type 0} (o : Option A) (w w' : World) (a : A) → index o w ≡ ok (a, w') → o ≡ some a
index-eq-ok (some b) w w' a e = ap (λ p. some p.0) (ok-injective e)
index-eq-ok none w w' a e = cc

module _ (rt : Runtime) (ids : TokenIds) (accounts : SwapRouteV3) (remaining : List Handle)
    (mints : ℕ) where
  guarded :
      (swaps : List SwapSpecInputV2) (w w' : World)
      → check_request mints swaps (length remaining) w ≡ ok (tt, w')
      → Valid mints swaps (length remaining)
  guarded swaps w w' h =
      let same = check_request-IsQuiet mints swaps (length remaining) w tt w' h in
      (check_request-Valid mints swaps (length remaining) w).0
        (subst (λ u. check_request mints swaps (length remaining) w ≡ ok (tt, u)) same h)

  pub requested :
      (swaps : List SwapSpecInputV2) (w w' : World) (request : Request)
      → read_request rt ids accounts remaining mints swaps w ≡ ok (request, w')
      → Valid mints swaps (length remaining)
        × (request.output_index < mints)
        × ((last : SwapSpecInputV2) × (get_elem? swaps (length swaps - 1) ≡ some last)
            × (last.to ≡ request.output_index))
  unfolding read_request
  requested swaps w w' request h =
      let (_, w1, e1, h1) =
        chain-eq-ok (check_request mints swaps (length remaining)) _ w w' request h in
      let valid = guarded swaps w w1 e1 in
      let (_, w2, _, h2) =
        chain-eq-ok (read_ledger rt ids accounts remaining mints) _ w1 w' request h1 in
      let (_, w3, _, h3) =
        chain-eq-ok (place rt ids accounts remaining mints mints) _ w2 w' request h2 in
      let (last, w4, e4, h4) =
        chain-eq-ok (index (get_elem? swaps (length swaps - 1))) _ w3 w' request h3 in
      let (_, w5, _, h5) =
        chain-eq-ok (place rt ids accounts remaining mints (mints + last.to)) _ w4 w' request h4 in
      let (_, w6, _, h6) =
        chain-eq-ok (mint_decimals rt ids accounts remaining mints _) _ w5 w' request h5 in
      let (_, w7, _, h7) =
        chain-eq-ok (mint_decimals rt ids accounts remaining mints _) _ w6 w' request h6 in
      let inside =
        All-get (InRange mints) swaps (length swaps - 1) last valid.5
          (index-eq-ok _ w3 w4 last e4) in
      let named : last.to ≡ request.output_index = ap (λ p. p.0.output_index) (ok-injective h7) in
      (valid, subst (λ i. i < mints) named inside.1, (last, index-eq-ok _ w3 w4 last e4, named))
