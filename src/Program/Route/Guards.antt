-- ===== src/Program/Route/Guards.antt =====
-- The guards at the top of the handler, as one condition on the request.
use quay_titan_integration.Prelude.{
  ℕ, ◌*◌, ◌≤◌, ◌<◌, ◌≡◌, refl, ◌↔◌, true, ok, List, [], ◌∷◌, All, length, arith,
}
use quay_titan_integration.Program.State.{SwapSpecInputV2}
use quay_titan_integration.Program.Runtime.{World}
use quay_titan_integration.Program.Route.{in_range, check_request}

-- Both mints of a leg are mints of the route.
abbrev pub InRange : ℕ → SwapSpecInputV2 → Type 0
InRange mints spec = (spec.from < mints) × (spec.to < mints)

in_range-All :
    (mints : ℕ) (swaps : List SwapSpecInputV2)
    → (in_range mints swaps ≡ true) ↔ All (InRange mints) swaps
unfolding in_range
in_range-All mints [] = (λ h. tt, λ h. refl)
in_range-All mints (spec ∷ swaps) = (
  λ h. ((ground arith, ground arith), (in_range-All mints swaps).0 (ground arith)),
  λ h. let rest = (in_range-All mints swaps).1 h.1 in let (p, q) = h.0 in ground arith,
)

-- The first leg spends the first mint.
abbrev pub StartsAtInput : List SwapSpecInputV2 → Type 0
StartsAtInput [] = ⊥
StartsAtInput (spec ∷ swaps) = spec.from ≡ 0

abbrev pub Valid : ℕ → List SwapSpecInputV2 → ℕ → Type 0
Valid mints swaps remaining_count =
    (1 < mints)
    × (mints ≤ 12)
    × (2 * mints ≤ remaining_count)
    × (length swaps ≤ 12)
    × StartsAtInput swaps
    × All (InRange mints) swaps

-- The guards let a request pass exactly when it has 2 to 12 mints, each with its two accounts, 1 to 12
-- legs, the first of which spends the first mint, and every leg is between mints of the route.
pub check_request-Valid :
    (mints : ℕ) (swaps : List SwapSpecInputV2) (remaining_count : ℕ) (w : World)
    → (check_request mints swaps remaining_count w ≡ ok (tt, w)) ↔ Valid mints swaps remaining_count
unfolding check_request
check_request-Valid mints [] n w = (λ h. absurd (ground arith), λ h. absurd h.4)
check_request-Valid mints (spec ∷ swaps) n w =
    let legs = in_range-All mints (spec ∷ swaps) in
    (
      λ h. (
        ground arith,
        ground arith,
        ground arith,
        ground arith,
        ground arith,
        legs.0 (ground arith),
      ),
      λ h. let inside = legs.1 h.5 in ground (arith, inside),
    )
