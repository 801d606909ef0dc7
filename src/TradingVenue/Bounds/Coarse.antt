-- ===== src/TradingVenue/Bounds/Coarse.antt =====
-- What the two doubling loops of `find_boundaries_coarse` leave behind.
use quay_titan_integration.Prelude.{
  ℕ, suc, ◌^◌, ◌≤◌, ◌<◌, ◌≡◌, refl, ◌⊎◌, inl, inr, true, false, arith, Result, Bool-cases, ◌∙◌,
  ◌==◌, subst, sym, leb,
}
use quay_titan_integration.Prelude.Word.{u64_max}
use quay_titan_integration.TradingVenue.Quote.{QuoteResult}
use quay_titan_integration.TradingVenue.Error.{TradingVenueError}
use quay_titan_integration.TradingVenue.Bounds.{quotable, coarse_lower, coarse_upper, upper_phase}
use quay_titan_integration.TradingVenue.Bounds.Progress.{
  Interval, ◌⊐◌, raise_wf, scale, capped, scale-⊐,
}
use mathlib.Core.Logic.{dif_pos}
use mathlib.Core.WellFounded.{Acc}
use native.Mathlib.Bridge.{le_prop}
use native.Mathlib.Decide.{dec_lt}
use native.Mathlib.Nat.{pow-suc, pow-le-pow_right}

-- The amounts that the first phase probes.
abbrev pub IsProbe : ℕ → ℕ → Type 0
IsProbe k x = (k < 64) × (x ≡ 2 ^ k)

pow-le_63 : (k : ℕ) → k < 64 → 2 ^ k ≤ 2 ^ 63
pow-le_63 k h = pow-le-pow_right {n = 2} (omega arith) {i = k} {j = 63} (omega arith)

-- Doubling a probe gives the next one, or saturates after the last.
scale-IsProbe :
    (k : ℕ) (s : Interval)
    → IsProbe k s.high
    → ((suc k < 64) × ((scale s).high ≡ 2 ^ suc k) × ((scale s).high < u64_max))
      ⊎ ((suc k ≡ 64) × ((scale s).high ≡ u64_max))
scale-IsProbe k s p = elim (dec_lt (suc k) 64) [
  | yes h ↦ inl (
    h,
    omega (arith, pow-suc 2 k, pow-le_63 (suc k) h),
    omega (arith, pow-suc 2 k, pow-le_63 (suc k) h),
  )
  | no h ↦
      let last : k ≡ 63 = omega arith in
      let top : s.high ≡ 2 ^ 63 = p.1 ∙ rw last in inr (omega arith, omega arith)
]

module _ {F : Type 0} (f : ℕ → Result TradingVenueError (QuoteResult F)) where
  abbrev pub Misses : ℕ → Type 0
  Misses x = quotable f x ≡ false

  abbrev pub Hits : ℕ → Type 0
  Hits x = quotable f x ≡ true

  -- The state of phase 1: `low` was refused, unless nothing was probed yet.
  abbrev Rising : ℕ → Interval → Type 0
  Rising k s = IsProbe k s.high × (s.low < s.high) × ((s.low ≡ 0) ⊎ Misses s.low)

  -- Phase 1 stops at a valid probe, or above the last one with all of them refused.
  abbrev pub LowerEnd : ℕ → Interval → Type 0
  LowerEnd k s =
      (s.low < s.high)
      × ((s.low ≡ 0) ⊎ Misses s.low)
      × ((((j : ℕ) × IsProbe j s.high) × Hits s.high)
          ⊎ ((s.high ≡ u64_max) × ((j : ℕ) → k ≤ j → j < 64 → Misses (2 ^ j))))

  extend : (k : ℕ) {e : Interval} → Misses (2 ^ k) → LowerEnd (suc k) e → LowerEnd k e
  extend k m (p, q, inl found) = (p, q, inl found)
  extend k m (p, q, inr (top, all)) = (
    p,
    q,
    inr (
      top,
      λ j above below. elim (dec_lt k j) [
        | yes h ↦ all j h below
        | no h ↦ let same : k ≡ j = omega arith in rw same at m
      ],
    ),
  )

  lower_hit : (s : Interval) (w : Acc ◌⊐◌ s) → Hits s.high → coarse_lower f s w ≡ s
  unfolding coarse_lower
  lower_hit s (Acc.intro _ above) hit = ground arith

  lower_top :
      (s : Interval) (w : Acc ◌⊐◌ s)
      → Misses s.high
      → (scale s).high ≡ u64_max
      → coarse_lower f s w ≡ capped (scale s)
  unfolding coarse_lower
  lower_top s (Acc.intro _ above) miss top = grind arith

  lower_next :
      (s : Interval) (above : (t : Interval) → t ⊐ s → Acc ◌⊐◌ t)
      → Misses s.high
      → (h : (scale s).low < (scale s).high) → (scale s).high < u64_max
      → coarse_lower f s (Acc.intro s above)
        ≡ coarse_lower f (scale s) (above (scale s) (scale-⊐ s h))
  unfolding coarse_lower
  lower_next s above miss h under =
      let ne : ((scale s).high == u64_max) ≡ false = ground arith in
      rw (miss, coarse_lower)
        (rw (dif_pos (dec_lt (scale s).low (scale s).high) le_prop h) (rw ne refl))

  coarse_lower-LowerEnd :
      (k : ℕ) (s : Interval) (w : Acc ◌⊐◌ s) → Rising k s → LowerEnd k (coarse_lower f s w)
  coarse_lower-LowerEnd k s (Acc.intro _ above) (p, q, r) = elim (Bool-cases (quotable f s.high)) [
    | inl hit ↦
        subst (LowerEnd k) (sym (lower_hit s (Acc.intro s above) hit)) (q, r, inl ((k, p), hit))
    | inr miss ↦ elim (scale-IsProbe k s p) [
      | inl (small, next, under) ↦
          let h : (scale s).low < (scale s).high = omega (arith, pow-suc 2 k, p.1) in
          subst (LowerEnd k) (sym (lower_next s above miss h under)) (
            extend k (rw (← p.1) miss) (
              coarse_lower-LowerEnd (suc k) (scale s) (above (scale s) (scale-⊐ s h))
                ((small, next), h, inr miss)))
      | inr (last, top) ↦ subst (LowerEnd k) (sym (lower_top s (Acc.intro s above) miss top)) (
        omega (arith, p.1, pow-le_63 k p.0),
        inr miss,
        inr (refl, λ j from to. let same : j ≡ k = omega arith in rw (same, ← p.1) miss),
      )
    ]
  ]

  -- Phase 1 of the coarse search, from its first probe.
  pub lower_phase : LowerEnd 0 (coarse_lower f (record { low = 0; high = 1 }) (raise_wf.apply _))
  lower_phase =
      coarse_lower-LowerEnd 0 (record { low = 0; high = 1 }) (raise_wf.apply _)
        ((omega arith, refl), omega arith, inl refl)

  -- Phase 2 stops above a valid probe, at one that is refused or at `u64::MAX`.
  abbrev pub UpperEnd : ℕ → Interval → Type 0
  UpperEnd least s =
      (least ≤ s.low)
      × (s.low ≤ s.high)
      × (s.high ≤ u64_max)
      × Hits s.low
      × ((s.high ≡ u64_max) ⊎ Misses s.high)

  upper_miss : (s : Interval) (w : Acc ◌⊐◌ s) → Misses s.high → coarse_upper f s w ≡ s
  unfolding coarse_upper
  upper_miss s (Acc.intro _ above) miss = ground arith

  upper_top :
      (s : Interval) (w : Acc ◌⊐◌ s)
      → Hits s.high
      → (scale s).high ≡ u64_max
      → coarse_upper f s w ≡ capped (scale s)
  unfolding coarse_upper
  upper_top s (Acc.intro _ above) hit top = grind arith

  upper_next :
      (s : Interval) (above : (t : Interval) → t ⊐ s → Acc ◌⊐◌ t)
      → Hits s.high
      → (h : (scale s).low < (scale s).high) → (scale s).high < u64_max
      → coarse_upper f s (Acc.intro s above)
        ≡ coarse_upper f (scale s) (above (scale s) (scale-⊐ s h))
  unfolding coarse_upper
  upper_next s above hit h under =
      let ne : ((scale s).high == u64_max) ≡ false = ground arith in
      rw (hit, coarse_upper)
        (rw (dif_pos (dec_lt (scale s).low (scale s).high) le_prop h) (rw ne refl))

  coarse_upper-UpperEnd :
      (least : ℕ) (s : Interval) (w : Acc ◌⊐◌ s)
      → least ≤ s.low
      → s.low < s.high
      → s.high ≤ u64_max
      → Hits s.low
      → UpperEnd least (coarse_upper f s w)
  coarse_upper-UpperEnd least s (Acc.intro _ above) p q r low_hit =
      elim (Bool-cases (quotable f s.high)) [
        | inr miss ↦
            subst (UpperEnd least) (sym (upper_miss s (Acc.intro s above) miss))
              (p, omega arith, r, low_hit, inr miss)
        | inl hit ↦ elim (dec_lt (scale s).high u64_max) [
          | no capped_now ↦
              subst (UpperEnd least) (sym (upper_top s (Acc.intro s above) hit (omega arith)))
                (omega arith, r, omega arith, hit, inl refl)
          | yes under ↦
              let h : (scale s).low < (scale s).high = omega arith in
              subst (UpperEnd least) (sym (upper_next s above hit h under)) (
                coarse_upper-UpperEnd least (scale s) (above (scale s) (scale-⊐ s h)) (omega arith)
                  h (omega arith) hit)
        ]
      ]

  -- Phase 2 after a phase 1 that stopped at a valid probe.
  pub upper_phase-UpperEnd :
      (lower : Interval) (j : ℕ)
      → IsProbe j lower.high
      → Hits lower.high
      → UpperEnd lower.high (upper_phase f (scale lower))
  unfolding upper_phase
  upper_phase-UpperEnd lower j p hit =
      let up : (scale lower).low < (scale lower).high = omega (
        arith,
        p.1,
        pow-le_63 j p.0,
        pow-le-pow_right {n = 2} (omega arith) {i = 0} {j = j} (omega arith),
      ) in
      let open_range : leb (scale lower).high (scale lower).low ≡ false = ground arith in
      rw open_range (
        coarse_upper-UpperEnd lower.high (scale lower) (raise_wf.apply _) (omega arith) up
          (omega arith) hit)
