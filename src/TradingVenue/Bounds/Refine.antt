-- ===== src/TradingVenue/Bounds/Refine.antt =====
-- The two bisections of src/trading_venue/bounds.rs and their intervals.
use quay_titan_integration.Prelude.{
  ℕ, ◌+◌, ◌-◌, ◌≤◌, ◌<◌, ◌≡◌, refl, ◌⊎◌, inl, inr, arith, Result, ok, Bool-cases, Fault, subst, sym,
}
use quay_titan_integration.Prelude.Word.{u64_max}
use quay_titan_integration.TradingVenue.Quote.{QuoteResult}
use quay_titan_integration.TradingVenue.Error.{TradingVenueError}
use quay_titan_integration.TradingVenue.Bounds.{
  quotable, refine_lower_loop, refine_lower, refine_upper_loop, refine_upper,
}
use quay_titan_integration.TradingVenue.Bounds.Coarse.{Hits, Misses}
use quay_titan_integration.TradingVenue.Bounds.Progress.{
  Interval, ◌⊏◌, narrow_wf, midpoint, below, above, below-⊏, above-⊏,
}
use mathlib.Core.Logic.{dif_pos, dif_neg}
use mathlib.Core.WellFounded.{Acc}
use native.Mathlib.Bridge.{le_prop}
use native.Mathlib.Decide.{dec_lt}

module _ {F : Type 0} (f : ℕ → Result TradingVenueError (QuoteResult F)) where
  -- `high` quotes, and `low`, at most 100 below it, does not.
  abbrev pub LowerBracket : ℕ → ℕ → ℕ → Type 0
  LowerBracket least most bound =
      Hits f bound
      × (least ≤ bound)
      × (bound ≤ most)
      × ((l : ℕ) × (l < bound) × (bound ≤ l + 100) × ((l ≡ 0) ⊎ Misses f l))

  module _ (s : Interval) (inner : (t : Interval) → t ⊏ s → Acc ◌⊏◌ t)
      (ordered : s.low ≤ s.high) where
    lower_done : s.high ≤ s.low + 100 → refine_lower_loop f s (Acc.intro s inner) ≡ ok s.high
    unfolding refine_lower_loop
    lower_done narrow = grind arith

    lower_down :
        (wide : 100 < s.high - s.low)
        → Hits f (midpoint s)
        → refine_lower_loop f s (Acc.intro s inner)
          ≡ refine_lower_loop f (below s) (inner (below s) (below-⊏ s wide))
    unfolding refine_lower_loop
    lower_down wide hit =
        rw (hit, refine_lower_loop)
          (rw (dif_neg (dec_lt s.high s.low) (omega arith))
            (rw (dif_pos (dec_lt 100 (s.high - s.low)) le_prop wide) refl))

    lower_up :
        (wide : 100 < s.high - s.low)
        → Misses f (midpoint s)
        → refine_lower_loop f s (Acc.intro s inner)
          ≡ refine_lower_loop f (above s) (inner (above s) (above-⊏ s wide))
    unfolding refine_lower_loop
    lower_up wide miss =
        rw (miss, refine_lower_loop)
          (rw (dif_neg (dec_lt s.high s.low) (omega arith))
            (rw (dif_pos (dec_lt 100 (s.high - s.low)) le_prop wide) refl))

    upper_done : s.high ≤ s.low + 100 → refine_upper_loop f s (Acc.intro s inner) ≡ ok s.low
    unfolding refine_upper_loop
    upper_done narrow = grind arith

    upper_up :
        (wide : 100 < s.high - s.low)
        → Hits f (midpoint s)
        → refine_upper_loop f s (Acc.intro s inner)
          ≡ refine_upper_loop f (above s) (inner (above s) (above-⊏ s wide))
    unfolding refine_upper_loop
    upper_up wide hit =
        rw (hit, refine_upper_loop)
          (rw (dif_neg (dec_lt s.high s.low) (omega arith))
            (rw (dif_pos (dec_lt 100 (s.high - s.low)) le_prop wide) refl))

    upper_down :
        (wide : 100 < s.high - s.low)
        → Misses f (midpoint s)
        → refine_upper_loop f s (Acc.intro s inner)
          ≡ refine_upper_loop f (below s) (inner (below s) (below-⊏ s wide))
    unfolding refine_upper_loop
    upper_down wide miss =
        rw (miss, refine_upper_loop)
          (rw (dif_neg (dec_lt s.high s.low) (omega arith))
            (rw (dif_pos (dec_lt 100 (s.high - s.low)) le_prop wide) refl))

  -- The loop ends, without a panic, with a value that satisfies `P`.
  abbrev Yields : (ℕ → Type 0) → Result (Fault TradingVenueError) ℕ → Type 0
  Yields P r = (b : ℕ) × (r ≡ ok b) × P b

  refine_lower_loop-LowerBracket :
      (least most : ℕ) (s : Interval) (w : Acc ◌⊏◌ s)
      → least ≤ s.low
      → s.low < s.high
      → s.high ≤ most
      → ((s.low ≡ 0) ⊎ Misses f s.low)
      → Hits f s.high
      → Yields (LowerBracket least most) (refine_lower_loop f s w)
  refine_lower_loop-LowerBracket least most s (Acc.intro _ inner) p q r low high =
      elim (dec_lt 100 (s.high - s.low)) [
        | no narrow ↦ (
          s.high,
          lower_done s inner (omega arith) (omega arith),
          (high, omega arith, r, (s.low, q, omega arith, low)),
        )
        | yes wide ↦ elim (Bool-cases (quotable f (midpoint s))) [
          | inl hit ↦
              subst (Yields (LowerBracket least most))
                (sym (lower_down s inner (omega arith) wide hit))
                (refine_lower_loop-LowerBracket least most (below s)
                  (inner (below s) (below-⊏ s wide)) p (omega arith) (omega arith) low hit)
          | inr miss ↦
              subst (Yields (LowerBracket least most))
                (sym (lower_up s inner (omega arith) wide miss))
                (refine_lower_loop-LowerBracket least most (above s)
                  (inner (above s) (above-⊏ s wide)) (omega arith) (omega arith) r (inr miss) high)
        ]
      ]

  -- `bound` quotes, and `h`, at most 100 above it, does not or is the largest amount.
  abbrev pub UpperBracket : ℕ → ℕ → ℕ → Type 0
  UpperBracket least most bound =
      Hits f bound
      × (least ≤ bound)
      × (bound ≤ most)
      × ((h : ℕ) × (bound ≤ h) × (h ≤ bound + 100) × ((h ≡ u64_max) ⊎ Misses f h))

  refine_upper_loop-UpperBracket :
      (least most : ℕ) (s : Interval) (w : Acc ◌⊏◌ s)
      → least ≤ s.low
      → s.low ≤ s.high
      → s.high ≤ most
      → Hits f s.low
      → ((s.high ≡ u64_max) ⊎ Misses f s.high)
      → Yields (UpperBracket least most) (refine_upper_loop f s w)
  refine_upper_loop-UpperBracket least most s (Acc.intro _ inner) p q r low high =
      elim (dec_lt 100 (s.high - s.low)) [
        | no narrow ↦ (
          s.low,
          upper_done s inner q (omega arith),
          (low, p, omega arith, (s.high, q, omega arith, high)),
        )
        | yes wide ↦ elim (Bool-cases (quotable f (midpoint s))) [
          | inl hit ↦ subst (Yields (UpperBracket least most)) (sym (upper_up s inner q wide hit)) (
              refine_upper_loop-UpperBracket least most (above s) (inner (above s) (above-⊏ s wide))
                (omega arith) (omega arith) r hit high)
          | inr miss ↦
              subst (Yields (UpperBracket least most)) (sym (upper_down s inner q wide miss)) (
                refine_upper_loop-UpperBracket least most (below s)
                  (inner (below s) (below-⊏ s wide)) p (omega arith) (omega arith) low (inr miss))
        ]
      ]

  pub refine_lower-LowerBracket :
      (low high : ℕ)
      → low < high
      → ((low ≡ 0) ⊎ Misses f low)
      → Hits f high
      → (b : ℕ) × (refine_lower f low high ≡ ok b) × LowerBracket low high b
  unfolding refine_lower
  refine_lower-LowerBracket low high p q r =
      refine_lower_loop-LowerBracket low high (record { low = low; high = high })
        (narrow_wf.apply _) (omega arith) p (omega arith) q r

  pub refine_upper-UpperBracket :
      (low high : ℕ)
      → low ≤ high
      → Hits f low
      → ((high ≡ u64_max) ⊎ Misses f high)
      → (b : ℕ) × (refine_upper f low high ≡ ok b) × UpperBracket low high b
  unfolding refine_upper
  refine_upper-UpperBracket low high p q r =
      refine_upper_loop-UpperBracket low high (record { low = low; high = high })
        (narrow_wf.apply _) (omega arith) p (omega arith) q r
