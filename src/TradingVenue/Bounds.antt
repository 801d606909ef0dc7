-- ===== src/TradingVenue/Bounds.antt =====
-- src/trading_venue/bounds.rs: the search for the quoting range of a quote function `f`. Each loop
-- recurs on the accessibility of its two variables, so it is total; `high - low` on u64 is a panic
-- when it would underflow, as in a build with overflow checks. The logging is left out.
pub mod Progress
pub mod Coarse
pub mod Refine
pub mod Search
use quay_titan_integration.Prelude.{
  ℕ, ◌-◌, ◌+◌, ◌/◌, ◌<◌, Bool, true, false, not, ◌||◌, Result, ok, err, Fault, returned, panic,
  ◌==◌, if◌then◌else◌, leb, ◌>>=◌, lift, arith,
}
use quay_titan_integration.Prelude.Word.{u64_max, saturating_mul}
use quay_titan_integration.TradingVenue.Quote.{QuoteResult}
use quay_titan_integration.TradingVenue.Error.{
  TradingVenueError, static_str, boundary_search_failed, no_quotable_value,
}
use mathlib.Core.Logic.{dite}
use mathlib.Core.WellFounded.{Acc}
use native.Mathlib.Decide.{dec_lt}
use quay_titan_integration.TradingVenue.Bounds.Progress.{
  Interval, ◌⊐◌, ◌⊏◌, raise_wf, narrow_wf, scale, capped, scale-⊐, midpoint, below, above, below-⊏,
  above-⊏,
}

unfoldable pub valid_quote : {F : Type 0} → QuoteResult F → Bool
valid_quote quote = not (quote.not_enough_liquidity || quote.expected_output == 0)

module _ {F : Type 0} (f : ℕ → Result TradingVenueError (QuoteResult F)) where
  -- The match on `f(x)` that every loop makes: an error counts as an invalid quote.
  unfoldable pub quotable : ℕ → Bool
  quotable x = elim (f x) [ ok result ↦ valid_quote result | err _ ↦ false ]

  -- Phase 1: double until a quote is valid.
  pub coarse_lower : (s : Interval) → Acc ◌⊐◌ s → Interval
  coarse_lower s (Acc.intro _ above) = elim (quotable s.high) [
    | true ↦ s
    | false ↦
        dite (dec_lt (scale s).low (scale s).high)
          (λ h. elim ((scale s).high == u64_max) [
            | true ↦ capped (scale s)
            | false ↦ coarse_lower (scale s) (above (scale s) (scale-⊐ s h))
          ])
          (λ _. capped (scale s))
  ]

  -- Phase 2: double until a quote is invalid.
  pub coarse_upper : (s : Interval) → Acc ◌⊐◌ s → Interval
  coarse_upper s (Acc.intro _ above) = elim (quotable s.high) [
    | false ↦ s
    | true ↦
        dite (dec_lt (scale s).low (scale s).high)
          (λ h. elim ((scale s).high == u64_max) [
            | true ↦ capped (scale s)
            | false ↦ coarse_upper (scale s) (above (scale s) (scale-⊐ s h))
          ])
          (λ _. capped (scale s))
  ]

  -- Phase 2 as a whole: nothing to search where the doubling has saturated already.
  pub upper_phase : Interval → Interval
  upper_phase start =
      if leb start.high start.low
      then record { low = start.low; high = start.low }
      else coarse_upper start (raise_wf.apply start)

  pub find_boundaries_coarse : Result TradingVenueError (ℕ × ℕ × ℕ × ℕ)
  find_boundaries_coarse =
      let lower = coarse_lower (record { low = 0; high = 1 }) (raise_wf.apply _) in
      let upper = upper_phase (scale lower) in ok (lower.low, lower.high, upper.low, upper.high)

  pub refine_lower_loop : (s : Interval) → Acc ◌⊏◌ s → Result (Fault TradingVenueError) ℕ
  refine_lower_loop s (Acc.intro _ inner) =
      dite (dec_lt s.high s.low) (λ _. err panic)
        (λ _.
          dite (dec_lt 100 (s.high - s.low))
            (λ h. elim (quotable (midpoint s)) [
              | true ↦ refine_lower_loop (below s) (inner (below s) (below-⊏ s h))
              | false ↦ refine_lower_loop (above s) (inner (above s) (above-⊏ s h))
            ])
            (λ _. ok s.high))

  pub refine_lower : ℕ → ℕ → Result (Fault TradingVenueError) ℕ
  refine_lower low high = refine_lower_loop (record { low = low; high = high }) (narrow_wf.apply _)

  pub refine_upper_loop : (s : Interval) → Acc ◌⊏◌ s → Result (Fault TradingVenueError) ℕ
  refine_upper_loop s (Acc.intro _ inner) =
      dite (dec_lt s.high s.low) (λ _. err panic)
        (λ _.
          dite (dec_lt 100 (s.high - s.low))
            (λ h. elim (quotable (midpoint s)) [
              | true ↦ refine_upper_loop (above s) (inner (above s) (above-⊏ s h))
              | false ↦ refine_upper_loop (below s) (inner (below s) (below-⊏ s h))
            ])
            (λ _. ok s.low))

  pub refine_upper : ℕ → ℕ → Result (Fault TradingVenueError) ℕ
  refine_upper low high = refine_upper_loop (record { low = low; high = high }) (narrow_wf.apply _)

  -- The two checks on the coarse bounds, and the two bisections.
  pub refine_boundaries : ℕ × ℕ × ℕ × ℕ → Result (Fault TradingVenueError) (ℕ × ℕ)
  refine_boundaries (lower_low, lower_high, upper_low, upper_high) =
      if lower_low == upper_high
      then err (
          returned (
            boundary_search_failed
              (static_str "Search boundaries are all equal; search space collapsed")))
      else if lower_high == u64_max
      then err (
          returned (
            no_quotable_value
              (static_str "No quotable value found; exponential search hit u64::MAX")))
      else (do
        lower_bound ← refine_lower lower_low lower_high
        upper_bound ← refine_upper upper_low upper_high
        ok (lower_bound, upper_bound))

  pub find_boundaries : Result (Fault TradingVenueError) (ℕ × ℕ)
  find_boundaries = do coarse ← lift find_boundaries_coarse; refine_boundaries coarse
