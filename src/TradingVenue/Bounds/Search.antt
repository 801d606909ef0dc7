-- ===== src/TradingVenue/Bounds/Search.antt =====
-- `find_boundaries` of src/trading_venue/bounds.rs as a whole, and what it promises.
use quay_titan_integration.Prelude.{
  ℕ, ◌+◌, ◌^◌, ◌≤◌, ◌<◌, ◌≡◌, ◌≢◌, refl, ◌⊎◌, inl, inr, ◌↔◌, arith, Result, ok, err, returned,
  Bool-cases,
}
use quay_titan_integration.Prelude.Word.{u64_max}
use quay_titan_integration.TradingVenue.Quote.{QuoteResult}
use quay_titan_integration.TradingVenue.Error.{TradingVenueError, static_str, no_quotable_value}
use quay_titan_integration.TradingVenue.Bounds.{
  quotable, coarse_lower, refine_lower, refine_upper, upper_phase, find_boundaries_coarse,
  refine_boundaries, find_boundaries,
}
use quay_titan_integration.TradingVenue.Bounds.Coarse.{
  Hits, Misses, IsProbe, lower_phase, upper_phase-UpperEnd,
}
use quay_titan_integration.TradingVenue.Bounds.Refine.{
  refine_lower-LowerBracket, refine_upper-UpperBracket,
}
use quay_titan_integration.TradingVenue.Bounds.Progress.{Interval, raise_wf, scale}
use native.Mathlib.Decide.{dec_lt}
use native.Mathlib.Nat.{pow-le-pow_right}

abbrev pub nothing_quotable : TradingVenueError
nothing_quotable =
    no_quotable_value (static_str "No quotable value found; exponential search hit u64::MAX")

module _ {F : Type 0} (f : ℕ → Result TradingVenueError (QuoteResult F)) where
  -- Both ends of `[lo, hi]` quote, and each is within 100 of an amount that does not, or of the end
  -- of the u64 range.
  abbrev pub IsBracketed : ℕ → ℕ → Type 0
  IsBracketed lo hi =
      (Hits f lo × Hits f hi × (0 < lo) × (lo ≤ hi) × (hi ≤ u64_max))
      × ((l : ℕ) × (l < lo) × (lo ≤ l + 100) × ((l ≡ 0) ⊎ Misses f l))
      × ((h : ℕ) × (hi ≤ h) × (h ≤ hi + 100) × ((h ≡ u64_max) ⊎ Misses f h))

  abbrev pub NoProbe : Type 0
  NoProbe = (k : ℕ) → k < 64 → Misses f (2 ^ k)

  abbrev pub Bracketed : Type 0
  Bracketed = (lo : ℕ) × (hi : ℕ) × (find_boundaries f ≡ ok (lo, hi)) × IsBracketed lo hi

  -- Phase 2 does not move once phase 1 has saturated.
  saturated :
      (s : Interval)
      → s.high ≡ u64_max
      → upper_phase f (scale s) ≡ record { low = u64_max; high = u64_max }
  unfolding upper_phase
  saturated s e = ground arith

  abbrev lower : Interval
  lower = coarse_lower f (record { low = 0; high = 1 }) (raise_wf.apply _)

  abbrev upper : Interval
  upper = upper_phase f (scale lower)

  probe-lt : (j x : ℕ) → IsProbe j x → (0 < x) × (x < u64_max)
  probe-lt j x (small, e) = (
    omega (arith, e, pow-le-pow_right {n = 2} (omega arith) {i = 0} {j = j} (omega arith)),
    omega (arith, e, pow-le-pow_right {n = 2} (omega arith) {i = j} {j = 63} (omega arith)),
  )

  coarse : find_boundaries_coarse f ≡ ok (lower.low, lower.high, upper.low, upper.high)
  unfolding find_boundaries_coarse
  coarse = refl

  -- `find_boundaries` after the coarse search and the two bisections.
  refined :
      (a b : ℕ)
      → lower.low ≢ upper.high
      → lower.high ≢ u64_max
      → refine_lower f lower.low lower.high ≡ ok a
      → refine_upper f upper.low upper.high ≡ ok b
      → find_boundaries f ≡ ok (a, b)
  unfolding find_boundaries refine_boundaries
  refined a b open_range under low high = rw coarse (ground arith)

  found :
      (j : ℕ)
      → IsProbe j lower.high
      → Hits f lower.high
      → lower.low < lower.high
      → ((lower.low ≡ 0) ⊎ Misses f lower.low)
      → Bracketed
  found j probe hit ordered low =
      let top = upper_phase-UpperEnd f lower j probe hit in
      let (a, ea, la) = refine_lower-LowerBracket f lower.low lower.high ordered low hit in
      let (b, eb, ub) = refine_upper-UpperBracket f upper.low upper.high top.1 top.3 top.4 in
      (
        a,
        b,
        refined a b (omega arith) (omega (arith, probe-lt j lower.high probe)) ea eb,
        ((la.0, ub.0, omega arith, omega arith, omega arith), la.3, ub.3),
      )

  unfound :
      lower.low < lower.high
      → lower.high ≡ u64_max
      → find_boundaries f ≡ err (returned nothing_quotable)
  unfolding find_boundaries refine_boundaries
  unfound ordered top = rw coarse (ground (arith, saturated lower top))

  -- The search always ends without a panic. Either it returns a range whose two ends quote, each
  -- within 100 of a refused amount or of the end of the u64 range, or it reports `NoQuotableValue`
  -- and no power of two below 2 ^ 64 quotes; it never reports `BoundarySearchFailed`.
  pub find_boundaries-Bracketed :
      Bracketed ⊎ ((find_boundaries f ≡ err (returned nothing_quotable)) × NoProbe)
  find_boundaries-Bracketed =
      let (ordered, low, stop) = lower_phase f in
      elim stop [
        | inl ((j, probe), hit) ↦ inl (found j probe hit ordered low)
        | inr (top, none_hit) ↦ inr (unfound ordered top, λ k. none_hit k (omega arith))
      ]

  probe_found : (k : ℕ) → k < 64 → Hits f (2 ^ k) → Bracketed
  probe_found k small hit = elim find_boundaries-Bracketed [
    | inl range ↦ range
    | inr (_, none_hit) ↦ cc (none_hit k small)
  ]

  -- When the quotable amounts are exactly those from `a` to `b`, and a power of two below 2 ^ 64 is
  -- among them, the search succeeds and each end of its range is within 100 of the true one and
  -- inside the true range.
  pub find_boundaries-interval :
      (a b k : ℕ)
      → b ≤ u64_max
      → k < 64
      → a ≤ 2 ^ k
      → 2 ^ k ≤ b
      → ((x : ℕ) → a ≤ x → x ≤ b → Hits f x)
      → ((x : ℕ) → x < a → Misses f x)
      → ((x : ℕ) → b < x → Misses f x)
      → (lo : ℕ) × (hi : ℕ) × (find_boundaries f ≡ ok (lo, hi))
        × (a ≤ lo)
        × (lo ≤ a + 100)
        × (lo ≤ hi)
        × (hi ≤ b)
        × (b ≤ hi + 100)
  find_boundaries-interval a b k fits small above below inside under over =
      let (
        lo,
        hi,
        e,
        ((hit_lo, hit_hi, pos, ordered, top), (l, l_lt, l_near, l_out), (h, h_le, h_near, h_out)),
      ) =
        probe_found k small (inside (2 ^ k) above below) in
      let a_le : a ≤ lo = elim (dec_lt lo a) [ no p ↦ omega arith | yes p ↦ cc (under lo p) ] in
      let b_ge : hi ≤ b = elim (dec_lt b hi) [ no p ↦ omega arith | yes p ↦ cc (over hi p) ] in
      let near_a : lo ≤ a + 100 = elim l_out [
        | inl first ↦ omega arith
        | inr miss ↦ elim (dec_lt l a) [
          | yes p ↦ omega arith
          | no p ↦ cc (inside l (omega arith) (omega arith))
        ]
      ] in
      let near_b : b ≤ hi + 100 = elim h_out [
        | inl last ↦ omega arith
        | inr miss ↦ elim (dec_lt b h) [
          | yes p ↦ omega arith
          | no p ↦ cc (inside h (omega arith) (omega arith))
        ]
      ] in
      (lo, hi, e, a_le, near_a, ordered, b_ge, near_b)

  -- The search reports `NoQuotableValue` exactly when no power of two below 2 ^ 64 quotes, whatever
  -- the amounts between the powers do.
  pub find_boundaries-no_probe :
      (find_boundaries f ≡ err (returned nothing_quotable)) ↔ ((k : ℕ) → k < 64 → Misses f (2 ^ k))
  find_boundaries-no_probe = (
    λ failed k small. elim (Bool-cases (quotable f (2 ^ k))) [
      | inr miss ↦ miss
      | inl hit ↦ let (lo, hi, e, _) = probe_found k small hit in cc
    ],
    λ none_hit.
        let (ordered, low, stop) = lower_phase f in
        elim stop [
          | inl ((j, (small, power)), hit) ↦ let at_power = rw power at hit in cc (none_hit j small)
          | inr (top, _) ↦ unfound ordered top
        ],
  )
