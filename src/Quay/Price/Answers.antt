-- ===== src/Quay/Price/Answers.antt =====
-- When `quote` answers, and what its answers satisfy.
use quay_titan_integration.Prelude.{
  ℕ, ◌-◌, ◌<◌, max, ◌≡◌, refl, Bool, true, false, not, ◌&&◌, ◌||◌, Option, none, some, Result, ok,
  err, is_ok, require, ◌>>=◌, ◌>>◌, subst, sym, Option-cases, Bool-cases, ltb→lt, ◌==◌, ltb, arith,
  inl, inr,
}
use quay_titan_integration.TradingVenue.Quote.{
  SwapType, exact_in, exact_out, QuoteRequest, QuoteResult,
}
use quay_titan_integration.TradingVenue.Bounds.{valid_quote}
use quay_titan_integration.Prelude.Word.{saturating_add}
use quay_titan_integration.Quay.Sdk.{Sdk}
use quay_titan_integration.Quay.Venue.{QuayVenue, initialized}
use quay_titan_integration.Quay.Price.{
  F64, find_token, supported, side_of, gated, decimals_of, spot_price, backward_price,
  marginal_price, quote_with, compute_quote, simulate_out, price_probe_in,
}

-- The gate that `quote` spells out is the negation of `initialized`.
gated-initialized : (sdk : Sdk) (v : QuayVenue) → gated sdk v ≡ not (initialized sdk v)
unfolding gated initialized
gated-initialized sdk v = ground arith

-- The request is exact-in, between the venue's two mints in one of the two directions.
abbrev pub is_exact_in : SwapType → Bool
is_exact_in exact_in = true
is_exact_in exact_out = false

abbrev pub trades : QuayVenue → QuoteRequest → Bool
trades v request =
    is_exact_in request.swap_type
    && (request.input_mint == v.base_mint && request.output_mint == v.quote_mint
        || request.input_mint == v.quote_mint && request.output_mint == v.base_mint)

abbrev pub is_some {ℓ} : {A : Type ℓ} → Option A → Bool
is_some none = false
is_some (some a) = true

abbrev pub has_tokens : QuayVenue → Bool
has_tokens v =
    is_some (find_token v.base_mint v.tokens) && is_some (find_token v.quote_mint v.tokens)

module _ {F : Type 0} (f64 : F64 F) (sdk : Sdk) (v : QuayVenue) (request : QuoteRequest) where
  -- `quote` returns a result exactly when the request is exact-in between the venue's two mints, the
  -- venue is initialized, and it holds the metadata of both mints.
  pub compute_quote-is_ok :
      is_ok (compute_quote f64 sdk v request)
      ≡ (trades v request && initialized sdk v && has_tokens v)
  unfolding compute_quote supported side_of decimals_of
  compute_quote-is_ok = ground (arith, gated-initialized sdk v)

-- A chain of the five steps of `compute_quote` that succeeded.
chain_ok {ℓ} :
    {E : Type 0} {R : Type ℓ} (m : Result E (Unit {0})) (s : Result E ℕ) (c : Bool) (e : E)
    (b q : Result E ℕ) (k : ℕ → ℕ → ℕ → R) {r : R}
    → (m
        >> (s >>= λ side.
            (require c e >> (b >>= λ base. q >>= λ quote_side. ok (k side base quote_side)))))
      ≡ ok r
    → (side : ℕ) × (base : ℕ) × (quote_side : ℕ) × (s ≡ ok side)
      × (c ≡ true)
      × (r ≡ k side base quote_side)
chain_ok (err f) s c e b q k h = cc
chain_ok (ok u) (err f) c e b q k h = cc
chain_ok (ok u) (ok side) false e b q k h = cc
chain_ok (ok u) (ok side) true e (err f) q k h = cc
chain_ok (ok u) (ok side) true e (ok base) (err f) k h = cc
chain_ok (ok u) (ok side) true e (ok base) (ok other) k h = (side, base, other, refl, refl, cc)

module _ {F : Type 0} (f64 : F64 F) (sdk : Sdk) (v : QuayVenue) (request : QuoteRequest) where
  -- What a quote that was answered is made of.
  pub Answered : QuoteResult F → Type 0
  Answered r =
      (side : ℕ) × (base_decimals : ℕ) × (quote_decimals : ℕ) × (side_of sdk v request ≡ ok side)
      × (not (gated sdk v) ≡ true)
      × (r
          ≡ quote_with f64 (simulate_out sdk v side base_decimals quote_decimals)
              (price_probe_in sdk v side) request)

  pub compute_quote-Answered :
      (r : QuoteResult F) → compute_quote f64 sdk v request ≡ ok r → Answered r
  unfolding compute_quote Answered
  compute_quote-Answered r h = chain_ok _ _ _ _ _ _ _ h

module _ {F : Type 0} (f64 : F64 F) (Positive : F → Type 0)
    (ratio_pos : (x y : ℕ)
      → 0 < x
      → 0 < y
      → Positive (f64.divide (f64.of_u64 x) (f64.of_u64 y))) where
  backward_pos :
      (simulate : ℕ → Option ℕ) (h a out : ℕ)
      → 0 < h
      → 0 < a
      → 0 < out
      → Positive (backward_price f64 simulate h a out)
  unfolding backward_price
  backward_pos simulate h a out ph pa po = elim (Option-cases (simulate (a - h))) [
    | inl refused ↦ rw (refused, backward_price) (ratio_pos out a po pa)
    | inr (down, e) ↦
        rw (e, backward_price)
          (elim (Bool-cases (ltb down out)) [
            | inl less ↦ rw less (ratio_pos (out - down) h (omega (arith, ltb→lt down out less)) ph)
            | inr more ↦ rw more (ratio_pos out a po pa)
          ])
  ]

  marginal_pos :
      (simulate : ℕ → Option ℕ) (h a out : ℕ)
      → 0 < h
      → 0 < a
      → 0 < out
      → Positive (marginal_price f64 simulate h a out)
  unfolding marginal_price
  marginal_pos simulate h a out ph pa po = elim (Option-cases (simulate (saturating_add a h))) [
    | inl refused ↦ rw (refused, marginal_price) (backward_pos simulate h a out ph pa po)
    | inr (up, e) ↦
        rw (e, marginal_price)
          (elim (Bool-cases (ltb out up)) [
            | inl less ↦ rw less (ratio_pos (up - out) h (omega (arith, ltb→lt out up less)) ph)
            | inr more ↦ rw more (backward_pos simulate h a out ph pa po)
          ])
  ]

  quote_with-pos :
      (simulate : ℕ → Option ℕ) (probe : ℕ) (request : QuoteRequest)
      → valid_quote (quote_with f64 simulate probe request) ≡ true
      → Positive (quote_with f64 simulate probe request).price
  unfolding quote_with valid_quote
  quote_with-pos simulate probe request valid = elim (Bool-cases (request.amount == 0)) [
    | inl none_in ↦ absurd (ground arith)
    | inr some_in ↦ elim (Option-cases (simulate request.amount)) [
      | inl refused ↦ absurd (ground arith)
      | inr (out, e) ↦
          rw (some_in, e)
            (marginal_pos simulate (max probe 1) request.amount out (omega arith) (ground arith)
              (ground arith))
    ]
  ]

  -- The price of a valid quote is positive, if the quotient of two positive numbers is.
  pub compute_quote-price_pos :
      (sdk : Sdk) (v : QuayVenue) (request : QuoteRequest) (r : QuoteResult F)
      → compute_quote f64 sdk v request ≡ ok r
      → valid_quote r ≡ true
      → Positive r.price
  unfolding Answered
  compute_quote-price_pos sdk v request r h valid =
      let (side, base, other, _, _, made) = compute_quote-Answered f64 sdk v request r h in
      subst (λ q. valid_quote q ≡ true → Positive q.price) (sym made)
        (quote_with-pos (simulate_out sdk v side base other) (price_probe_in sdk v side) request)
        valid

-- The steps that succeeded for one answer succeed for another.
chain_again {ℓ} :
    {E : Type 0} {R : Type ℓ} (m : Result E (Unit {0})) (s : Result E ℕ) (c : Bool) (e : E)
    (b q : Result E ℕ) (k : ℕ → ℕ → ℕ → R) {r : R}
    → (m
        >> (s >>= λ side.
            (require c e >> (b >>= λ base. q >>= λ quote_side. ok (k side base quote_side)))))
      ≡ ok r
    → (side : ℕ) × (base : ℕ) × (quote_side : ℕ) × (s ≡ ok side)
      × ((k' : ℕ → ℕ → ℕ → R)
          → (m
              >> (s >>= λ side.
                  (require c e
                    >> (b >>= λ base. q >>= λ quote_side. ok (k' side base quote_side)))))
            ≡ ok (k' side base quote_side))
      × (r ≡ k side base quote_side)
chain_again (err f) s c e b q k h = cc
chain_again (ok u) (err f) c e b q k h = cc
chain_again (ok u) (ok side) false e b q k h = cc
chain_again (ok u) (ok side) true e (err f) q k h = cc
chain_again (ok u) (ok side) true e (ok base) (err f) k h = cc
chain_again (ok u) (ok side) true e (ok base) (ok other) k h =
    (side, base, other, refl, λ k'. refl, cc)

module _ {F : Type 0} (f64 : F64 F) (sdk : Sdk) (v : QuayVenue) where
  -- The same request for another amount.
  abbrev pub for_amount : QuoteRequest → ℕ → QuoteRequest
  for_amount request amount = record request { amount = amount }

  -- The price of an answer for zero atoms, by the answer for the probe.
  abbrev pub IsSpotOf : QuoteResult F → QuoteResult F → ℕ → Type 0
  IsSpotOf r q probe =
      (q.not_enough_liquidity ≡ false
        → r.price ≡ f64.divide (f64.of_u64 q.expected_output) (f64.of_u64 probe))
      × (q.not_enough_liquidity ≡ true → r.price ≡ f64.zero_price)

  spot_of :
      (simulate : ℕ → Option ℕ) (request : QuoteRequest) (probe : ℕ)
      → request.amount ≡ 0
      → 0 < probe
      → IsSpotOf
          (quote_with f64 simulate probe request)
          (quote_with f64 simulate probe (for_amount request probe))
          probe
  unfolding quote_with spot_price
  spot_of simulate request probe none_in some_in =
      let zero_in : (request.amount == 0) ≡ true = ground arith in
      let probed : (probe == 0) ≡ false = ground arith in
      elim (Option-cases (simulate probe)) [
        | inl refused ↦ (λ off. absurd (ground arith), λ on. rw (zero_in, refused, spot_price) refl)
        | inr (out, e) ↦
            (λ off. rw (zero_in, e, probed, spot_price) refl, λ on. absurd (ground arith))
      ]

  -- The price of a request for zero atoms is the average price of the probe: with a positive probe size,
  -- the same request for the probe size is answered too, and the price is the quotient of its output and
  -- the probe size, or zero when the venue does not have the liquidity for it.
  pub compute_quote-spot :
      (request : QuoteRequest) (r : QuoteResult F)
      → request.amount ≡ 0
      → compute_quote f64 sdk v request ≡ ok r
      → (side : ℕ) × (side_of sdk v request ≡ ok side)
        × (0 < price_probe_in sdk v side
            → (q : QuoteResult F) × (compute_quote f64 sdk v
                  (for_amount request (price_probe_in sdk v side))
                ≡ ok q)
              × IsSpotOf r q (price_probe_in sdk v side))
  unfolding compute_quote side_of
  compute_quote-spot request r none_in h =
      let (side, base, other, sided, again, made) = chain_again _ _ _ _ _ _ _ h in
      let probe = price_probe_in sdk v side in
      let simulate = simulate_out sdk v side base other in
      (
        side,
        sided,
        λ some_in. (
          quote_with f64 simulate probe (for_amount request probe),
          again (λ side' base' other'.
              quote_with f64 (simulate_out sdk v side' base' other') (price_probe_in sdk v side')
                (for_amount request probe)),
          subst (λ x. IsSpotOf x (quote_with f64 simulate probe (for_amount request probe)) probe)
              (sym made) (spot_of simulate request probe none_in some_in),
        ),
      )
