-- ===== src/Quay/Range.antt =====
-- src/quay/mod.rs: the quoting range of a Quay venue, and the swap instructions at its ends.
use quay_titan_integration.Prelude.{
  ℕ, ◌^◌, ◌≤◌, ◌<◌, ◌≡◌, refl, ◌⊎◌, inl, inr, true, is_ok, some, Result, ok, err, returned,
  get_elem?, arith, ◌∙◌, Result-cases,
}
use quay_titan_integration.Solana.{Pubkey}
use quay_titan_integration.TradingVenue.Error.{TradingVenueError}
use quay_titan_integration.TradingVenue.Quote.{QuoteRequest, QuoteResult, exact_in}
use quay_titan_integration.TradingVenue.TokenInfo.{Spl, TokenInfo}
use quay_titan_integration.TradingVenue.Bounds.{valid_quote, quotable, find_boundaries}
use quay_titan_integration.TradingVenue.Bounds.Coarse.{Hits}
use quay_titan_integration.TradingVenue.Bounds.Search.{nothing_quotable, find_boundaries-Bracketed}
use quay_titan_integration.TradingVenue.Interface.{bounds, get_token}
use quay_titan_integration.Quay.Sdk.{Sdk}
use quay_titan_integration.Quay.Venue.{QuayVenue}
use quay_titan_integration.Quay.Price.{F64, compute_quote}
use quay_titan_integration.Quay.Swap.{build_swap_ix}
use quay_titan_integration.Quay.Swap.Agrees.{compute_quote-build_swap_ix}
use quay_titan_integration.Quay.Trait.{quay_venue}

module _ {F : Type 0} (f64 : F64 F) (sdk : Sdk) (spl : Spl) (v : QuayVenue) (user : Pubkey)
    (input output : TokenInfo) where
  -- The request that `bounds` makes for an amount.
  abbrev pub request_of : ℕ → QuoteRequest
  request_of x = record {
    input_mint = input.pubkey;
    output_mint = output.pubkey;
    amount = x;
    swap_type = exact_in;
  }

  abbrev quotes : ℕ → Result TradingVenueError (QuoteResult F)
  quotes x = compute_quote f64 sdk v (request_of x)

  -- An amount with a valid quote, for which a swap instruction can be built.
  abbrev pub Tradable : ℕ → Type 0
  Tradable x =
      (result : QuoteResult F) × (quotes x ≡ ok result)
      × (valid_quote result ≡ true)
      × (is_ok (build_swap_ix sdk spl v (request_of x) user) ≡ true)

  Hits-Tradable : (x : ℕ) → Hits quotes x → Tradable x
  unfolding quotable
  Hits-Tradable x hit = elim (Result-cases (quotes x)) [
    | inr (e, failed) ↦ let no = rw (failed, quotable) at hit in cc
    | inl (result, quoted) ↦
        let valid : valid_quote result ≡ true = rw (quoted, quotable) at hit in
        let agree = compute_quote-build_swap_ix sdk spl v (request_of x) user f64 in
        let fine : is_ok (quotes x) ≡ true = rw quoted refl in (result, quoted, valid, ground arith)
  ]

  Tradable-Hits : (x : ℕ) → Tradable x → Hits quotes x
  unfolding quotable
  Tradable-Hits x (result, quoted, valid, _) = rw (quoted, quotable) valid

  -- The search over a venue's own quotes, between any two of its tokens, ends with a range at both
  -- ends of which the venue quotes and a swap instruction can be built, or reports NoQuotableValue, and
  -- then no power of two below 2^64 has a valid quote.
  pub bounds-Tradable :
      (i j : ℕ)
      → get_elem? v.tokens i ≡ some input
      → get_elem? v.tokens j ≡ some output
      → ((lo : ℕ) × (hi : ℕ) × (bounds (quay_venue f64 sdk spl v) i j ≡ ok (lo, hi))
          × (lo ≤ hi)
          × Tradable lo
          × Tradable hi)
        ⊎ ((bounds (quay_venue f64 sdk spl v) i j ≡ err (returned nothing_quotable))
            × ((k : ℕ) → k < 64 → ¬ Tradable (2 ^ k)))
  unfolding bounds get_token
  bounds-Tradable i j a b =
      let run : bounds (quay_venue f64 sdk spl v) i j ≡ find_boundaries quotes =
        rw (a, b, bounds, get_token) refl in
      elim (find_boundaries-Bracketed quotes) [
        | inl (lo, hi, found, ends) ↦
            inl
              (lo, hi, run ∙ found, ends.0.3, Hits-Tradable lo ends.0.0, Hits-Tradable hi ends.0.1)
        | inr (nothing, misses) ↦ inr (
          run ∙ nothing,
          λ k small t. let hit = Tradable-Hits (2 ^ k) t in let miss = misses k small in cc,
        )
      ]
