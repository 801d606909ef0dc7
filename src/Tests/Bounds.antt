-- ===== src/Tests/Bounds.antt =====
-- A quote function that quotes the amounts from 5 to 1000.
use quay_titan_integration.Prelude.{
  ℕ, ◌+◌, ◌^◌, ◌≤◌, ◌<◌, ◌≡◌, ◌⊎◌, ◌↔◌, ◌||◌, Result, ok, err, returned, ltb, arith,
}
use quay_titan_integration.TradingVenue.Error.{TradingVenueError}
use quay_titan_integration.TradingVenue.Quote.{QuoteResult}
use quay_titan_integration.TradingVenue.Bounds.{find_boundaries, quotable, valid_quote}
use quay_titan_integration.TradingVenue.Bounds.Coarse.{Hits, Misses}
use quay_titan_integration.TradingVenue.Bounds.Search.{
  Bracketed, NoProbe, nothing_quotable, find_boundaries-Bracketed, find_boundaries-interval,
  find_boundaries-no_probe,
}

abbrev window : ℕ → Result TradingVenueError (QuoteResult ℕ)
window x = ok (record {
  input_mint = 1;
  output_mint = 2;
  amount = x;
  expected_output = 1;
  not_enough_liquidity = ltb x 5 || ltb 1000 x;
  price = 0;
})

window-Hits : (x : ℕ) → 5 ≤ x → x ≤ 1000 → Hits window x
unfolding quotable valid_quote
window-Hits x low high = ground arith

window_below-Misses : (x : ℕ) → x < 5 → Misses window x
unfolding quotable valid_quote
window_below-Misses x low = ground arith

window_above-Misses : (x : ℕ) → 1000 < x → Misses window x
unfolding quotable valid_quote
window_above-Misses x high = ground arith

find_boundaries-Bracketed_example :
    Bracketed window ⊎ ((find_boundaries window ≡ err (returned nothing_quotable)) × NoProbe window)
find_boundaries-Bracketed_example = find_boundaries-Bracketed window

find_boundaries-interval_example :
    (lo : ℕ) × (hi : ℕ) × (find_boundaries window ≡ ok (lo, hi))
    × (5 ≤ lo)
    × (lo ≤ 5 + 100)
    × (lo ≤ hi)
    × (hi ≤ 1000)
    × (1000 ≤ hi + 100)
find_boundaries-interval_example =
    find_boundaries-interval window 5 1000 3 (omega arith) (omega arith) (omega arith) (omega arith)
      window-Hits window_below-Misses window_above-Misses

find_boundaries-no_probe_example :
    (find_boundaries window ≡ err (returned nothing_quotable))
    ↔ ((k : ℕ) → k < 64 → Misses window (2 ^ k))
find_boundaries-no_probe_example = find_boundaries-no_probe window
