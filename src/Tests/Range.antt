-- ===== src/Tests/Range.antt =====
-- The quoting range and the directions of the venue of the other tests.
use quay_titan_integration.Prelude.{
  ℕ, ◌^◌, ◌≤◌, ◌<◌, ◌≡◌, ◌≢◌, refl, false, ◌⊎◌, ◌↔◌, some, none, ok, err, returned, get_elem?,
  length, In,
}
use quay_titan_integration.Prelude.Int.{pos}
use quay_titan_integration.Prelude.Bytes.{le_bytes, from_le_bytes}
use quay_titan_integration.TradingVenue.TokenInfo.{TokenInfo, token_info_new, from_mint}
use quay_titan_integration.TradingVenue.Bounds.Search.{nothing_quotable}
use quay_titan_integration.TradingVenue.Interface.{bounds, directions_num}
use quay_titan_integration.TradingVenue.Interface.Directions.{Unique, directions_num-exact}
use quay_titan_integration.Quay.Clock.{decode_clock}
use quay_titan_integration.Quay.State.{
  new_venue, refresh_state, refresh_from, required_update_pubkeys, slot, ext_keys_of,
}
use quay_titan_integration.Quay.Trait.{quay_venue}
use quay_titan_integration.Quay.Range.{Tradable, bounds-Tradable}
use quay_titan_integration.Tests.Fixtures.{sdk, spl, quotients}
use quay_titan_integration.Tests.Quay.{live}

abbrev token : ℕ → TokenInfo
token key = record {
  pubkey = key;
  decimals = pos 6;
  is_token_2022 = false;
  transfer_fee = none;
  maximum_fee = none;
}

abbrev base : TokenInfo
base = token 11

abbrev counter : TokenInfo
counter = token 12

base_held : get_elem? live.tokens 0 ≡ some base
unfolding refresh_state refresh_from required_update_pubkeys slot ext_keys_of token_info_new
    from_mint decode_clock le_bytes from_le_bytes new_venue
base_held = refl

counter_held : get_elem? live.tokens 1 ≡ some counter
unfolding refresh_state refresh_from required_update_pubkeys slot ext_keys_of token_info_new
    from_mint decode_clock le_bytes from_le_bytes new_venue
counter_held = refl

bounds-Tradable_example :
    ((lo : ℕ) × (hi : ℕ) × (bounds (quay_venue quotients sdk spl live) 0 1 ≡ ok (lo, hi))
      × (lo ≤ hi)
      × Tradable quotients sdk spl live 55 base counter lo
      × Tradable quotients sdk spl live 55 base counter hi)
    ⊎ ((bounds (quay_venue quotients sdk spl live) 0 1 ≡ err (returned nothing_quotable))
        × ((k : ℕ) → k < 64 → ¬ Tradable quotients sdk spl live 55 base counter (2 ^ k)))
bounds-Tradable_example =
    bounds-Tradable quotients sdk spl live 55 base counter 0 1 base_held counter_held

directions_num-exact_example :
    Unique (directions_num (quay_venue quotients sdk spl live))
    × ((i j : ℕ)
        → In (i, j) (directions_num (quay_venue quotients sdk spl live))
          ↔ ((i < length live.tokens) × (j < length live.tokens) × (i < 256) × (j < 256) × (i ≢ j)))
directions_num-exact_example = directions_num-exact (quay_venue quotients sdk spl live)
