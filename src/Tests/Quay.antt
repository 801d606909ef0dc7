-- ===== src/Tests/Quay.antt =====
-- One venue from its load through a refresh to its quotes.
use quay_titan_integration.Prelude.{
  ◌<◌, ℕ, ◌≡◌, refl, true, false, ◌&&◌, Option, ok, err, returned, is_ok, List, [], ◌∷◌, ◌++◌, ◌⊎◌,
  ◌↔◌, In,
}
use quay_titan_integration.Prelude.Bytes.{le_bytes, from_le_bytes}
use quay_titan_integration.Solana.{Account}
use quay_titan_integration.TradingVenue.Error.{account_cache_error, failed_to_acquire_read_lock}
use quay_titan_integration.TradingVenue.Quote.{QuoteResult}
use quay_titan_integration.TradingVenue.TokenInfo.{token_info_new, from_mint}
use quay_titan_integration.Quay.Clock.{decode_clock}
use quay_titan_integration.Quay.Venue.{
  QuayVenue, initialized, has_all_state, halts_clear, quay_program_id,
}
use quay_titan_integration.Quay.State.{
  from_account, new_venue, refresh_state, refresh_from, required_update_pubkeys, slot, ext_keys_of,
  ext_data_of, same_keys, collect_ext, fixed_keys,
}
use quay_titan_integration.Quay.State.Atomic.{refresh_state-IsAtomic}
use quay_titan_integration.Quay.State.Safe.{refresh_state-IsSafe}
use quay_titan_integration.Quay.State.Snapshot.{Refreshed, refresh_state-Refreshed}
use quay_titan_integration.Quay.State.External.{Collected, refresh_state-IsPaired}
use quay_titan_integration.Quay.Price.{
  find_token, compute_quote, gated, supported, side_of, decimals_of, quote_with, simulate_out,
  price_probe_in, ext_buffer, spot_price, backward_price, marginal_price,
}
use quay_titan_integration.Quay.Price.Answers.{
  trades, has_tokens, compute_quote-is_ok, compute_quote-spot, for_amount, IsSpotOf,
}
use quay_titan_integration.Quay.Lifecycle.{
  loaded as life_loaded, refreshed, compute_quote-Life, start, failed, Warmup-refuses,
}
use quay_titan_integration.TradingVenue.Protocol.{quay}
use quay_titan_integration.TradingVenue.Creation.{ParsedInstruction, PoolCreation}
use quay_titan_integration.Quay.Step.{is_panic}
use quay_titan_integration.Quay.Swap.{build_swap_ix}
use quay_titan_integration.Quay.Swap.Agrees.{compute_quote-build_swap_ix}
use quay_titan_integration.Quay.Creation.{parse_pool_creations}
use quay_titan_integration.Quay.Creation.Exact.{Creates, parse_pool_creations-In}
use quay_titan_integration.Tests.Fixtures.{
  sdk, spl, loaded, answers, refused, strategy_account, quotients, selling,
}

abbrev pub live : QuayVenue
live = (refresh_state sdk spl answers loaded).1

pub load_run : from_account sdk 1 strategy_account ≡ ok loaded
unfolding from_account ext_keys_of from_le_bytes
load_run = refl

refresh_run : (refresh_state sdk spl answers loaded).0 ≡ ok tt
unfolding refresh_state refresh_from required_update_pubkeys slot ext_keys_of token_info_new
    from_mint decode_clock le_bytes from_le_bytes new_venue
refresh_run = refl

refused_run :
    (refresh_state sdk spl refused loaded).0
    ≡ err (returned (account_cache_error failed_to_acquire_read_lock))
unfolding refresh_state required_update_pubkeys new_venue
refused_run = refl

pub initialized_run : initialized sdk live ≡ true
unfolding initialized has_all_state halts_clear refresh_state refresh_from required_update_pubkeys
    slot ext_keys_of ext_data_of same_keys collect_ext token_info_new from_mint decode_clock
    le_bytes from_le_bytes new_venue
initialized_run = refl

refresh_state-IsAtomic_example : (refresh_state sdk spl refused loaded).1 ≡ loaded
refresh_state-IsAtomic_example =
    refresh_state-IsAtomic sdk spl refused loaded
      (returned (account_cache_error failed_to_acquire_read_lock)) refused_run

refresh_state-Refreshed_example : Refreshed sdk spl answers loaded live
refresh_state-Refreshed_example = refresh_state-Refreshed sdk spl answers loaded refresh_run

refresh_state-IsPaired_example :
    (accounts : List (Option Account)) × (answers (fixed_keys sdk loaded ++ loaded.ext_keys)
      ≡ ok accounts)
    × ((live.ext_data ≡ [])
        ⊎ ((live.ext_keys ≡ loaded.ext_keys) × Collected accounts 9 live.ext_keys live.ext_data))
refresh_state-IsPaired_example = refresh_state-IsPaired sdk spl answers loaded refresh_run

-- A venue whose binding was another one when the accounts were asked for.
compute_quote-is_ok_example :
    is_ok (compute_quote quotients sdk live (selling 10))
    ≡ (trades live (selling 10) && initialized sdk live && has_tokens live)
compute_quote-is_ok_example = compute_quote-is_ok quotients sdk live (selling 10)

quote_run :
    compute_quote quotients sdk live (selling 10)
    ≡ ok (record {
      input_mint = 11;
      output_mint = 12;
      amount = 10;
      expected_output = 5;
      not_enough_liquidity = false;
      price = (2, 4);
    })
unfolding compute_quote supported side_of gated decimals_of find_token quote_with simulate_out
    price_probe_in ext_buffer marginal_price backward_price initialized has_all_state halts_clear
    refresh_state refresh_from required_update_pubkeys slot ext_keys_of ext_data_of same_keys
    collect_ext token_info_new from_mint decode_clock le_bytes from_le_bytes new_venue
quote_run = refl

spot_run :
    compute_quote quotients sdk live (selling 0)
    ≡ ok (record {
      input_mint = 11;
      output_mint = 12;
      amount = 0;
      expected_output = 0;
      not_enough_liquidity = false;
      price = (2, 4);
    })
unfolding compute_quote supported side_of gated decimals_of find_token quote_with simulate_out
    price_probe_in ext_buffer spot_price initialized has_all_state halts_clear refresh_state
    refresh_from required_update_pubkeys slot ext_keys_of ext_data_of same_keys collect_ext
    token_info_new from_mint decode_clock le_bytes from_le_bytes new_venue
spot_run = refl

trades_run : trades live (selling 10) ≡ true
unfolding refresh_state refresh_from required_update_pubkeys slot ext_keys_of token_info_new
    from_mint decode_clock le_bytes from_le_bytes new_venue
trades_run = refl

compute_quote-Life_example : is_ok (compute_quote quotients sdk live (selling 10)) ≡ true
compute_quote-Life_example =
    compute_quote-Life sdk spl quotients (selling 10)
      (refreshed (life_loaded 1 strategy_account load_run) answers) initialized_run trades_run

still_down : is_ok (refresh_state sdk spl refused loaded).0 ≡ false
still_down = rw refused_run refl

Warmup-refuses_example :
    (initialized sdk (refresh_state sdk spl refused loaded).1 ≡ false)
    × (is_ok (compute_quote quotients sdk (refresh_state sdk spl refused loaded).1 (selling 10))
        ≡ false)
Warmup-refuses_example =
    Warmup-refuses sdk spl quotients (selling 10)
      (failed refused (start 1 strategy_account load_run) still_down)

refresh_state-IsSafe_example : is_panic (refresh_state sdk spl answers loaded).0 ≡ false
refresh_state-IsSafe_example = refresh_state-IsSafe sdk spl answers loaded

abbrev spot_answer : QuoteResult (ℕ × ℕ)
spot_answer = record {
  input_mint = 11;
  output_mint = 12;
  amount = 0;
  expected_output = 0;
  not_enough_liquidity = false;
  price = (2, 4);
}

compute_quote-spot_example :
    (side : ℕ) × (side_of sdk live (selling 0) ≡ ok side)
    × (0 < price_probe_in sdk live side
        → (q : QuoteResult (ℕ × ℕ)) × (compute_quote quotients sdk live
              (for_amount quotients sdk live (selling 0) (price_probe_in sdk live side))
            ≡ ok q)
          × IsSpotOf quotients sdk live spot_answer q (price_probe_in sdk live side))
compute_quote-spot_example =
    compute_quote-spot quotients sdk live (selling 0) spot_answer refl spot_run

compute_quote-build_swap_ix_example :
    is_ok (compute_quote quotients sdk live (selling 10))
    ≡ (initialized sdk live && is_ok (build_swap_ix sdk spl live (selling 10) 55))
compute_quote-build_swap_ix_example =
    compute_quote-build_swap_ix sdk spl live (selling 10) 55 quotients

-- An `init_strategy` of pool 31 with the mints 36 and 37.
abbrev creating : ParsedInstruction
creating = record {
  program_id = quay_program_id;
  accounts = 31 ∷ 32 ∷ 33 ∷ 34 ∷ 35 ∷ 36 ∷ 37 ∷ [];
  bytes = 3 ∷ [];
}

abbrev created : PoolCreation
created = record { protocol = quay; pool = 31; mints = 36 ∷ 37 ∷ [] }

parse_pool_creations-In_example :
    In created (parse_pool_creations sdk (creating ∷ []))
    ↔ ((ix : ParsedInstruction) × In ix (creating ∷ []) × Creates sdk ix created)
parse_pool_creations-In_example = parse_pool_creations-In sdk (creating ∷ []) created

pub live_side : side_of sdk live (selling 10) ≡ ok 0
unfolding side_of refresh_state refresh_from required_update_pubkeys slot ext_keys_of token_info_new
    from_mint decode_clock le_bytes from_le_bytes new_venue
live_side = refl
