-- ===== src/Quay/Price.antt =====
-- src/quay/quote.rs: `compute_quote`. `f64` is a type with the three operations that the code uses, and
-- the simulator is the SDK's.
pub mod Answers
use Prim.Native.Nat.{bit_and}
use quay_titan_integration.Prelude.{
  ℕ, zero, suc, ◌+◌, ◌-◌, max, Bool, true, false, not, ◌&&◌, ◌||◌, Option, none, some, Result, ok,
  err, require, ok_or, to_option, ◌>>=◌, ◌>>◌, List, [], ◌∷◌, ◌==◌, ltb, if◌then◌else◌,
}
use quay_titan_integration.Prelude.Int.{as_u8}
use quay_titan_integration.Prelude.Word.{saturating_add}
use quay_titan_integration.Solana.{Pubkey}
use quay_titan_integration.TradingVenue.Error.{
  TradingVenueError, pubkey as pubkey_info, static_str, exact_out_not_supported, invalid_mint,
  not_initialized, missing_state,
}
use quay_titan_integration.TradingVenue.Quote.{
  SwapType, exact_in, exact_out, QuoteRequest, QuoteResult,
}
use quay_titan_integration.TradingVenue.TokenInfo.{TokenInfo}
use quay_titan_integration.Quay.Sdk.{Sdk, ExtAccount, SwapSimulationInputs}
use quay_titan_integration.Quay.Venue.{QuayVenue, has_all_state, halts_clear, titan_router_id}

-- `x as f64`, `/` and `0.0`.
pub record F64 (F : Type 0) : Type 0 where
  pub of_u64 : ℕ → F
  pub divide : F → F → F
  pub zero_price : F

-- `iter().find(|t| t.pubkey == mint)`
unfoldable pub find_token : Pubkey → List TokenInfo → Option TokenInfo
find_token mint [] = none
find_token mint (t ∷ ts) = if t.pubkey == mint then some t else find_token mint ts

-- The buffer of `room` slots, filled from the keys and their data.
unfoldable pub ext_buffer : ℕ → List Pubkey → List (List ℕ) → List ExtAccount
ext_buffer zero keys data_list = []
ext_buffer (suc room) [] data_list = []
ext_buffer (suc room) (key ∷ keys) [] = []
ext_buffer (suc room) (key ∷ keys) (bytes ∷ rest) =
    record { key = key; bytes = bytes } ∷ ext_buffer room keys rest

-- Whether the swap type is one that Quay has.
unfoldable pub supported : SwapType → Result TradingVenueError (Unit {0})
supported exact_in = ok tt
supported exact_out = err exact_out_not_supported

module _ (sdk : Sdk) where
  -- Quay's `side` byte for the request's pair of mints.
  unfoldable pub side_of : QuayVenue → QuoteRequest → Result TradingVenueError ℕ
  side_of v request =
      if request.input_mint == v.base_mint && request.output_mint == v.quote_mint
      then ok sdk.side_sell_base
      else if request.input_mint == v.quote_mint && request.output_mint == v.base_mint
      then ok sdk.side_buy_base
      else err (invalid_mint (pubkey_info request.input_mint))

  -- The gate of `quote`, as it is written there.
  unfoldable pub gated : QuayVenue → Bool
  gated v =
      bit_and v.routing_flags sdk.route_titan == 0 || not (has_all_state v) || not (halts_clear v)

  unfoldable pub decimals_of : Pubkey → TradingVenueError → QuayVenue → Result TradingVenueError ℕ
  decimals_of mint missing v = elim (find_token mint v.tokens) [
    | some t ↦ ok (as_u8 t.decimals)
    | none ↦ err missing
  ]

  -- The closure `simulate_out`.
  unfoldable pub simulate_out : QuayVenue → (side base_decimals quote_decimals amt : ℕ) → Option ℕ
  simulate_out v side base_decimals quote_decimals amt = to_option (
      sdk.simulate_swap_in (record {
        strategy_data = v.strategy_data;
        market_maker_data = v.mm_data;
        quotes_data = v.quotes_data;
        global_config_data = v.global_config_data;
        current_slot = v.current_slot;
        current_unix_sec = v.current_unix_sec;
        side = side;
        amount_in = amt;
        min_amount_out = 0;
        base_decimals = base_decimals;
        quote_decimals = quote_decimals;
        tx = record {
          ix_depth = 2;
          tx_flags = 0;
          entrypoint_program = titan_router_id;
          signers = [];
        };
        last_restart_slot = 0;
        ext_accounts = ext_buffer 4 v.ext_keys v.ext_data;
      }))

  unfoldable pub price_probe_in : QuayVenue → ℕ → ℕ
  price_probe_in v side =
      if side == sdk.side_sell_base then v.price_probe_base else v.price_probe_quote

module _ {F : Type 0} (f64 : F64 F) where
  -- `x as f64 / y as f64`
  abbrev pub ratio : ℕ → ℕ → F
  ratio x y = f64.divide (f64.of_u64 x) (f64.of_u64 y)

  -- The spot rate, from one probe.
  unfoldable pub spot_price : (ℕ → Option ℕ) → ℕ → F
  spot_price simulate probe = elim (simulate probe) [
    | some out ↦ ratio out probe
    | none ↦ f64.zero_price
  ]

  unfoldable pub backward_price : (ℕ → Option ℕ) → (h a out : ℕ) → F
  backward_price simulate h a out = elim (simulate (a - h)) [
    | some down ↦ if ltb down out then ratio (out - down) h else ratio out a
    | none ↦ ratio out a
  ]

  -- The chord over one probe step: forward first, then backward, then the average rate.
  unfoldable pub marginal_price : (ℕ → Option ℕ) → (h a out : ℕ) → F
  marginal_price simulate h a out = elim (simulate (saturating_add a h)) [
    | some up ↦ if ltb out up then ratio (up - out) h else backward_price simulate h a out
    | none ↦ backward_price simulate h a out
  ]

  -- The answer for a venue that may quote, over its simulator and its probe size.
  unfoldable pub quote_with : (ℕ → Option ℕ) → ℕ → QuoteRequest → QuoteResult F
  quote_with simulate probe request =
      if request.amount == 0
      then record {
        input_mint = request.input_mint;
        output_mint = request.output_mint;
        amount = 0;
        expected_output = 0;
        not_enough_liquidity = false;
        price = spot_price simulate probe;
      }
      else elim (simulate request.amount) [
        | none ↦ record {
          input_mint = request.input_mint;
          output_mint = request.output_mint;
          amount = request.amount;
          expected_output = 0;
          not_enough_liquidity = true;
          price = f64.zero_price;
        }
        | some out ↦ record {
          input_mint = request.input_mint;
          output_mint = request.output_mint;
          amount = request.amount;
          expected_output = out;
          not_enough_liquidity = false;
          price = marginal_price simulate (max probe 1) request.amount out;
        }
      ]

  unfoldable pub compute_quote :
      Sdk → QuayVenue → QuoteRequest → Result TradingVenueError (QuoteResult F)
  compute_quote sdk v request = do
    supported request.swap_type
    side ← side_of sdk v request
    require (not (gated sdk v)) (not_initialized (pubkey_info v.strategy_key))
    base_decimals ← decimals_of sdk v.base_mint (missing_state (static_str "base TokenInfo")) v
    quote_decimals ← decimals_of sdk v.quote_mint (missing_state (static_str "quote TokenInfo")) v
    ok (
        quote_with (simulate_out sdk v side base_decimals quote_decimals)
          (price_probe_in sdk v side) request)
