-- ===== src/SwapRoute/Side.antt =====
-- The side of a swap as the two ends of the route see it: the venue selector of the leg, the side byte
-- that the program writes, and the side that the SDK's builder and simulator are given.
use quay_titan_integration.Prelude.{ℕ, ◌≡◌, refl, Bool, true, ok, ◌==◌, arith, inl, inr}
use quay_titan_integration.TradingVenue.Quote.{QuoteRequest}
use quay_titan_integration.TradingVenue.TokenInfo.{Spl}
use quay_titan_integration.Quay.Sdk.{Sdk}
use quay_titan_integration.Quay.Venue.{QuayVenue, initialized}
use quay_titan_integration.Quay.Price.{F64, side_of}
use quay_titan_integration.Quay.Lifecycle.{Life, Life-IsReady}
use quay_titan_integration.Quay.Trait.{quay_venue}
use quay_titan_integration.SwapRoute.{quay, protocol_to_venue}
use quay_titan_integration.Program.QuayCpi.{side_byte}

module _ {F : Type 0} (f64 : F64 F) (sdk : Sdk) (spl : Spl) (sell : sdk.side_sell_base ≡ 0)
    (buy : sdk.side_buy_base ≡ 1) where
  side_of-byte :
      (v : QuayVenue) (request : QuoteRequest) (side : ℕ)
      → side_of sdk v request ≡ ok side
      → side_byte (request.input_mint == v.base_mint) ≡ side
  unfolding side_of
  side_of-byte v request side sided = ground (arith, sell, buy)

  -- Given that the SDK's sides are 0 and 1, an initialized venue's leg gets a selector whose side byte
  -- in the program's instruction is the side that the quote was simulated for.
  pub protocol_to_venue-side :
      (v : QuayVenue) (request : QuoteRequest) (side : ℕ)
      → Life sdk spl v
      → initialized sdk v ≡ true
      → side_of sdk v request ≡ ok side
      → (sell_base : Bool) × (protocol_to_venue (quay_venue f64 sdk spl v) request
          ≡ ok (quay sell_base))
        × (side_byte sell_base ≡ side)
  unfolding protocol_to_venue side_of initialized
  protocol_to_venue-side v request side life init sided = elim (Life-IsReady sdk spl life) [
    | inl halted ↦ absurd (ground arith)
    | inr ready ↦
        let (base, quote_token, held, base_key, quote_key) = ready in
        (
          request.input_mint == v.base_mint,
          rw (held, base_key) refl,
          side_of-byte v request side sided,
        )
  ]
