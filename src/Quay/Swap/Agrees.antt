-- ===== src/Quay/Swap/Agrees.antt =====
-- `quote` and `generate_swap_instruction` of a Quay venue side by side: the requests that they accept.
use quay_titan_integration.Prelude.{◌≡◌, ◌&&◌, is_ok, ◌∙◌, arith}
use quay_titan_integration.Solana.{Pubkey}
use quay_titan_integration.TradingVenue.Quote.{QuoteRequest}
use quay_titan_integration.TradingVenue.TokenInfo.{Spl}
use quay_titan_integration.Quay.Sdk.{Sdk}
use quay_titan_integration.Quay.Venue.{QuayVenue, initialized}
use quay_titan_integration.Quay.Price.{F64, compute_quote, side_of, supported}
use quay_titan_integration.Quay.Price.Answers.{trades, has_tokens, compute_quote-is_ok}
use quay_titan_integration.Quay.Swap.{token_program_for, build_swap_ix}

module _ (sdk : Sdk) (spl : Spl) (v : QuayVenue) (request : QuoteRequest) (user : Pubkey) where
  build_swap_ix-is_ok :
      is_ok (build_swap_ix sdk spl v request user) ≡ (trades v request && has_tokens v)
  unfolding build_swap_ix supported side_of token_program_for
  build_swap_ix-is_ok = ground arith

  -- A request is quoted exactly when the venue is initialized and a swap instruction can be built for
  -- the same request, whoever the user is.
  pub compute_quote-build_swap_ix :
      {F : Type 0} (f64 : F64 F)
      → is_ok (compute_quote f64 sdk v request)
        ≡ (initialized sdk v && is_ok (build_swap_ix sdk spl v request user))
  compute_quote-build_swap_ix f64 =
      compute_quote-is_ok f64 sdk v request ∙ rw build_swap_ix-is_ok (ground arith)
