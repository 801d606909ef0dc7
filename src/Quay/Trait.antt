-- ===== src/Quay/Trait.antt =====
-- src/quay/mod.rs: `impl TradingVenue for QuayVenue`.
use quay_titan_integration.TradingVenue.Protocol.{quay}
use quay_titan_integration.TradingVenue.TokenInfo.{Spl}
use quay_titan_integration.TradingVenue.Interface.{TradingVenue}
use quay_titan_integration.Quay.Sdk.{Sdk}
use quay_titan_integration.Quay.Venue.{QuayVenue, initialized, program_dependencies}
use quay_titan_integration.Quay.State.{required_update_pubkeys}
use quay_titan_integration.Quay.Price.{F64, compute_quote}
use quay_titan_integration.Quay.Swap.{build_swap_ix}

abbrev pub quay_venue : {F : Type 0} → F64 F → Sdk → Spl → QuayVenue → TradingVenue F
quay_venue f64 sdk spl v = record {
  initialized = initialized sdk v;
  program_id = v.program_id;
  program_dependencies = program_dependencies sdk v;
  market_id = v.strategy_key;
  get_token_info = v.tokens;
  protocol = quay;
  get_required_pubkeys_for_update = required_update_pubkeys sdk v;
  quote = compute_quote f64 sdk v;
  generate_swap_instruction = build_swap_ix sdk spl v;
}
