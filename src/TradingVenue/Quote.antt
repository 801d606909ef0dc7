-- ===== src/TradingVenue/Quote.antt =====
-- src/trading_venue/mod.rs: what a venue is asked and what it answers. `F` is `f64`.
use quay_titan_integration.Prelude.{ℕ, Bool}
use quay_titan_integration.Solana.{Pubkey}

pub data SwapType : Type 0 where
  exact_in exact_out : SwapType

pub record QuoteRequest : Type 0 where
  pub input_mint : Pubkey
  pub output_mint : Pubkey
  pub amount : ℕ
  pub swap_type : SwapType

pub record QuoteResult (F : Type 0) : Type 0 where
  pub input_mint : Pubkey
  pub output_mint : Pubkey
  pub amount : ℕ
  pub expected_output : ℕ
  pub not_enough_liquidity : Bool
  pub price : F
