-- ===== src/TradingVenue/Creation.antt =====
-- src/trading_venue/venue_creation.rs: a decompiled instruction, and a pool found in one.
use quay_titan_integration.Prelude.{ℕ, List}
use quay_titan_integration.Solana.{Pubkey}
use quay_titan_integration.TradingVenue.Protocol.{PoolProtocol}

pub record ParsedInstruction : Type 0 where
  pub program_id : Pubkey
  pub accounts : List Pubkey
  pub bytes : List ℕ

pub record PoolCreation : Type 0 where
  pub protocol : PoolProtocol
  pub pool : Pubkey
  pub mints : List Pubkey
