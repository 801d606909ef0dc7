-- ===== src/TradingVenue/Protocol.antt =====
-- src/trading_venue/protocol.rs: the one protocol of this integration, and its label.
use Prim.Native.String.{String}

pub data PoolProtocol : Type 0 where
  quay : PoolProtocol

-- `From<PoolProtocol> for String`
pub protocol_name : PoolProtocol → String
protocol_name quay = "Quay"
