-- ===== src/TradingVenue.antt =====
-- src/trading_venue: the contract of a venue, its errors, and the search for its quoting range.
pub mod Protocol
pub mod Error
pub mod Quote
pub mod Bounds
pub mod TokenInfo
pub mod Creation
pub mod Interface
