-- ===== src/Program.antt =====
-- program-template/programs/titan-v3-venue-template/src: the on-chain program. State is state.rs and
-- error.rs, QuayCpi is instructions/venues/quay.rs, and the other modules are parts of
-- instructions/swap_route_v3.rs, with Route the handler.
pub mod State
pub mod Accounts
pub mod Bitmap
pub mod QuayCpi
pub mod Legs
pub mod Runtime
pub mod Tokens
pub mod Reserves
pub mod Trade
pub mod Route
pub mod Calls
pub mod Ends
pub mod Entry
