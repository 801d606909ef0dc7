-- ===== src/Quay.antt =====
-- src/quay/mod.rs: one Quay strategy as a venue. The children are the files of that folder: State
-- (loading and refresh), Price (quoting), Swap (instructions and lookup tables), Creation.
pub mod Sdk
pub mod Clock
pub mod Venue
pub mod Step
pub mod State
pub mod Price
pub mod Swap
pub mod Creation
pub mod Lifecycle
pub mod Trait
pub mod Range
