-- ===== src/Tests.antt =====
-- Concrete runs of the models, and one use of each theorem that has conditions.
mod Fixtures
mod Bounds
mod Quay
mod Cache
mod Route
mod Program
mod Execute
mod Settle
mod Delivered
mod Range
mod Bystander
mod Intake
mod Performed
mod Wrapped
mod Moves
mod Creates
mod Obliging
mod Success
