-- ===== src/Index/Tests.antt =====
-- Concrete inputs for the theorems about the indexer, and runs that can be followed in the source.
mod Chain
mod Loop
mod Reading
mod Failures
mod Rows
mod Ranges
mod Chains
mod Slots
mod Stored
mod Starting
mod Registry
mod Reloads
