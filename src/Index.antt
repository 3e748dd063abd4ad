-- ===== src/Index.antt =====
-- chainindex/crates/chainindex-core and the live loop of chainindex-evm.
pub mod Block
pub mod Config
pub mod Tracker
pub mod Reorg
pub mod Error
pub mod Checkpoint
pub mod LiveLoop
pub mod Event
pub mod Handlers
pub mod Trace
pub mod HotReload
pub mod Stream
pub mod DeadLetters
pub mod Entities
pub mod Finality
pub mod Backfill
mod Tests
pub mod Multichain
pub mod Idempotency
pub mod Solana
pub mod Storage
pub mod Startup
