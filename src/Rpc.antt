-- ===== src/Rpc.antt =====
-- chainrpc/crates/chainrpc-core.
pub mod Circuit
pub mod Selection
pub mod ReorgWindow
pub mod Nonces
pub mod Transactions
pub mod Request
pub mod Error
pub mod Pool
pub mod Cache
pub mod ComputeUnits
pub mod PendingPool
pub mod GeoRouter
pub mod Dedup
pub mod Gas
pub mod GasBumper
pub mod TxLifecycle
mod Tests
