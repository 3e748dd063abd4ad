-- ===== src/Rpc/Tests.antt =====
-- Concrete inputs for the theorems about the transport.
mod Providers
mod Blocks
mod Submissions
mod Cached
mod Budget
mod Failover
mod Regional
mod Coalesced
mod Stuck
