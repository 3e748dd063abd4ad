-- ===== src/Lib.antt =====
-- chainkit: a verification library of the state machines of the indexing and the RPC layer.
--
-- The repository has four Rust workspaces. chainindex follows a chain: it asks a node for blocks and
-- logs, keeps a window of recent blocks, recovers from reorganisations, hands events to handlers and
-- streams, and saves checkpoints. chainrpc is the transport: it chooses a provider for a request,
-- keeps failing ones out by circuit breakers, watches block hashes for reorganisations, and keeps
-- the books of transactions and nonces. chaincodec decodes logs and chainerrors decodes errors. This
-- library models the parts of the first two that hold state.
--
-- Index, of chainindex/crates/chainindex-core/src (and the other crates where named):
-- - Index/Block: types.rs, a block's summary and `extends`.
-- - Index/Config: indexer.rs and types.rs, the configuration of an indexer and its event filter.
-- - Index/Tracker: tracker.rs, the window of blocks: `push`, `rewind_to`, `find_reorg_depth`.
-- - Index/Reorg: reorg.rs, `ReorgDetector::check`, `check_finalized` and `find_dropped_blocks`.
-- - Index/Error: error.rs, the errors that the operations return.
-- - Index/Checkpoint: checkpoint.rs, `CheckpointManager` over an interface of a store, which the
--   memory store of the same file fills.
-- - Index/LiveLoop: `IndexLoop::live_loop` of chainindex-evm/src/index_loop.rs. One poll is one
--   step, and takes what the node answers and what the handlers return in that poll as an argument.
--   The loop is a fold over the polls of a run, so that it needs no fuel.
-- - Index/Startup: `IndexLoop::run` and `IndexLoop::backfill` of the same file. The backfill runs on
--   fuel: one round more than there are blocks is enough.
-- - Index/Event: the decoded event of handler.rs; Index/Handlers: its `HandlerRegistry`, where what
--   the user's handlers do is a step on a state of theirs.
-- - Index/Stream: streaming.rs, `EventStream` and its cursors.
-- - Index/DeadLetters: dlq.rs, `DeadLetterQueue`.
-- - Index/Entities: entity.rs, the schemas and `MemoryEntityStore` without its queries.
-- - Index/Finality: finality.rs, the built-in configurations and `FinalityRegistry`.
-- - Index/Backfill: backfill.rs, the segments, `process_segment`, the shared state with the steps of
--   the tasks as a relation, the retries and `SegmentMerger`. The loops over segments and batches
--   run on fuel: as many rounds as there are blocks, and one more, are enough.
-- - Index/Multichain: multichain.rs, `MultiChainCoordinator` and `ChainSyncStatus`.
-- - Index/Idempotency: idempotency.rs, `IdempotentHandler` and the deterministic ids.
-- - Index/Storage: chainindex-storage/src/memory.rs, `InMemoryStorage`.
-- - Index/Trace: trace.rs, the calls of a Geth trace, `TraceFilter` and `TraceRegistry`.
-- - Index/HotReload: hotreload.rs, `diff_configs`, `ConfigValidator` and `HotReloadManager`.
-- - Index/Solana: chainindex-solana/src/lib.rs, the slots and `SlotTracker`.
-- Rpc, of chainrpc/crates/chainrpc-core/src:
-- - Rpc/Circuit: policy/circuit_breaker.rs, `CircuitBreaker`.
-- - Rpc/Selection: selection.rs, `SelectionState` and its five strategies.
-- - Rpc/ReorgWindow: reorg.rs, `ReorgDetector`.
-- - Rpc/Nonces, Rpc/Transactions: tx.rs, `NonceLedger` and `TxTracker`.
-- - Rpc/Request, Rpc/Error: request.rs and error.rs, the messages and the errors.
-- - Rpc/Pool: pool.rs, `ProviderPool`, which joins a cursor with a circuit breaker for each provider.
-- - Rpc/Cache: cache.rs, `CacheTransport`. Its eviction loop runs on fuel: one round more than there
--   are entries is enough.
-- - Rpc/ComputeUnits: cu_tracker.rs, `CuTracker`.
-- - Rpc/PendingPool: pending_pool.rs, `PendingPoolMonitor`.
-- - Rpc/GeoRouter: geo_routing.rs, `Region` and `GeoRouter`.
-- - Rpc/Dedup: dedup.rs, `DedupTransport`. The calls of many tasks are steps in any order; a task can be
--   interrupted where the source awaits or takes the lock.
-- - Rpc/Gas, Rpc/GasBumper: gas.rs and gas_bumper.rs, `compute_gas_recommendation`, `compute_bump` and
--   `bump_and_send`, which acts on the tracker of Rpc/Transactions.
-- - Rpc/TxLifecycle: tx_lifecycle.rs, and the receipt poller of tx.rs. `poll_receipt` runs on fuel: one
--   round more than there are attempts is enough.
-- Prelude holds what all share: tests and lists over the native numbers, `Result`, machine words,
-- `i64`, hexadecimal texts. HashMap is the map of the standard library as an association list, with its laws. The
-- modules called Tests apply the theorems to concrete inputs.
--
-- How the code is read. A struct is a record and an enum a data type, with the source's names; a
-- method with `&mut self`, or on a field behind a lock or an atomic, takes the state and returns the
-- new one after its result. A `Result` stays one, `?` is its bind, and a VecDeque is a list with the
-- oldest element first. Words wrap as in a release build, which has no overflow checks: `u64`, `u32`
-- and `i64` stand where the source adds, `sub64` where it subtracts, and `-` on the naturals where it
-- saturates. A poisoned lock, which panics, is not modelled.
--
-- What is an argument: the readings of the clocks, the answers of the node, the results of the
-- handlers, the hash of a key, the formatting of numbers, the lower and upper case of a text,
-- and watch channels and JSON values with their operations; and what is computed in floating point, as
-- the backoff of the dead letters, the fractions of a budget and the percentiles of the fees.
--
-- What is not modelled: tracing and metrics; the requests to a node, the database stores and the
-- clients, which are input and output; the broadcast channels and semaphores, of another library; the
-- scheduler of block handlers, the factory, the file watcher, Parity traces, GraphQL and export, the
-- indexers of other chains, the batches, the hedging and the routing by method, which are components of
-- their own; the queries of the entity store, the retry delays, the rate of a backfill and the token
-- bucket, which compute in floating point; and the decoders of chaincodec and chainerrors, which are other
-- programs.
pub mod Prelude
pub mod HashMap
pub mod Index
pub mod Rpc
