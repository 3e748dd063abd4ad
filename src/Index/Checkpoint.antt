-- ===== src/Index/Checkpoint.antt =====
-- chainindex-core/src/checkpoint.rs: the store behind its trait, the in-memory store, and the
-- manager that saves every few blocks. The clock is an argument, `now`.
pub mod Memory
pub mod Manager
use Prim.Native.String.{◌++◌ as concat}
use chainkit.Prelude.{
  Option, Result, String, err, if◌then◌else◌, leb, ok, u64, ℕ, ◌+◌, nat_eq, string_eq, pair_eq,
}
use chainkit.Prelude.Int.{ℤ}
use chainkit.HashMap
use chainkit.HashMap.{HashMap}
use chainkit.Index.Error.{IndexerError}

pub record Checkpoint : Type 0 where
  pub chain_id : String
  pub indexer_id : String
  pub block_number : ℕ
  pub block_hash : String
  pub updated_at : ℤ

-- The trait `CheckpointStore`. A call that fails leaves a state behind too.
pub record CheckpointStore (S : Type 0) : Type 0 where
  pub load : S → String → String → Result (Option Checkpoint) IndexerError
  pub save : S → Checkpoint → Result (Unit {0}) IndexerError × S
  pub delete : S → String → String → Result (Unit {0}) IndexerError × S

-- `MemoryCheckpointStore`: the map behind its lock
abbrev pub MemoryCheckpoints : Type 0
MemoryCheckpoints = HashMap String Checkpoint

-- `format!("{chain_id}:{indexer_id}")`
unfoldable pub key : String → String → String
key chain_id indexer_id = concat chain_id (concat ":" indexer_id)

unfoldable pub memory_load :
    MemoryCheckpoints → String → String → Result (Option Checkpoint) IndexerError
memory_load m chain_id indexer_id = ok (HashMap.get m (key chain_id indexer_id))

unfoldable pub memory_save :
    MemoryCheckpoints → Checkpoint → Result (Unit {0}) IndexerError × MemoryCheckpoints
memory_save m cp = (ok tt, HashMap.insert m (key cp.chain_id cp.indexer_id) cp)

unfoldable pub memory_delete :
    MemoryCheckpoints → String → String → Result (Unit {0}) IndexerError × MemoryCheckpoints
memory_delete m chain_id indexer_id = (ok tt, HashMap.remove m (key chain_id indexer_id))

abbrev pub memory_store : CheckpointStore MemoryCheckpoints
memory_store = record { load = memory_load; save = memory_save; delete = memory_delete }

pub record CheckpointManager (S : Type 0) : Type 0 where
  pub store : S
  pub chain_id : String
  pub indexer_id : String
  pub save_interval : ℕ
  pub counter : ℕ

module _ {S : Type 0} (ops : CheckpointStore S) where
  unfoldable pub new : S → String → String → ℕ → CheckpointManager S
  new store chain_id indexer_id save_interval = record {
    store = store;
    chain_id = chain_id;
    indexer_id = indexer_id;
    save_interval = save_interval;
    counter = 0;
  }

  -- `CheckpointManager::load`
  unfoldable pub load : CheckpointManager S → Result (Option Checkpoint) IndexerError
  load m = ops.load m.store m.chain_id m.indexer_id

  -- the checkpoint that `force_save` builds
  abbrev pub current : CheckpointManager S → ℕ → String → ℤ → Checkpoint
  current m block_number block_hash now = record {
    chain_id = m.chain_id;
    indexer_id = m.indexer_id;
    block_number = block_number;
    block_hash = block_hash;
    updated_at = now;
  }

  unfoldable pub force_save :
      CheckpointManager S → ℕ → String → ℤ → Result (Unit {0}) IndexerError × CheckpointManager S
  force_save m block_number block_hash now =
      let (r, store) = ops.save m.store (current m block_number block_hash now) in
      (r, record m { store = store })

  -- after a failed save the `?` returns before the counter is reset
  after_save :
      Result (Unit {0}) IndexerError
      → CheckpointManager S
      → Result (Unit {0}) IndexerError × CheckpointManager S
  after_save (ok u) m = (ok tt, record m { counter = 0 })
  after_save (err e) m = (err e, m)

  unfoldable pub maybe_save :
      CheckpointManager S → ℕ → String → ℤ → Result (Unit {0}) IndexerError × CheckpointManager S
  unfolding force_save after_save
  maybe_save m block_number block_hash now =
      let counted = record m { counter = u64 (m.counter + 1) } in
      let (r, saved) = force_save counted block_number block_hash now in
      if leb m.save_interval counted.counter then after_save r saved else (ok tt, counted)
