-- ===== src/Index/Storage.antt =====
-- chainindex-storage/src/memory.rs. Each map and list stands behind a lock of its own; the checkpoints are
-- kept as the memory store of chainindex-core keeps them, whose operations they share.
pub mod Reorgs
use chainkit.Prelude.{
  List, Option, Result, String, [], filter, leb, length, ℕ, ◌++◌, ◌==◌, ◌∷◌, nat_eq, string_eq,
  pair_eq,
}
use chainkit.HashMap
use chainkit.HashMap.{HashMap}
use chainkit.Index.Error.{IndexerError}
use chainkit.Index.Event.{DecodedEvent}
use chainkit.Index.Checkpoint.{
  Checkpoint, CheckpointStore, MemoryCheckpoints, memory_load, memory_save, memory_delete,
}

pub record InMemoryStorage (J : Type 0) : Type 0 where
  pub checkpoints : MemoryCheckpoints
  pub events : List (DecodedEvent J)
  pub block_hashes : HashMap ℕ String

module _ {J : Type 0} where
  abbrev pub new : InMemoryStorage J
  new = record { checkpoints = []; events = []; block_hashes = [] }

  unfoldable pub insert_event : InMemoryStorage J → DecodedEvent J → InMemoryStorage J
  insert_event s event = record s { events = s.events ++ event ∷ [] }

  unfoldable pub insert_block_hash : InMemoryStorage J → ℕ → String → InMemoryStorage J
  insert_block_hash s block_number hash = record s {
    block_hashes = HashMap.insert s.block_hashes block_number hash;
  }

  unfoldable pub get_block_hash : InMemoryStorage J → ℕ → Option String
  get_block_hash s block_number = HashMap.get s.block_hashes block_number

  unfoldable pub events_by_schema : InMemoryStorage J → String → List (DecodedEvent J)
  events_by_schema s schema = filter (λ e. e.schema == schema) s.events

  unfoldable pub event_count : InMemoryStorage J → ℕ
  event_count s = length s.events

  unfoldable pub rollback_after : InMemoryStorage J → ℕ → InMemoryStorage J
  rollback_after s block_number = record s {
    events = filter (λ e. leb e.block_number block_number) s.events;
    block_hashes = filter (λ b. leb b.0 block_number) s.block_hashes;
  }

  unfoldable pub load :
      InMemoryStorage J → String → String → Result (Option Checkpoint) IndexerError
  unfolding memory_load
  load s chain_id indexer_id = memory_load s.checkpoints chain_id indexer_id

  unfoldable pub save :
      InMemoryStorage J → Checkpoint → Result (Unit {0}) IndexerError × InMemoryStorage J
  unfolding memory_save
  save s checkpoint =
      let (r, checkpoints) = memory_save s.checkpoints checkpoint in
      (r, record s { checkpoints = checkpoints })

  unfoldable pub delete :
      InMemoryStorage J → String → String → Result (Unit {0}) IndexerError × InMemoryStorage J
  unfolding memory_delete
  delete s chain_id indexer_id =
      let (r, checkpoints) = memory_delete s.checkpoints chain_id indexer_id in
      (r, record s { checkpoints = checkpoints })

  -- the trait that the checkpoint manager takes
  abbrev pub storage : CheckpointStore (InMemoryStorage J)
  storage = record { load = load; save = save; delete = delete }
