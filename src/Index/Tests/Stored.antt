-- ===== src/Index/Tests/Stored.antt =====
-- A storage with the events of two blocks.
use chainkit.Prelude.{List, [], arith, filter, if◌then◌else◌, leb, none, ℕ, ◌∷◌, ◌≡◌}
use chainkit.Index.Event.{DecodedEvent}
use chainkit.Index.Storage
use chainkit.Index.Storage.{InMemoryStorage, get_block_hash, rollback_after}
use chainkit.Index.Storage.Reorgs.{Write, event, block_hash, write_all, rollback-write_all}

abbrev transfer : ℕ → DecodedEvent ℕ
transfer block_number = record {
  chain = "ethereum";
  schema = "Transfer";
  address = "0xdead";
  tx_hash = "0x1";
  block_number = block_number;
  log_index = 0;
  fields_json = 7;
}

abbrev stored : InMemoryStorage ℕ
stored = write_all Storage.new (event (transfer 4) ∷ block_hash 4 "a" ∷ [])

abbrev later : List (Write ℕ)
later = event (transfer 5) ∷ block_hash 5 "b" ∷ event (transfer 6) ∷ []

rollback-write_all_example :
    ((rollback_after (write_all stored later) 4).events
      ≡ filter (λ e. leb e.block_number 4) stored.events)
    × ((k : ℕ)
        → get_block_hash (rollback_after (write_all stored later) 4) k
          ≡ (if leb k 4 then get_block_hash stored k else none))
rollback-write_all_example =
    rollback-write_all stored later 4 (omega arith, (omega arith, (omega arith, tt)))
