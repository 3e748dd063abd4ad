-- ===== src/Index/Tests/Rows.antt =====
-- A store with two rows of one type and one of another.
use chainkit.Prelude.{String, [], refl, ℕ, ◌∷◌, ◌≡◌, nat_eq, string_eq, pair_eq}
use chainkit.HashMap
use chainkit.HashMap.{DistinctKeys}
use chainkit.Index.Entities.{EntityRow, MemoryEntityStore, insert}

abbrev row : String → String → ℕ → EntityRow ℕ
row entity_type id block = record {
  id = id;
  entity_type = entity_type;
  block_number = block;
  tx_hash = "0x1";
  log_index = 0;
  fields = [];
}

abbrev rows : MemoryEntityStore ℕ
rows = record {
  schemas = [];
  rows =
      (("user", "a"), row "user" "a" 5)
      ∷ (("user", "b"), row "user" "b" 9)
      ∷ (("pool", "a"), row "pool" "a" 9)
      ∷ [];
}

insert_taken : (insert rows (row "user" "a" 7)).1.rows ≡ rows.rows
unfolding insert HashMap.contains_key
insert_taken = refl
