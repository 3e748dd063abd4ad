-- ===== src/Index/Entities.antt =====
-- chainindex-core/src/entity.rs: the schemas of entities, and the store of rows in memory. The JSON
-- values of a row are of `J`, the type of another library.
pub mod Rollback
use chainkit.Prelude.{
  Bool, List, Result, String, [], concat, count, err, false, filter, if◌then◌else◌, length, ltb,
  map, ok, true, ℕ, ◌&&◌, ◌++◌, ◌==◌, ◌∷◌, nat_eq, string_eq, pair_eq,
}
use chainkit.HashMap
use chainkit.HashMap.{HashMap}
use chainkit.Index.Error.{IndexerError, storage}

pub data FieldType : Type 0 where
  string_field int64 uint64 float64 bool_field json_field bytes_field : FieldType

pub record EntityField : Type 0 where
  pub name : String
  pub field_type : FieldType
  pub indexed : Bool
  pub nullable : Bool

pub record EntitySchema : Type 0 where
  pub name : String
  pub primary_key : String
  pub fields : List EntityField

pub record EntityRow (J : Type 0) : Type 0 where
  pub id : String
  pub entity_type : String
  pub block_number : ℕ
  pub tx_hash : String
  pub log_index : ℕ
  pub fields : HashMap String J

-- `EntitySchemaBuilder` holds what the schema does, and `build` hands it over.
unfoldable pub builder : String → EntitySchema
builder name = record { name = name; primary_key = "id"; fields = [] }

unfoldable pub primary_key : EntitySchema → String → EntitySchema
primary_key b pk = record b { primary_key = pk }

unfoldable pub field : EntitySchema → String → FieldType → Bool → EntitySchema
field b name field_type indexed = record b {
  fields =
      b.fields
      ++ record { name = name; field_type = field_type; indexed = indexed; nullable = false } ∷ [];
}

unfoldable pub nullable_field : EntitySchema → String → FieldType → Bool → EntitySchema
nullable_field b name field_type indexed = record b {
  fields =
      b.fields
      ++ record { name = name; field_type = field_type; indexed = indexed; nullable = true } ∷ [];
}

pub record MemoryEntityStore (J : Type 0) : Type 0 where
  pub schemas : HashMap String EntitySchema
  pub rows : HashMap (String × String) (EntityRow J)

module _ {J : Type 0} where
  unfoldable pub new : MemoryEntityStore J
  new = record { schemas = []; rows = [] }

  unfoldable pub register_schema :
      MemoryEntityStore J → EntitySchema → Result (Unit {0}) IndexerError × MemoryEntityStore J
  register_schema s schema =
      (ok tt, record s { schemas = HashMap.insert s.schemas schema.name schema })

  unfoldable pub insert :
      MemoryEntityStore J → EntityRow J → Result (Unit {0}) IndexerError × MemoryEntityStore J
  insert s row =
      let key : String × String = (row.entity_type, row.id) in
      if HashMap.contains_key s.rows key
      then (
        err (
            storage (
              concat "entity '" (
                concat row.entity_type (concat "' with id '" (concat row.id "' already exists"))))),
        s,
      )
      else (ok tt, record s { rows = HashMap.insert s.rows key row })

  unfoldable pub upsert :
      MemoryEntityStore J → EntityRow J → Result (Unit {0}) IndexerError × MemoryEntityStore J
  upsert s row = (ok tt, record s { rows = HashMap.insert s.rows (row.entity_type, row.id) row })

  unfoldable pub delete :
      MemoryEntityStore J → String → String → Result (Unit {0}) IndexerError × MemoryEntityStore J
  delete s entity_type id = (ok tt, record s { rows = HashMap.remove s.rows (entity_type, id) })

  unfoldable pub is_after : String → ℕ → (String × String) × EntityRow J → Bool
  is_after entity_type block_number b = b.0.0 == entity_type && ltb block_number b.1.block_number

  -- the loop that removes the collected keys
  unfoldable pub remove_keys :
      HashMap (String × String) (EntityRow J)
      → List (String × String)
      → HashMap (String × String) (EntityRow J)
  remove_keys rows [] = rows
  remove_keys rows (key ∷ keys) = remove_keys (HashMap.remove rows key) keys

  unfoldable pub delete_after_block :
      MemoryEntityStore J → String → ℕ → Result ℕ IndexerError × MemoryEntityStore J
  unfolding is_after remove_keys
  delete_after_block s entity_type block_number =
      let to_remove = map (λ b. b.0) (filter (is_after entity_type block_number) s.rows) in
      (ok (length to_remove), record s { rows = remove_keys s.rows to_remove })

  unfoldable pub row_count : MemoryEntityStore J → String → Result ℕ IndexerError
  row_count s entity_type = ok (count (λ b. b.1.entity_type == entity_type) s.rows)
