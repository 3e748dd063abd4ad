-- ===== src/Index/Entities/Rollback.antt =====
-- What a rollback leaves of the rows of a type.
use chainkit.Prelude.{
  All, Bool, Bool-cases, List, Option, String, [], ap, arith, false, filter, if◌then◌else◌, inl,
  inr, ltb, map, none, refl, some, sym, true, ℕ, ◌&&◌, ◌<◌, ◌==◌, ◌∙◌, ◌∷◌, ◌≡◌, nat_eq, string_eq,
  pair_eq,
}
use mathlib.Core.Path.{subst}
use chainkit.HashMap
use chainkit.HashMap.{HashMap, DistinctKeys}
use chainkit.HashMap.Laws.{get-insert, get-remove, get_of_absent}
use chainkit.Index.Entities.{
  EntityRow, MemoryEntityStore, upsert, is_after, remove_keys, delete_after_block,
}

abbrev Key : Type 0
Key = String × String

listed : List Key → Key → Bool
listed [] k = false
listed (j ∷ js) k = if j == k then true else listed js k

module _ {J : Type 0} where
  -- The row under a type and an id.
  unfoldable pub row_at : MemoryEntityStore J → String → String → Option (EntityRow J)
  row_at s entity_type id = HashMap.get s.rows (entity_type, id)

  get-remove_keys :
      (m : HashMap Key (EntityRow J)) (ks : List Key) (k : Key)
      → HashMap.get (remove_keys m ks) k ≡ (if listed ks k then none else HashMap.get m k)
  unfolding remove_keys listed
  get-remove_keys m [] k = refl
  get-remove_keys m (j ∷ ks) k =
      get-remove_keys (HashMap.remove m j) ks k ∙ ground (arith, get-remove m j k)

  abbrev pub keep : ((String × String) × EntityRow J → Bool) → Key → Option (EntityRow J) → Bool
  keep p k none = false
  keep p k (some row) = p (k, row)

  listed-filter :
      (p : Key × EntityRow J → Bool) (m : HashMap Key (EntityRow J)) (k : Key)
      → DistinctKeys m
      → listed (map (λ b. b.0) (filter p m)) k ≡ keep p k (HashMap.get m k)
  unfolding listed HashMap.get
  listed-filter p [] k d = refl
  listed-filter p ((j, v) ∷ m) k d = elim (Bool-cases (j == k)) [
    | inl x ↦
        let here : j ≡ k = (pair_eq.same_iff j k).0 x in
        let gone : listed (map (λ b. b.0) (filter p m)) k ≡ false =
          listed-filter p m k d.1
          ∙ ap (keep p k) (
              get_of_absent k m
                (subst (λ i. All (λ (b : Key × EntityRow J). b.0 ≡ i → ⊥) m) here d.0)) in
        elim (Bool-cases (p (j, v))) [
          | inl y ↦ rw (y, x) (sym (subst (λ i. p (i, v) ≡ true) here y))
          | inr y ↦ rw (y, x) (gone ∙ sym (subst (λ i. p (i, v) ≡ false) here y))
        ]
    | inr x ↦ elim (Bool-cases (p (j, v))) [
      | inl y ↦ rw (y, x) (listed-filter p m k d.1)
      | inr y ↦ rw (y, x) (listed-filter p m k d.1)
    ]
  ]

  -- Whether a rollback of the type to the block takes the row away.
  abbrev pub rolled_back : String → ℕ → String → EntityRow J → Bool
  rolled_back entity_type block_number t row = t == entity_type && ltb block_number row.block_number

  kept_lem :
      (entity_type : String) (block_number : ℕ) (t id : String) (r : Option (EntityRow J))
      → (if keep (is_after entity_type block_number) (t, id) r then none else r) ≡ elim r [
        | none ↦ none
        | some row ↦ if rolled_back entity_type block_number t row then none else some row
      ]
  unfolding is_after
  kept_lem entity_type block_number t id none = refl
  kept_lem entity_type block_number t id (some row) = refl

  -- In a store where no key is bound twice, a rollback to a block takes away the rows of the type
  -- whose last write is above the block, and keeps every other row as it is.
  get-delete_after_block :
      (s : MemoryEntityStore J) (entity_type : String) (block_number : ℕ) (t id : String)
      → DistinctKeys s.rows
      → row_at (delete_after_block s entity_type block_number).1 t id ≡ elim (row_at s t id) [
        | none ↦ none
        | some row ↦ if rolled_back entity_type block_number t row then none else some row
      ]
  unfolding delete_after_block row_at
  get-delete_after_block s entity_type block_number t id d =
      get-remove_keys s.rows (map (λ b. b.0) (filter (is_after entity_type block_number) s.rows))
        (t, id)
      ∙ rw (listed-filter (is_after entity_type block_number) s.rows (t, id) d)
          (kept_lem entity_type block_number t id (HashMap.get s.rows (t, id)))

  stored :
      (s : MemoryEntityStore J) (row : EntityRow J)
      → row_at (upsert s row).1 row.entity_type row.id ≡ some row
  unfolding upsert row_at
  stored s row =
      let key : Key = (row.entity_type, row.id) in
      get-insert s.rows key key row ∙ ground (arith, pair_eq.same_iff key key)

  -- Where no key is bound twice, a row that was rewritten above the block is gone after the
  -- rollback, with the value that it had at the block: nothing is stored for it then, whatever
  -- was stored before the write.
  pub rollback_loses :
      (s : MemoryEntityStore J) (row : EntityRow J) (block_number : ℕ)
      → DistinctKeys (upsert s row).1.rows
      → block_number < row.block_number
      → row_at
          (delete_after_block (upsert s row).1 row.entity_type block_number).1
          row.entity_type
          row.id
        ≡ none
  rollback_loses s row block_number d h =
      get-delete_after_block (upsert s row).1 row.entity_type block_number row.entity_type row.id d
      ∙ rw (stored s row) (ground (arith, h, string_eq.same_iff row.entity_type row.entity_type))
