-- ===== src/Index/HotReload/Config.antt =====
-- chainindex-core/src/hotreload.rs, `diff_configs`. The JSON of a value is an argument.
use chainkit.Prelude.{
  Bool, List, Option, String, [], false, if◌then◌else◌, none, some, true, ℕ, ◌&&◌, ◌++◌, ◌==◌, ◌∷◌,
  nat_eq, string_eq, pair_eq,
}
use chainkit.Index.Config.{EventFilter, IndexerConfig}

pub record ConfigDiff (J : Type 0) : Type 0 where
  pub field : String
  pub old_value : J
  pub new_value : J

-- `serde_json::to_value` of the types of the fields
pub record ToValue (J : Type 0) : Type 0 where
  pub text : String → J
  pub number : ℕ → J
  pub option : Option ℕ → J
  pub texts : List String → J

unfoldable pub same_option : Option ℕ → Option ℕ → Bool
same_option none none = true
same_option none (some b) = false
same_option (some a) none = false
same_option (some a) (some b) = a == b

unfoldable pub same_texts : List String → List String → Bool
same_texts [] [] = true
same_texts [] (b ∷ bs) = false
same_texts (a ∷ as') [] = false
same_texts (a ∷ as') (b ∷ bs) = (a == b) && same_texts as' bs

-- one difference where a test of equality fails
unfoldable pub check : {J : Type 0} → Bool → String → J → J → List (ConfigDiff J)
check same field old_value new_value =
    if same
    then []
    else (record { field = field; old_value = old_value; new_value = new_value }) ∷ []

module _ {J : Type 0} (json : ToValue J) where
  unfoldable pub diff_filters : EventFilter → EventFilter → List (ConfigDiff J)
  unfolding check same_option same_texts
  diff_filters old new =
      check (same_texts old.addresses new.addresses) "filter.addresses" (json.texts old.addresses)
        (json.texts new.addresses)
      ++ check (same_texts old.topic0_values new.topic0_values) "filter.topic0_values"
          (json.texts old.topic0_values) (json.texts new.topic0_values)
      ++ check (same_option old.from_block new.from_block) "filter.from_block"
          (json.option old.from_block) (json.option new.from_block)
      ++ check (same_option old.to_block new.to_block) "filter.to_block" (json.option old.to_block)
          (json.option new.to_block)

  unfoldable pub diff_configs : IndexerConfig → IndexerConfig → List (ConfigDiff J)
  unfolding check same_option diff_filters
  diff_configs old new =
      (check (old.id == new.id) "id" (json.text old.id) (json.text new.id)
        ++ check (old.chain == new.chain) "chain" (json.text old.chain) (json.text new.chain)
        ++ check (old.from_block == new.from_block) "from_block" (json.number old.from_block)
            (json.number new.from_block)
        ++ check (same_option old.to_block new.to_block) "to_block" (json.option old.to_block)
            (json.option new.to_block)
        ++ check (old.confirmation_depth == new.confirmation_depth) "confirmation_depth"
            (json.number old.confirmation_depth) (json.number new.confirmation_depth)
        ++ check (old.batch_size == new.batch_size) "batch_size" (json.number old.batch_size)
            (json.number new.batch_size)
        ++ check (old.checkpoint_interval == new.checkpoint_interval) "checkpoint_interval"
            (json.number old.checkpoint_interval) (json.number new.checkpoint_interval)
        ++ check (old.poll_interval_ms == new.poll_interval_ms) "poll_interval_ms"
            (json.number old.poll_interval_ms) (json.number new.poll_interval_ms))
      ++ diff_filters old.filter new.filter
