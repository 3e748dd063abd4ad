-- ===== src/Index/HotReload/Diffs.antt =====
-- When there are no differences.
use chainkit.Prelude.{
  ==_iff, List, Option, String, [], ap, arith, eq_iff, none, refl, some, true, ℕ, ◌++◌, ◌↔◌, ◌∷◌,
  ◌≡◌,
}
use mathlib.Core.Path.{subst}
use chainkit.Index.HotReload.Config.{
  ConfigDiff, ToValue, same_option, same_texts, check, diff_filters, diff_configs,
}
use chainkit.Index.Config.{EventFilter, IndexerConfig}

same_option_iff : (a b : Option ℕ) → (same_option a b ≡ true) ↔ (a ≡ b)
unfolding same_option
same_option_iff none none = (λ h. refl, λ p. refl)
same_option_iff none (some b) = (λ h. cc, λ p. cc)
same_option_iff (some a) none = (λ h. cc, λ p. cc)
same_option_iff (some a) (some b) = (λ h. ap some ((==_iff a b).0 h), λ p. ground arith)

same_texts_iff : (as' bs : List String) → (same_texts as' bs ≡ true) ↔ (as' ≡ bs)
unfolding same_texts
same_texts_iff [] [] = (λ h. refl, λ p. refl)
same_texts_iff [] (b ∷ bs) = (λ h. cc, λ p. cc)
same_texts_iff (a ∷ as') [] = (λ h. cc, λ p. cc)
same_texts_iff (a ∷ as') (b ∷ bs) = (
  λ h. ground (arith, eq_iff a b, (same_texts_iff as' bs).0),
  λ p. ground (arith, eq_iff a b, (same_texts_iff as' bs).1),
)

module _ {J : Type 0} where
  append_none : (xs ys : List (ConfigDiff J)) → xs ++ ys ≡ [] → (xs ≡ []) × (ys ≡ [])
  append_none [] ys h = (refl, h)
  append_none (x ∷ xs) ys h = cc

module _ {J : Type 0} (json : ToValue J) where
  filters_equal : (old new : EventFilter) → diff_filters json old new ≡ [] → old ≡ new
  unfolding diff_filters
  filters_equal old new h = ground (
    arith,
    same_texts_iff old.addresses new.addresses,
    same_texts_iff old.topic0_values new.topic0_values,
    same_option_iff old.from_block new.from_block,
    same_option_iff old.to_block new.to_block,
  )

  same_filters : (f : EventFilter) → diff_filters json f f ≡ []
  unfolding diff_filters check
  same_filters f =
      rw
        (
          (same_texts_iff f.addresses f.addresses).1 refl,
          (same_texts_iff f.topic0_values f.topic0_values).1 refl,
          (same_option_iff f.from_block f.from_block).1 refl,
          (same_option_iff f.to_block f.to_block).1 refl,
        )
        refl

  same_configs : (c : IndexerConfig) → diff_configs json c c ≡ []
  unfolding diff_configs check
  same_configs c =
      rw
        (
          (eq_iff c.id c.id).1 refl,
          (eq_iff c.chain c.chain).1 refl,
          (==_iff c.from_block c.from_block).1 refl,
          (same_option_iff c.to_block c.to_block).1 refl,
          (==_iff c.confirmation_depth c.confirmation_depth).1 refl,
          (==_iff c.batch_size c.batch_size).1 refl,
          (==_iff c.checkpoint_interval c.checkpoint_interval).1 refl,
          (==_iff c.poll_interval_ms c.poll_interval_ms).1 refl,
        )
        (same_filters c.filter)

  -- Two configurations have no difference exactly where they are equal, in every field and in the filter.
  pub diff_configs_iff : (old new : IndexerConfig) → (diff_configs json old new ≡ []) ↔ (old ≡ new)
  unfolding diff_configs
  diff_configs_iff old new = (
    λ h.
        let (front, rear) = append_none _ (diff_filters json old.filter new.filter) h in
        let filter = filters_equal old.filter new.filter rear in
        ground (
          arith,
          eq_iff old.id new.id,
          eq_iff old.chain new.chain,
          same_option_iff old.to_block new.to_block,
        ),
    λ p. subst (λ c. diff_configs json old c ≡ []) p (same_configs old),
  )
