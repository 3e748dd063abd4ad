-- ===== src/Index/Multichain/Coordinator/Lifecycle.antt =====
-- Sequences of operations on the coordinator: which are refused, what they leave alone, and what holds
-- of every instance.
use chainkit.Prelude.{
  Bool, Option, Option-cases, Result, String, arith, err, false, inl, inr, none, not, ok, refl,
  some, true, ℕ, ◌≡◌, ◌≢◌, ◌⊎◌, nat_eq, string_eq, pair_eq,
}
use chainkit.Prelude.Int.{ℤ}
use text.Mathlib.TextEquality.{eq_iff}
use chainkit.HashMap
use chainkit.HashMap.{HashMap, DistinctKeys}
use chainkit.HashMap.Laws.{get-insert, get-remove, contains_key-eq-get}
use chainkit.Index.Error.{IndexerError}
use chainkit.Index.LiveLoop.{IndexerState}
use chainkit.Index.Multichain.{ChainInstance, MultiChainCoordinator, is_active, instance_of}
use chainkit.Index.Config.{IndexerConfig}
use chainkit.Index.Multichain.Coordinator.{
  Answer, add_chain, remove_chain, settle, with_instance, pause_chain, resume_chain, update_state,
  record_block, chain_state,
}

pub data Operation : Type 0 where
  adds : IndexerConfig → Operation
  removes pauses : String → Operation
  resumes : String → ℤ → Operation
  updates : String → IndexerState → Option String → ℤ → Operation
  records : String → ℕ → ℕ → Operation

abbrev pub apply : Operation → MultiChainCoordinator → Answer
apply (adds config) c = add_chain c config
apply (removes id) c = remove_chain c id
apply (pauses id) c = pause_chain c id
apply (resumes id now) c = resume_chain c id now
apply (updates id new_state message now) c = update_state c id new_state message now
apply (records id block_number events) c = record_block c id block_number events

abbrev pub target : Operation → String
target (adds config) = config.id
target (removes id) = id
target (pauses id) = id
target (resumes id now) = id
target (updates id new_state message now) = id
target (records id block_number events) = id

-- Which operations a chain allows, `none` for one that is not registered.
abbrev pub allowed : Operation → Option ChainInstance → Bool
allowed (adds config) none = true
allowed (adds config) (some i) = false
allowed (pauses id) (some i) = is_active i
allowed (resumes id now) (some i) = not (is_active i)
allowed _ none = false
allowed _ (some i) = true

-- An answer to an operation on `id`: a change of this chain alone, or an error that changes nothing.
abbrev pub Settles : String → Bool → MultiChainCoordinator → Answer → Type 0
Settles id may c a =
    ((a.0 ≡ ok tt)
      × (may ≡ true)
      × ((other : String) → id ≢ other → chain_state a.1 other ≡ chain_state c other))
    ⊎ ((e : IndexerError) × (a ≡ (err e, c)) × (may ≡ false))

settle-Settles :
    (c : MultiChainCoordinator) (id : String) (r : Result ChainInstance IndexerError) (may : Bool)
    → may ≡ elim r [ ok i ↦ true | err e ↦ false ]
    → Settles id may c (settle c id r)
unfolding settle chain_state
settle-Settles c id (err e) may h = inr (e, refl, h)
settle-Settles c id (ok i) may h = inl (
  refl,
  h,
  λ other apart. ground (arith, apart, eq_iff id other, get-insert c.instances id other i),
)

-- Every operation answers a success exactly where its chain allows it, and then changes no other
-- chain; otherwise it answers an error and changes nothing.
pub apply-Settles :
    (op : Operation) (c : MultiChainCoordinator)
    → Settles (target op) (allowed op (chain_state c (target op))) c (apply op c)
unfolding chain_state add_chain remove_chain with_instance pause_chain resume_chain update_state
    record_block
apply-Settles (adds config) c = elim (Option-cases (HashMap.get c.instances config.id)) [
  | inl x ↦
      let absent : HashMap.contains_key c.instances config.id ≡ false =
        ground (arith, x, contains_key-eq-get c.instances config.id) in
      rw (x, absent, add_chain)
        (inl (
          refl,
          refl,
          λ other apart. ground (
            arith,
            apart,
            eq_iff config.id other,
            get-insert c.instances config.id other (instance_of config),
          ),
        ))
  | inr (i, x) ↦
      let present : HashMap.contains_key c.instances config.id ≡ true =
        ground (arith, x, contains_key-eq-get c.instances config.id) in
      rw (x, present, add_chain) (inr (_, refl, refl))
]
apply-Settles (removes id) c = elim (Option-cases (HashMap.get c.instances id)) [
  | inl x ↦ rw (x, remove_chain) (inr (_, refl, refl))
  | inr (i, x) ↦
      rw (x, remove_chain)
        (inl (
          refl,
          refl,
          λ other apart. ground (arith, apart, eq_iff id other, get-remove c.instances id other),
        ))
]
apply-Settles (pauses id) c =
    settle-Settles c id _ _ (elim (Option-cases (HashMap.get c.instances id)) [
      | inl x ↦ ground (arith, x)
      | inr (i, x) ↦ ground (arith, x)
    ])
apply-Settles (resumes id now) c =
    settle-Settles c id _ _ (elim (Option-cases (HashMap.get c.instances id)) [
      | inl x ↦ ground (arith, x)
      | inr (i, x) ↦ ground (arith, x)
    ])
apply-Settles (updates id new_state message now) c =
    settle-Settles c id _ _ (elim (Option-cases (HashMap.get c.instances id)) [
      | inl x ↦ ground (arith, x)
      | inr (i, x) ↦ ground (arith, x)
    ])
apply-Settles (records id block_number events) c =
    settle-Settles c id _ _ (elim (Option-cases (HashMap.get c.instances id)) [
      | inl x ↦ ground (arith, x)
      | inr (i, x) ↦ ground (arith, x)
    ])
