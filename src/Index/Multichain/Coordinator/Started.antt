-- ===== src/Index/Multichain/Coordinator/Started.antt =====
-- What holds of every instance of the coordinator, whatever operations it went through.
use chainkit.Prelude.{
  All, Bool, Bool-cases, List, Option, Option-cases, Result, Result-cases, String, [], ap, arith,
  false, if◌then◌else◌, inl, inr, none, ok, refl, sym, true, ℕ, ◌∙◌, ◌∷◌, ◌≡◌, nat_eq, string_eq,
  pair_eq,
}
use chainkit.Prelude.Int.{ℤ}
use mathlib.Core.Path.{subst}
use chainkit.HashMap
use chainkit.HashMap.{HashMap, DistinctKeys}
use chainkit.HashMap.Laws.{All-insert, All-remove, get-All}
use chainkit.HashMap.Distinct.{DistinctKeys-insert, DistinctKeys-remove}
use chainkit.Index.Error.{IndexerError}
use chainkit.Index.LiveLoop.{IndexerState, stopping, backfilling}
use chainkit.Index.Multichain.{
  ChainInstance, MultiChainConfig, MultiChainCoordinator, has_none, is_error_state, instance_of,
  transition,
}
use chainkit.Index.Config.{IndexerConfig}
use chainkit.Index.Multichain.Coordinator.{
  new, register_all, add_chain, remove_chain, settle, with_instance, pause_chain, resume_chain,
  update_state, record_block, recorded, stamp, starts,
}
use chainkit.Index.Multichain.Coordinator.Lifecycle.{
  Operation, adds, removes, pauses, resumes, updates, records, apply,
}

-- What holds of an instance: it stands under the id of its configuration, and it was started, if it
-- backfills or follows the chain.
pub record IsSound (b : String × ChainInstance) : Type 0 where
  pub named : b.1.config.id ≡ b.0
  pub stamped : starts b.1.state ≡ true → has_none b.1.started_at ≡ false

abbrev pub AllSound : HashMap String ChainInstance → Type 0
AllSound m = DistinctKeys m × All IsSound m

insert-AllSound :
    (m : HashMap String ChainInstance) (id : String) (i : ChainInstance)
    → IsSound (id, i)
    → AllSound m
    → AllSound (HashMap.insert m id i)
insert-AllSound m id i p h = (DistinctKeys-insert m id i h.0, All-insert IsSound m id i p h.1)

instance_of-IsSound : (c : IndexerConfig) → IsSound (c.id, instance_of c)
unfolding instance_of
instance_of-IsSound c = record { named = refl; stamped = λ h. absurd cc }

register_all-AllSound :
    (m : HashMap String ChainInstance) (cs : List IndexerConfig)
    → AllSound m
    → AllSound (register_all m cs)
unfolding register_all
register_all-AllSound m [] h = h
register_all-AllSound m (c ∷ cs) h =
    register_all-AllSound (HashMap.insert m c.id (instance_of c)) cs
      (insert-AllSound m c.id (instance_of c) (instance_of-IsSound c) h)

-- A change of an instance that keeps it sound.
with_instance-AllSound :
    (c : MultiChainCoordinator) (id : String)
    (change : ChainInstance → Result ChainInstance IndexerError)
    → ((i j : ChainInstance) → change i ≡ ok j → IsSound (id, i) → IsSound (id, j))
    → AllSound c.instances
    → AllSound (with_instance c id change).1.instances
unfolding with_instance settle
with_instance-AllSound c id change keeps h = elim (Option-cases (HashMap.get c.instances id)) [
  | inl x ↦ rw x h
  | inr (i, x) ↦ elim (Result-cases (change i)) [
    | inl (j, y) ↦
        rw (x, y)
          (insert-AllSound c.instances id j (keeps i j y (get-All IsSound c.instances id i h.1 x))
            h)
    | inr (e, y) ↦ rw (x, y) h
  ]
]

-- a transition keeps the configuration and the time, and sets the state
transition_lem :
    (i : ChainInstance) (s : IndexerState) (m : Option String)
    → ((transition i s m).config ≡ i.config)
      × ((transition i s m).started_at ≡ i.started_at)
      × ((transition i s m).state ≡ s)
unfolding transition
transition_lem i s m = elim (Bool-cases (is_error_state s)) [
  | inl x ↦ ground (arith, x)
  | inr x ↦ elim (Bool-cases (has_none m)) [
    | inl y ↦ ground (arith, x, y)
    | inr y ↦ ground (arith, x, y)
  ]
]

stamp_lem :
    (now : ℤ) (i : ChainInstance)
    → ((stamp now i).config ≡ i.config) × (has_none (stamp now i).started_at ≡ false)
unfolding stamp
stamp_lem now i = elim (Bool-cases (has_none i.started_at)) [
  | inl x ↦ ground (arith, x)
  | inr x ↦ ground (arith, x)
]

transition-IsSound :
    (id : String) (i : ChainInstance) (s : IndexerState) (m : Option String)
    → i.config.id ≡ id
    → (starts s ≡ true → has_none i.started_at ≡ false)
    → IsSound (id, transition i s m)
transition-IsSound id i s m h f =
    let (config, at, state) = transition_lem i s m in
    record {
      named = ap (λ c. c.id) config ∙ h;
      stamped = λ q. ap has_none at ∙ f (ap starts (sym state) ∙ q);
    }

stamped_if :
    (now : ℤ) (i : ChainInstance) (b : Bool) (id : String)
    → i.config.id ≡ id
    → ((if b then stamp now i else i).config.id ≡ id)
      × (b ≡ true → has_none (if b then stamp now i else i).started_at ≡ false)
stamped_if now i true id h = ((ap (λ c. c.id) (stamp_lem now i).0 ∙ h), λ q. (stamp_lem now i).1)
stamped_if now i false id h = (h, λ q. absurd cc)

apply-AllSound :
    (op : Operation) (c : MultiChainCoordinator)
    → AllSound c.instances
    → AllSound (apply op c).1.instances
unfolding add_chain remove_chain pause_chain resume_chain update_state record_block recorded
apply-AllSound (adds config) c h = elim (Bool-cases (HashMap.contains_key c.instances config.id)) [
  | inl x ↦ rw (x, add_chain) h
  | inr x ↦
      rw (x, add_chain) (insert-AllSound c.instances config.id _ (instance_of-IsSound config) h)
]
apply-AllSound (removes id) c h = elim (Option-cases (HashMap.get c.instances id)) [
  | inl x ↦ rw (x, remove_chain) h
  | inr (i, x) ↦
      rw (x, remove_chain)
        (DistinctKeys-remove c.instances id h.0, All-remove IsSound c.instances id h.1)
]
apply-AllSound (pauses id) c h =
    with_instance-AllSound c id _
      (λ i j e s.
        let same : transition i stopping none ≡ j = ground (arith, e) in
        subst (λ k. IsSound (id, k)) same
          (transition-IsSound id i stopping none s.named (λ q. absurd cc)))
      h
apply-AllSound (resumes id now) c h =
    with_instance-AllSound c id _
      (λ i j e s.
        let next = transition i backfilling none in
        let same : stamp now next ≡ j = ground (arith, e) in
        let stamped = stamp_lem now next in
        subst (λ k. IsSound (id, k)) same
          (record {
            named = ap (λ c. c.id) (stamped.0 ∙ (transition_lem i backfilling none).0) ∙ s.named;
            stamped = λ q. stamped.1;
          }))
      h
apply-AllSound (updates id new_state message now) c h =
    with_instance-AllSound c id _
      (λ i j e s.
        let from = if starts new_state then stamp now i else i in
        let same : transition from new_state message ≡ j = ground (arith, e) in
        let (named, at) = stamped_if now i (starts new_state) id s.named in
        subst (λ k. IsSound (id, k)) same (transition-IsSound id from new_state message named at))
      h
apply-AllSound (records id block_number events) c h =
    with_instance-AllSound c id _
      (λ i j e s.
        let same : recorded block_number events i ≡ j = ground (arith, e) in
        subst (λ k. IsSound (id, k)) same (record { named = s.named; stamped = s.stamped }))
      h

abbrev pub run : List Operation → MultiChainCoordinator → MultiChainCoordinator
run [] c = c
run (op ∷ ops) c = run ops (apply op c).1

run_from-AllSound :
    (ops : List Operation) (c : MultiChainCoordinator)
    → AllSound c.instances
    → AllSound (run ops c).instances
run_from-AllSound [] c h = h
run_from-AllSound (op ∷ ops) c h = run_from-AllSound ops (apply op c).1 (apply-AllSound op c h)

-- From any configuration and through any operations, no chain is registered twice, each instance
-- stands under the id of its own configuration, and one that backfills or follows its chain has the
-- time when it was started.
pub run-AllSound :
    (config : MultiChainConfig) (started : ℕ) (ops : List Operation)
    → AllSound (run ops (new config started)).instances
unfolding new
run-AllSound config started ops =
    run_from-AllSound ops (new config started) (register_all-AllSound [] config.chains (tt, tt))
