-- ===== src/Index/Multichain/Coordinator.antt =====
-- chainindex-core/src/multichain.rs: the operations of the coordinator. Each holds the lock from start
-- to end, and returns its answer with the coordinator that it leaves.
pub mod Lifecycle
pub mod Started
pub mod Recorded
use chainkit.Prelude.{
  Bool, List, Option, Result, String, [], concat, err, false, filter, if◌then◌else◌, leb, length,
  ltb, map, none, not, ok, some, true, u64, ℕ, ◌+◌, ◌∷◌, nat_eq, string_eq, pair_eq,
}
use chainkit.Prelude.Int.{ℤ}
use chainkit.HashMap
use chainkit.HashMap.{HashMap}
use chainkit.Index.Error.{IndexerError, other}
use chainkit.Index.LiveLoop.{IndexerState, backfilling, live, stopping}
use chainkit.Index.Multichain.{
  ChainInstance, MultiChainConfig, MultiChainCoordinator, ChainHealth, instance_of, is_active,
  is_healthy, has_none, transition, from_instance, display_state,
}
use chainkit.Index.Config.{IndexerConfig}

register_all : HashMap String ChainInstance → List IndexerConfig → HashMap String ChainInstance
register_all m [] = m
register_all m (c ∷ cs) = register_all (HashMap.insert m c.id (instance_of c)) cs

-- `MultiChainCoordinator::new`, at the time `started`
unfoldable pub new : MultiChainConfig → ℕ → MultiChainCoordinator
unfolding register_all
new config started = record {
  config = config;
  instances = register_all [] config.chains;
  started = started;
}

abbrev pub Answer : Type 0
Answer = Result (Unit {0}) IndexerError × MultiChainCoordinator

unfoldable pub add_chain : MultiChainCoordinator → IndexerConfig → Answer
add_chain c config =
    if HashMap.contains_key c.instances config.id
    then (err (other (concat "chain '" (concat config.id "' already registered"))), c)
    else (ok tt, record c { instances = HashMap.insert c.instances config.id (instance_of config) })

abbrev not_found : String → IndexerError
not_found id = other (concat "chain '" (concat id "' not found"))

unfoldable pub remove_chain : MultiChainCoordinator → String → Answer
remove_chain c id = elim (HashMap.get c.instances id) [
  | none ↦ (err (not_found id), c)
  | some i ↦ (ok tt, record c { instances = HashMap.remove c.instances id })
]

-- `get_mut(chain_id).ok_or_else(..)?`, and what is done to the instance: an error leaves it as it is
unfoldable pub settle : MultiChainCoordinator → String → Result ChainInstance IndexerError → Answer
settle c id (err e) = (err e, c)
settle c id (ok i) = (ok tt, record c { instances = HashMap.insert c.instances id i })

unfoldable pub with_instance :
    MultiChainCoordinator → String → (ChainInstance → Result ChainInstance IndexerError) → Answer
unfolding settle
with_instance c id change =
    settle c id
      (elim (HashMap.get c.instances id) [ none ↦ err (not_found id) | some i ↦ change i ])

state_error : String → String → ChainInstance → IndexerError
state_error id text i =
    other (concat "chain '" (concat id (concat text (concat (display_state i.state) ")"))))

unfoldable pub pause_chain : MultiChainCoordinator → String → Answer
unfolding with_instance transition state_error
pause_chain c id = with_instance c id λ i.
    if is_active i
    then ok (transition i stopping none)
    else err (state_error id "' is not active (state: " i)

-- `started_at`, which is set once
unfoldable pub stamp : ℤ → ChainInstance → ChainInstance
stamp now i = if has_none i.started_at then record i { started_at = some now } else i

unfoldable pub resume_chain : MultiChainCoordinator → String → ℤ → Answer
unfolding with_instance transition state_error stamp
resume_chain c id now = with_instance c id λ i.
    if is_active i
    then err (state_error id "' is already active (state: " i)
    else ok (stamp now (transition i backfilling none))

-- Backfilling or live
abbrev pub starts : IndexerState → Bool
starts backfilling = true
starts live = true
starts _ = false

unfoldable pub update_state :
    MultiChainCoordinator → String → IndexerState → Option String → ℤ → Answer
unfolding with_instance transition stamp
update_state c id new_state message now =
    with_instance c id
      λ i. ok (transition (if starts new_state then stamp now i else i) new_state message)

-- The new block, and the events of it
unfoldable pub recorded : ℕ → ℕ → ChainInstance → ChainInstance
recorded block_number events i = record i {
  head_block = if ltb i.head_block block_number then block_number else i.head_block;
  events_processed = u64 (i.events_processed + events);
}

unfoldable pub record_block : MultiChainCoordinator → String → ℕ → ℕ → Answer
unfolding with_instance recorded
record_block c id block_number events = with_instance c id λ i. ok (recorded block_number events i)

-- `iter().all(..)`
abbrev pub all {ℓ} : {A : Type ℓ} → (A → Bool) → List A → Bool
all p [] = true
all p (x ∷ xs) = let rest = all p xs in if p x then rest else false

unfoldable pub health : MultiChainCoordinator → ℤ → List ChainHealth
health c now = map (λ b. from_instance b.1 now) c.instances

unfoldable pub chain_health : MultiChainCoordinator → String → ℤ → Option ChainHealth
chain_health c id now = elim (HashMap.get c.instances id) [
  | none ↦ none
  | some i ↦ some (from_instance i now)
]

unfoldable pub chain_state : MultiChainCoordinator → String → Option ChainInstance
chain_state c id = HashMap.get c.instances id

unfoldable pub chains : MultiChainCoordinator → List String
chains c = map (λ b. b.0) c.instances

unfoldable pub active_chains : MultiChainCoordinator → List String
active_chains c = map (λ b. b.0) (filter (λ b. is_active b.1) c.instances)

unfoldable pub is_all_healthy : MultiChainCoordinator → Bool
is_all_healthy c = all (λ b. is_healthy b.1) c.instances

unfoldable pub all_past_block : MultiChainCoordinator → ℕ → Bool
all_past_block c min_block = all (λ b. leb min_block b.1.head_block) c.instances

unfoldable pub chain_count : MultiChainCoordinator → ℕ
chain_count c = length c.instances
