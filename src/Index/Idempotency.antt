-- ===== src/Index/Idempotency.antt =====
-- chainindex-core/src/idempotency.rs. The formatting of a number and the wrapped handler are arguments,
-- and the set of ids is a list without repetition.
pub mod Replays
use chainkit.Prelude.{
  Bool, List, Option, Result, String, [], concat, contains, false, if◌then◌else◌, length, none, not,
  some, true, ℕ, ◌-◌, ◌∷◌, string_eq,
}
use chainkit.Index.Error.{IndexerError}
use chainkit.Index.Event.{DecodedEvent}

unfoldable pub deterministic_id : {J : Type 0} → (ℕ → String) → DecodedEvent J → String
deterministic_id display e = concat e.tx_hash (concat "-" (display e.log_index))

unfoldable pub deterministic_id_with_suffix :
    {J : Type 0} → (ℕ → String) → DecodedEvent J → String → String
deterministic_id_with_suffix display e suffix =
    concat e.tx_hash (concat "-" (concat (display e.log_index) (concat "-" suffix)))

pub record ReplayContext : Type 0 where
  pub is_replay : Bool
  pub reorg_from_block : Option ℕ
  pub original_block_hash : Option String

abbrev pub normal : ReplayContext
normal = record { is_replay = false; reorg_from_block = none; original_block_hash = none }

abbrev pub replay : ℕ → Option String → ReplayContext
replay reorg_from_block original_block_hash = record {
  is_replay = true;
  reorg_from_block = some reorg_from_block;
  original_block_hash = original_block_hash;
}

pub record SideEffectGuard : Type 0 where
  pub should_execute : Bool

unfoldable pub guard_of : ReplayContext → SideEffectGuard
guard_of c = record { should_execute = not c.is_replay }

-- `execute`, with the result that the side effect would have
unfoldable pub execute : {T : Type 0} → SideEffectGuard → T → Option T
execute g effect = if g.should_execute then some effect else none

pub record IdempotentHandler : Type 0 where
  pub replay_ctx : ReplayContext
  pub processed_ids : List String

unfoldable pub new : ReplayContext → IdempotentHandler
new replay_ctx = record { replay_ctx = replay_ctx; processed_ids = [] }

unfoldable pub insert : List String → String → List String
insert ids id = if contains ids id then ids else id ∷ ids

unfoldable pub processed_count : IdempotentHandler → ℕ
processed_count h = length h.processed_ids

unfoldable pub has_processed : IdempotentHandler → String → Bool
has_processed h id = contains h.processed_ids id

unfoldable pub side_effect_guard : IdempotentHandler → SideEffectGuard
unfolding guard_of
side_effect_guard h = guard_of h.replay_ctx

module _ {J C : Type 0} (display : ℕ → String)
    (inner : DecodedEvent J → C → Result (Unit {0}) IndexerError) where
  unfoldable pub handle :
      IdempotentHandler → DecodedEvent J → C → Result (Unit {0}) IndexerError × IdempotentHandler
  unfolding deterministic_id insert
  handle h event ctx = (
    inner event ctx,
    record h { processed_ids = insert h.processed_ids (deterministic_id display event) },
  )
