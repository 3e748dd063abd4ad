-- ===== src/Index/Handlers.antt =====
-- chainindex-core/src/handler.rs, `HandlerRegistry`. What the handlers of a user do is a step on a state
-- of theirs, W, with an answer.
pub mod Registered
use chainkit.Prelude.{
  List, Result, String, [], err, map, none, ok, some, ◌++◌, ◌∷◌, nat_eq, string_eq, pair_eq,
}
use chainkit.HashMap
use chainkit.HashMap.{HashMap}
use chainkit.Index.Error.{IndexerError}
use chainkit.Index.Event.{DecodedEvent}
use chainkit.Index.Block.{Block}

pub data IndexPhase : Type 0 where
  backfill : IndexPhase
  live : IndexPhase

pub record IndexContext : Type 0 where
  pub block : Block
  pub phase : IndexPhase
  pub chain : String

abbrev pub Step : Type 0 → Type 0
Step W = W → Result (Unit {0}) IndexerError × W

pub record EventHandler (J W : Type 0) : Type 0 where
  pub handle : DecodedEvent J → IndexContext → Step W
  pub schema_name : String

pub record BlockHandler (W : Type 0) : Type 0 where
  pub handle_block : Block → IndexContext → Step W

pub record ReorgHandler (W : Type 0) : Type 0 where
  pub handle_reorg : List Block → IndexContext → Step W

pub record HandlerRegistry (J W : Type 0) : Type 0 where
  pub event_handlers : HashMap String (List (EventHandler J W))
  pub block_handlers : List (BlockHandler W)
  pub reorg_handlers : List (ReorgHandler W)

-- the loop of the three dispatches, which an error leaves
unfoldable pub each : {W : Type 0} → List (Step W) → Step W
each [] w = (ok tt, w)
each (step ∷ steps) w =
    let (answer, w') = step w in elim answer [ err e ↦ (err e, w') | ok u ↦ each steps w' ]

module _ {J W : Type 0} where
  unfoldable pub new : HandlerRegistry J W
  new = record { event_handlers = []; block_handlers = []; reorg_handlers = [] }

  -- the handlers of a schema, none where it has no entry
  unfoldable pub handlers_for : HandlerRegistry J W → String → List (EventHandler J W)
  handlers_for r schema = elim (HashMap.get r.event_handlers schema) [ none ↦ [] | some hs ↦ hs ]

  unfoldable pub on_event : HandlerRegistry J W → EventHandler J W → HandlerRegistry J W
  unfolding handlers_for
  on_event r h = record r {
    event_handlers =
        HashMap.insert r.event_handlers h.schema_name (handlers_for r h.schema_name ++ h ∷ []);
  }

  unfoldable pub on_block : HandlerRegistry J W → BlockHandler W → HandlerRegistry J W
  on_block r h = record r { block_handlers = r.block_handlers ++ h ∷ [] }

  unfoldable pub on_reorg : HandlerRegistry J W → ReorgHandler W → HandlerRegistry J W
  on_reorg r h = record r { reorg_handlers = r.reorg_handlers ++ h ∷ [] }

  unfoldable pub dispatch_event : HandlerRegistry J W → DecodedEvent J → IndexContext → Step W
  unfolding each
  dispatch_event r event ctx w = elim (HashMap.get r.event_handlers event.schema) [
    | none ↦ (ok tt, w)
    | some hs ↦ each (map (λ h. h.handle event ctx) hs) w
  ]

  unfoldable pub dispatch_block : HandlerRegistry J W → Block → IndexContext → Step W
  unfolding each
  dispatch_block r block ctx = each (map (λ h. h.handle_block block ctx) r.block_handlers)

  unfoldable pub dispatch_reorg : HandlerRegistry J W → List Block → IndexContext → Step W
  unfolding each
  dispatch_reorg r dropped ctx = each (map (λ h. h.handle_reorg dropped ctx) r.reorg_handlers)
