-- ===== src/Index/Handlers/Registered.antt =====
-- Which handlers a dispatch asks, by the order in which they were registered.
use chainkit.Prelude.{
  Bool-cases, List, Option-cases, String, [], ap, if◌then◌else◌, inl, inr, map, refl, sym, ◌++◌,
  ◌==◌, ◌∙◌, ◌∷◌, ◌≡◌, nat_eq, string_eq, pair_eq,
}
use chainkit.HashMap
use mathlib.Core.List.{append-nil, append_assoc}
use chainkit.HashMap.Laws.{get-insert}
use chainkit.Index.Event.{DecodedEvent}
use chainkit.Index.Block.{Block}
use chainkit.Index.Handlers.{
  EventHandler, BlockHandler, ReorgHandler, HandlerRegistry, new, handlers_for, on_event, on_block,
  on_reorg, each, dispatch_event, dispatch_block, dispatch_reorg, IndexContext,
}

pub data Registration (J W : Type 0) : Type 0 where
  event : EventHandler J W → Registration J W
  block : BlockHandler W → Registration J W
  reorg : ReorgHandler W → Registration J W

module _ {J W : Type 0} where
  abbrev pub register : HandlerRegistry J W → List (Registration J W) → HandlerRegistry J W
  register r [] = r
  register r (event h ∷ rs) = register (on_event r h) rs
  register r (block h ∷ rs) = register (on_block r h) rs
  register r (reorg h ∷ rs) = register (on_reorg r h) rs

  -- the handlers of a schema among the registrations, and the others
  abbrev pub events_for : String → List (Registration J W) → List (EventHandler J W)
  events_for k [] = []
  events_for k (event h ∷ rs) =
      let rest = events_for k rs in if h.schema_name == k then h ∷ rest else rest
  events_for k (block h ∷ rs) = events_for k rs
  events_for k (reorg h ∷ rs) = events_for k rs

  abbrev pub blocks_of : List (Registration J W) → List (BlockHandler W)
  blocks_of [] = []
  blocks_of (event h ∷ rs) = blocks_of rs
  blocks_of (block h ∷ rs) = h ∷ blocks_of rs
  blocks_of (reorg h ∷ rs) = blocks_of rs

  abbrev pub reorgs_of : List (Registration J W) → List (ReorgHandler W)
  reorgs_of [] = []
  reorgs_of (event h ∷ rs) = reorgs_of rs
  reorgs_of (block h ∷ rs) = reorgs_of rs
  reorgs_of (reorg h ∷ rs) = h ∷ reorgs_of rs

  handlers_for-on_event :
      (r : HandlerRegistry J W) (h : EventHandler J W) (k : String)
      → handlers_for (on_event r h) k
        ≡ (if h.schema_name == k then handlers_for r k ++ h ∷ [] else handlers_for r k)
  unfolding handlers_for on_event
  handlers_for-on_event r h k = elim (Bool-cases (h.schema_name == k)) [
    | inl x ↦
        let same : h.schema_name ≡ k = (string_eq.same_iff h.schema_name k).0 x in
        rw (x, handlers_for, on_event, get-insert, x) (rw same refl)
    | inr x ↦ rw (x, handlers_for, on_event, get-insert, x) refl
  ]

  handlers_for-on_block :
      (r : HandlerRegistry J W) (h : BlockHandler W) (k : String)
      → handlers_for (on_block r h) k ≡ handlers_for r k
  unfolding handlers_for on_block
  handlers_for-on_block r h k = refl

  handlers_for-on_reorg :
      (r : HandlerRegistry J W) (h : ReorgHandler W) (k : String)
      → handlers_for (on_reorg r h) k ≡ handlers_for r k
  unfolding handlers_for on_reorg
  handlers_for-on_reorg r h k = refl

  handlers_for-register :
      (r : HandlerRegistry J W) (rs : List (Registration J W)) (k : String)
      → handlers_for (register r rs) k ≡ handlers_for r k ++ events_for k rs
  handlers_for-register r [] k = sym (append-nil (handlers_for r k))
  handlers_for-register r (event h ∷ rs) k = elim (Bool-cases (h.schema_name == k)) [
    | inl x ↦
        rw (x, handlers_for-register (on_event r h) rs k, handlers_for-on_event r h k, x)
          (append_assoc (handlers_for r k) (h ∷ []) (events_for k rs))
    | inr x ↦ rw (x, handlers_for-register (on_event r h) rs k, handlers_for-on_event r h k, x) refl
  ]
  handlers_for-register r (block h ∷ rs) k =
      handlers_for-register (on_block r h) rs k
      ∙ ap (λ l. l ++ events_for k rs) (handlers_for-on_block r h k)
  handlers_for-register r (reorg h ∷ rs) k =
      handlers_for-register (on_reorg r h) rs k
      ∙ ap (λ l. l ++ events_for k rs) (handlers_for-on_reorg r h k)

  others-register :
      (r : HandlerRegistry J W) (rs : List (Registration J W))
      → ((register r rs).block_handlers ≡ r.block_handlers ++ blocks_of rs)
        × ((register r rs).reorg_handlers ≡ r.reorg_handlers ++ reorgs_of rs)
  unfolding on_event on_block on_reorg
  others-register r [] = (sym (append-nil r.block_handlers), sym (append-nil r.reorg_handlers))
  others-register r (event h ∷ rs) = others-register (on_event r h) rs
  others-register r (block h ∷ rs) =
      let (b, c) = others-register (on_block r h) rs in
      (b ∙ append_assoc r.block_handlers (h ∷ []) (blocks_of rs), c)
  others-register r (reorg h ∷ rs) =
      let (b, c) = others-register (on_reorg r h) rs in
      (b, c ∙ append_assoc r.reorg_handlers (h ∷ []) (reorgs_of rs))

  dispatch_event-eq-each :
      (r : HandlerRegistry J W) (e : DecodedEvent J) (ctx : IndexContext) (w : W)
      → dispatch_event r e ctx w ≡ each (map (λ h. h.handle e ctx) (handlers_for r e.schema)) w
  unfolding dispatch_event handlers_for each
  dispatch_event-eq-each r e ctx w = elim (Option-cases (HashMap.get r.event_handlers e.schema)) [
    | inl x ↦ rw (dispatch_event, handlers_for, x) refl
    | inr (hs, x) ↦ rw (dispatch_event, handlers_for, x) refl
  ]

  -- After any registrations, in any order, a dispatch runs through the handlers that were registered
  -- for it, in the order of their registrations: an event through those of its schema, a block through
  -- the block handlers, a reorg through the reorg handlers.
  pub register-dispatch :
      (rs : List (Registration J W)) (ctx : IndexContext) (w : W)
      → let r = register new rs in
        ((e : DecodedEvent J)
          → dispatch_event r e ctx w ≡ each (map (λ h. h.handle e ctx) (events_for e.schema rs)) w)
        × ((b : Block)
            → dispatch_block r b ctx w ≡ each (map (λ h. h.handle_block b ctx) (blocks_of rs)) w)
        × ((dropped : List Block)
            → dispatch_reorg r dropped ctx w
              ≡ each (map (λ h. h.handle_reorg dropped ctx) (reorgs_of rs)) w)
  unfolding new dispatch_block dispatch_reorg handlers_for HashMap.get
  register-dispatch rs ctx w =
      let (b, c) = others-register new rs in
      (
        λ e.
            dispatch_event-eq-each (register new rs) e ctx w
            ∙ ap (λ hs. each (map (λ h. h.handle e ctx) hs) w)
                (handlers_for-register new rs e.schema),
        λ x. ap (λ hs. each (map (λ h. h.handle_block x ctx) hs) w) b,
        λ x. ap (λ hs. each (map (λ h. h.handle_reorg x ctx) hs) w) c,
      )
