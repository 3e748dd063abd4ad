-- ===== src/Index/Tests/Registry.antt =====
-- Three handlers, of which the second one of a schema refuses the event.
use chainkit.Prelude.{List, String, [], err, map, ok, refl, ℕ, ◌∷◌, ◌≡◌, nat_eq, string_eq, pair_eq}
use chainkit.Prelude.Int.{pos}
use chainkit.Index.Error.{other}
use chainkit.Index.Event.{DecodedEvent}
use chainkit.Index.Block.{Block}
use chainkit.HashMap
use chainkit.Index.Handlers.{
  on_event, on_block, handlers_for, EventHandler, BlockHandler, IndexContext, live, each, new,
  dispatch_event, dispatch_block, dispatch_reorg,
}
use chainkit.Index.Handlers.Registered.{
  Registration, event, block, register, events_for, blocks_of, reorgs_of, register-dispatch,
}

-- A handler that writes its number down.
abbrev writes : String → ℕ → EventHandler ℕ (List ℕ)
writes schema n = record { handle = λ e ctx w. (ok tt, n ∷ w); schema_name = schema }

abbrev refuses : String → EventHandler ℕ (List ℕ)
refuses schema = record { handle = λ e ctx w. (err (other "no"), w); schema_name = schema }

abbrev counts : BlockHandler (List ℕ)
counts = record { handle_block = λ b ctx w. (ok tt, b.number ∷ w) }

abbrev registrations : List (Registration ℕ (List ℕ))
registrations =
    event (writes "Transfer" 1)
    ∷ event (writes "Swap" 2)
    ∷ block counts
    ∷ event (refuses "Transfer")
    ∷ event (writes "Transfer" 3)
    ∷ []

abbrev ten : Block
ten = record { number = 10; hash = "a"; parent_hash = "z"; timestamp = pos 0; tx_count = 0 }

abbrev context : IndexContext
context = record { block = ten; phase = live; chain = "ethereum" }

abbrev transfer : DecodedEvent ℕ
transfer = record {
  chain = "ethereum";
  schema = "Transfer";
  address = "0xdead";
  tx_hash = "0x1";
  block_number = 10;
  log_index = 0;
  fields_json = 7;
}

stops_at_refusal :
    dispatch_event (register new registrations) transfer context [] ≡ (err (other "no"), 1 ∷ [])
unfolding dispatch_event each new on_event on_block HashMap.get HashMap.insert handlers_for
stops_at_refusal = refl

register-dispatch_example :
    let r = register new registrations in
    ((e : DecodedEvent ℕ)
      → dispatch_event r e context []
        ≡ each (map (λ h. h.handle e context) (events_for e.schema registrations)) [])
    × ((b : Block)
        → dispatch_block r b context []
          ≡ each (map (λ h. h.handle_block b context) (blocks_of registrations)) [])
    × ((dropped : List Block)
        → dispatch_reorg r dropped context []
          ≡ each (map (λ h. h.handle_reorg dropped context) (reorgs_of registrations)) [])
register-dispatch_example = register-dispatch registrations context []
