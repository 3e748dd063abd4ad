-- ===== src/Index/Tests/Slots.antt =====
-- A window of two slots.
use chainkit.Prelude.{String, [], arith, count, ltb, none, not, some, ℕ, ◌&&◌, ◌-◌, ◌∷◌, ◌≡◌}
use chainkit.Prelude.Int.{pos}
use chainkit.Index.Solana.{SolanaSlot, SlotTracker, is_slot_skipped, contains_key}
use chainkit.Index.Solana.Window.{is_slot_skipped-exact}

abbrev slot : ℕ → String → SolanaSlot
slot n hash = record {
  slot = n;
  parent_slot = n - 1;
  block_time = some (pos 5);
  block_hash = hash;
  tx_count = 1;
  leader = none;
  rewards = [];
}

abbrev tracker : SlotTracker
tracker = record { slots = slot 5 "a" ∷ slot 8 "b" ∷ []; window_size = 2 }

is_slot_skipped-exact_example : is_slot_skipped tracker 7 ≡ (
    not (contains_key tracker.slots 7)
    && ltb 0 (count (λ s. ltb s.slot 7) tracker.slots)
    && ltb 0 (count (λ s. ltb 7 s.slot) tracker.slots))
is_slot_skipped-exact_example = is_slot_skipped-exact tracker 7 (omega arith)
