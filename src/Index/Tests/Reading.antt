-- ===== src/Index/Tests/Reading.antt =====
-- A stream with four events, read two at a time, before and after a reorg.
use chainkit.Prelude.{
  All, String, [], arith, false, filter, inl, ltb, refl, some, true, ℕ, ◌&&◌, ◌<◌, ◌==◌, ◌∷◌, ◌≡◌,
  ◌≤◌, nat_eq, string_eq, pair_eq,
}
use chainkit.HashMap
use chainkit.Index.Event.{DecodedEvent}
use chainkit.Index.Stream.{
  StreamCursor, EventStream, is_before, wanted, get_consumer_cursor, invalidate_after,
}
use chainkit.Index.Stream.Batches.{deliver, deliver_in_order}
use chainkit.Index.Stream.Invalidation.{invalidate_after_misses_none}

abbrev event : ℕ → ℕ → DecodedEvent ℕ
event block log = record {
  chain = "ethereum";
  schema = "Transfer";
  address = "0xdead";
  tx_hash = "0x1";
  block_number = block;
  log_index = log;
  fields_json = 7;
}

abbrev cursor : ℕ → ℕ → ℕ → StreamCursor
cursor block log version = record { block_number = block; log_index = log; version = version }

abbrev stream : EventStream ℕ
stream = record {
  buffer = event 10 0 ∷ event 10 1 ∷ event 11 0 ∷ event 12 4 ∷ [];
  buffer_size = 100;
  consumers = ("a", cursor 11 0 3) ∷ [];
  version = 3;
}

abbrev display : ℕ → String
display n = "n"

deliver_in_order_example :
    deliver 2 display stream (cursor 10 0 3) 2 ≡ event 10 1 ∷ event 11 0 ∷ event 12 4 ∷ []
unfolding wanted is_before
deliver_in_order_example =
    deliver_in_order 2 display stream (cursor 10 0 3) 2
      ((refl, (refl, (refl, tt))), ((refl, (refl, tt)), ((refl, tt), (tt, tt))))
      (refl, (refl, (refl, (refl, tt)))) (omega arith) (inl refl)

invalidate_after_misses_none_example :
    (c' : StreamCursor) × (get_consumer_cursor (invalidate_after stream 11) "a" ≡ some c')
    × (c'.version ≡ (invalidate_after stream 11).version)
    × ((invalidate_after stream 11).buffer
        ≡ filter (λ (e : DecodedEvent ℕ). ltb e.block_number 11) stream.buffer)
    × All (λ (e : DecodedEvent ℕ). e.block_number < 11) (invalidate_after stream 11).buffer
    × ((e : DecodedEvent ℕ)
        → e.block_number < 11
        → (e.block_number == 0 && e.log_index == 0) ≡ false
        → wanted (cursor 11 0 3) e ≡ true
        → wanted c' e ≡ true)
    × (0 < 11 → (e : DecodedEvent ℕ) → 11 ≤ e.block_number → wanted c' e ≡ true)
unfolding get_consumer_cursor HashMap.get
invalidate_after_misses_none_example =
    invalidate_after_misses_none stream 11 "a" (cursor 11 0 3) refl
