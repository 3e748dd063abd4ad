-- ===== src/Index/Stream/Invalidation.antt =====
-- What a reorg and a registration do to the consumers of a stream, and what the buffer holds.
use chainkit.Prelude.{
  All, Bool, Bool-cases, List, String, [], arith, false, filter, if◌then◌else◌, inl, inr, ltb,
  ltb→lt, not, refl, some, true, u64, ℕ, ◌&&◌, ◌+◌, ◌<◌, ◌==◌, ◌∙◌, ◌∷◌, ◌≡◌, ◌≤◌, nat_eq,
  string_eq, pair_eq,
}
use chainkit.HashMap.Laws.{get-map_values, get-insert}
use chainkit.Index.Event.{DecodedEvent}
use chainkit.Index.Stream.{
  StreamCursor, EventStream, initial, is_before, wanted, rewind_cursor, register_consumer,
  get_consumer_cursor, invalidate_after,
}
use chainkit.Index.Stream.Position.{filter-All}
use chainkit.Index.Stream.Batches.{pending, filter_ext}

rewind-version : (b v : ℕ) (c : StreamCursor) → (rewind_cursor b v c).version ≡ v
unfolding rewind_cursor
rewind-version b v c = ground arith

module _ {J : Type 0} where
  All-kept :
      (b : ℕ) (es : List (DecodedEvent J))
      → All (λ e. e.block_number < b) (filter (λ e. ltb e.block_number b) es)
  All-kept b [] = tt
  All-kept b (e ∷ es) = elim (Bool-cases (ltb e.block_number b)) [
    | inl x ↦ rw x (ltb→lt _ _ x, All-kept b es)
    | inr x ↦ rw x (All-kept b es)
  ]

  rewind_below :
      (b v : ℕ) (c : StreamCursor) (e : DecodedEvent J)
      → 0 < b
      → b ≤ e.block_number
      → is_before (rewind_cursor b v c) e ≡ true
  unfolding is_before rewind_cursor
  rewind_below b v c e p l = ground arith

  -- The version takes no part in the order, but a cursor that is like the initial one takes every event
  -- only in the version 0.
  wanted_keeps :
      (b v : ℕ) (c : StreamCursor) (e : DecodedEvent J)
      → e.block_number < b
      → (e.block_number == 0 && e.log_index == 0) ≡ false
      → wanted c e ≡ true
      → wanted (rewind_cursor b v c) e ≡ true
  unfolding wanted is_before rewind_cursor
  wanted_keeps b v c e l z w = ground (arith, z, w)

  wanted_below :
      (b v : ℕ) (c : StreamCursor) (e : DecodedEvent J)
      → 0 < b
      → b ≤ e.block_number
      → wanted (rewind_cursor b v c) e ≡ true
  unfolding wanted
  wanted_below b v c e p l = ground (arith, rewind_below b v c e p l)

  -- What the cursor of a registration takes.
  registered_wants :
      (v : ℕ) (e : DecodedEvent J)
      → wanted (record initial { version = v }) e
        ≡ (if v == 0 then true else not (e.block_number == 0 && e.log_index == 0))
  unfolding wanted is_before
  registered_wants v e = ground arith

  All-of_every :
      (p : DecodedEvent J → Bool) (es : List (DecodedEvent J))
      → ((e : DecodedEvent J) → p e ≡ true)
      → All (λ e. p e ≡ true) es
  All-of_every p [] h = tt
  All-of_every p (e ∷ es) h = (h e, All-of_every p es h)

  -- A reorg at block b leaves the events below block b, in their order, and no others, moves every registered consumer to a
  -- cursor of the stream's own version. A kept event that the consumer was still to be given, other than
  -- one at block 0 and log index 0, is still to be given to it, and, if b is not 0, so is every event of
  -- block b or above that comes.
  pub invalidate_after_misses_none :
      (s : EventStream J) (b : ℕ) (id : String) (c : StreamCursor)
      → get_consumer_cursor s id ≡ some c
      → let s' = invalidate_after s b in
        (c' : StreamCursor) × (get_consumer_cursor s' id ≡ some c')
        × (c'.version ≡ s'.version)
        × (s'.buffer ≡ filter (λ e. ltb e.block_number b) s.buffer)
        × All (λ e. e.block_number < b) s'.buffer
        × ((e : DecodedEvent J)
            → e.block_number < b
            → (e.block_number == 0 && e.log_index == 0) ≡ false
            → wanted c e ≡ true
            → wanted c' e ≡ true)
        × (0 < b → (e : DecodedEvent J) → b ≤ e.block_number → wanted c' e ≡ true)
  unfolding invalidate_after get_consumer_cursor
  invalidate_after_misses_none s b id c h = (
    rewind_cursor b (u64 (s.version + 1)) c,
    get-map_values (rewind_cursor b (u64 (s.version + 1))) s.consumers id c h,
    rewind-version b (u64 (s.version + 1)) c,
    refl,
    All-kept b s.buffer,
    λ e. wanted_keeps b (u64 (s.version + 1)) c e,
    λ p e. wanted_below b (u64 (s.version + 1)) c e p,
  )

  -- A consumer that registers has every buffered event to read, but that in a stream which has seen
  -- a reorg it is never given an event at block 0 and log index 0.
  pub register_consumer-pending :
      (s : EventStream J) (id : String)
      → (c : StreamCursor) × (get_consumer_cursor (register_consumer s id) id ≡ some c)
        × (s.version ≡ 0 → pending s c ≡ s.buffer)
        × (0 < s.version
            → pending s c ≡ filter (λ e. not (e.block_number == 0 && e.log_index == 0)) s.buffer)
  unfolding register_consumer get_consumer_cursor
  register_consumer-pending s id = (
    record initial { version = s.version },
    get-insert s.consumers id id (record initial { version = s.version })
        ∙ ground (arith, string_eq.same_iff id id),
    λ z.
        filter-All (wanted (record initial { version = s.version })) s.buffer
          (All-of_every _ s.buffer (λ e. registered_wants s.version e ∙ ground (arith, z))),
    λ p. filter_ext _ _ s.buffer (λ e. registered_wants s.version e ∙ ground (arith, p)),
  )
