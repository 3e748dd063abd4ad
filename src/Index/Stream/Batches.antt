-- ===== src/Index/Stream/Batches.antt =====
-- What a consumer reads from a stream in one batch, and in many.
use chainkit.Prelude.{
  All, All-back, Bool, Bool-cases, List, Option-cases, String, [], ap, arith, back, count, drop,
  err, false, filter, inl, inr, leb, length, length-append, length-filter, ltb, none, not, ok, refl,
  suc, sym, take, true, zero, ℕ, ◌&&◌, ◌*◌, ◌++◌, ◌+◌, ◌-◌, ◌<◌, ◌==◌, ◌∙◌, ◌∷◌, ◌≡◌, ◌⊎◌, nat_eq,
  string_eq, pair_eq,
}
use mathlib.Core.Path.{subst}
use Prim.Native.Nat.{min}
use mathlib.Core.List.{append-nil, append_assoc}
use chainkit.Index.Error.{other}
use chainkit.Index.Event.{DecodedEvent}
use chainkit.Index.Stream.{
  StreamCursor, same_cursor, initial, EventBatch, EventStream, is_before, wanted, gather,
  cursor_after, next_batch,
}
use chainkit.Index.Stream.Position.{
  at, Ordered, before_trans, All-filter, All-take, filter-Ordered, filter-filter, filter-back,
}

module _ {J : Type 0} where
  abbrev empty : List (DecodedEvent J)
  empty = []

  take-nil : (n : ℕ) → take n empty ≡ empty
  take-nil zero = refl
  take-nil (suc n) = refl

  -- A cursor that the stream accepts.
  abbrev pub Current : EventStream J → StreamCursor → Type 0
  Current s c = (c.version ≡ s.version) ⊎ (same_cursor c initial ≡ true)

  -- The buffered events that a cursor has still to read.
  abbrev pub pending : EventStream J → StreamCursor → List (DecodedEvent J)
  pending s c = filter (wanted c) s.buffer

  gather-eq-take :
      (limit : ℕ) (c : StreamCursor) (events buffer : List (DecodedEvent J))
      → gather limit c events buffer
        ≡ events ++ take (limit - length events) (filter (wanted c) buffer)
  unfolding gather
  gather-eq-take limit c events [] =
      sym (append-nil events) ∙ ap (λ l. events ++ l) (sym (take-nil (limit - length events)))
  gather-eq-take limit c events (e ∷ buffer) = elim (Bool-cases (leb limit (length events))) [
    | inl full ↦
        let none_left : limit - length events ≡ 0 = ground arith in
        rw (full, none_left)
          (subst (λ n. gather limit c events buffer ≡ events ++ take n (filter (wanted c) buffer))
            none_left (gather-eq-take limit c events buffer))
    | inr room ↦ elim (Bool-cases (wanted c e)) [
      | inr w ↦ rw (room, w) (gather-eq-take limit c events buffer)
      | inl w ↦
          let counted : limit - length events ≡ suc (limit - length (events ++ e ∷ [])) =
            ground (arith, length-append events (e ∷ [])) in
          rw (room, w, counted)
            (gather-eq-take limit c (events ++ e ∷ []) buffer ∙ append_assoc events (e ∷ []) _)
    ]
  ]

  length-take : (n : ℕ) (es : List (DecodedEvent J)) → length (take n es) ≡ min n (length es)
  length-take zero es = omega arith
  length-take (suc n) [] = omega arith
  length-take (suc n) (e ∷ es) = omega (arith, length-take n es)

  abbrev refuses : EventStream J → StreamCursor → Bool
  refuses s c = not (c.version == s.version) && not (same_cursor c initial)

  accepted : (s : EventStream J) (c : StreamCursor) → Current s c → refuses s c ≡ false
  accepted s c now = ground (arith, now)

  refused : (s : EventStream J) (c : StreamCursor) → (Current s c → ⊥) → refuses s c ≡ true
  refused s c stale = ground (arith, stale)

  abbrev batch_of : EventStream J → StreamCursor → ℕ → Bool → EventBatch J
  batch_of s c n more = record {
    events = take n (pending s c);
    cursor = cursor_after s.version c (take n (pending s c));
    has_more = more;
  }

  batch_lem :
      (s : EventStream J) (c : StreamCursor) (limit : ℕ)
      → batch_of s c
          (limit - 0)
          (ltb (length (take (limit - 0) (pending s c))) (count (wanted c) s.buffer))
        ≡ batch_of s c limit (ltb limit (length (pending s c)))
  batch_lem s c limit =
      let left : limit - 0 ≡ limit = omega arith in
      rw left (
        ap (batch_of s c limit)
          (ground (arith, length-take limit (pending s c), length-filter (wanted c) s.buffer)))

  -- A batch of a cursor that the stream accepts, the initial one or one of its version, holds the
  -- first events that the cursor has still to read, up to the limit, and says whether there are
  -- more; any other cursor is refused with an error.
  pub next_batch_takes :
      (display : ℕ → String) (s : EventStream J) (c : StreamCursor) (limit : ℕ)
      → (Current s c
          → next_batch display s c limit
            ≡ ok (record {
              events = take limit (pending s c);
              cursor = cursor_after s.version c (take limit (pending s c));
              has_more = ltb limit (length (pending s c));
            }))
        × ((Current s c → ⊥) → (text : String) × (next_batch display s c limit ≡ err (other text)))
  unfolding next_batch
  next_batch_takes display s c limit = (
    λ now. rw (accepted s c now, gather-eq-take limit c [] s.buffer) (ap ok (batch_lem s c limit)),
    λ stale. rw (refused s c stale) (_, refl),
  )

  All-filter_self :
      (p : DecodedEvent J → Bool) (es : List (DecodedEvent J)) → All (λ e. p e ≡ true) (filter p es)
  All-filter_self p [] = tt
  All-filter_self p (e ∷ es) = elim (Bool-cases (p e)) [
    | inl x ↦ rw x (x, All-filter_self p es)
    | inr x ↦ rw x (All-filter_self p es)
  ]

  pub filter_ext :
      (p q : DecodedEvent J → Bool) (es : List (DecodedEvent J))
      → ((e : DecodedEvent J) → p e ≡ q e)
      → filter p es ≡ filter q es
  filter_ext p q [] h = refl
  filter_ext p q (e ∷ es) h = rw (h e, filter_ext p q es h) refl

  -- No event has the position and the version of the initial cursor.
  abbrev pub NoOrigin : EventStream J → Type 0
  NoOrigin s = All (λ e. same_cursor (at s.version e) initial ≡ false) s.buffer

  no_batch :
      (limit : ℕ) (es : List (DecodedEvent J)) → 0 < limit → back (take limit es) ≡ none → es ≡ []
  no_batch zero es h b = absurd (omega arith)
  no_batch (suc n) [] h b = refl
  no_batch (suc zero) (e ∷ es) h b = absurd (ground (arith, b))
  no_batch (suc (suc n)) (e ∷ []) h b = absurd (ground (arith, b))
  no_batch (suc (suc n)) (e ∷ f ∷ es) h b =
      absurd (ground (arith, no_batch (suc n) (f ∷ es) (omega arith) b))

  follows :
      (s : EventStream J) (c : StreamCursor) (last e : DecodedEvent J)
      → wanted c last ≡ true
      → is_before (at s.version last) e ≡ true
      → wanted c e ≡ true
  unfolding wanted
  follows s c last e w b = ground (arith, w, b, before_trans c (at s.version last) last e refl refl)

  only_after :
      (c : StreamCursor) (e : DecodedEvent J)
      → same_cursor c initial ≡ false
      → wanted c e ≡ is_before c e
  unfolding wanted
  only_after c e h = rw h refl

  stays :
      (s : EventStream J) (c : StreamCursor) (e : DecodedEvent J)
      → Current s c
      → wanted (record c { version = s.version }) e ≡ true
      → wanted c e ≡ true
  unfolding wanted is_before
  stays s c e now w = ground (arith, now, w)

  drop-nil : (n : ℕ) (es : List (DecodedEvent J)) → es ≡ [] → drop n es ≡ []
  drop-nil zero es h = h
  drop-nil (suc n) [] h = refl
  drop-nil (suc n) (e ∷ es) h = absurd (ground (arith, h))

  -- The cursor of a batch has still to read exactly what the batch left.
  advance :
      (s : EventStream J) (c : StreamCursor) (limit : ℕ)
      → Ordered s.buffer
      → NoOrigin s
      → 0 < limit
      → Current s c
      → pending s (cursor_after s.version c (take limit (pending s c))) ≡ drop limit (pending s c)
  unfolding cursor_after
  advance s c limit o n h now = elim (Option-cases (back (take limit (pending s c)))) [
    | inl e ↦
        let done = no_batch limit (pending s c) h e in
        rw (e, cursor_after)
          (sym (
              filter-filter (wanted c) (wanted (record c { version = s.version })) s.buffer
                (λ f. stays s c f now))
            ∙ ap (filter (wanted (record c { version = s.version }))) done
            ∙ sym (drop-nil limit (pending s c) done))
    | inr (last, e) ↦
        let c' = at s.version last in
        let fresh : same_cursor c' initial ≡ false =
          All-back _ (take limit (pending s c)) last
            (All-take _ limit (pending s c) (All-filter _ (wanted c) s.buffer n)) e in
        let read : wanted c last ≡ true =
          All-back _ (take limit (pending s c)) last
            (All-take _ limit (pending s c) (All-filter_self (wanted c) s.buffer)) e in
        rw (e, cursor_after)
          (filter_ext (wanted c') (is_before c') s.buffer (λ f. only_after c' f fresh)
            ∙ sym (filter-filter (wanted c) (is_before c') s.buffer (λ f. follows s c last f read))
            ∙ filter-back s.version limit (pending s c) last (filter-Ordered (wanted c) s.buffer o)
                e)
  ]

  -- The events that n calls in turn give a consumer, which passes each call the cursor of the one
  -- before, and stops at an error.
  pub deliver : ℕ → (ℕ → String) → EventStream J → StreamCursor → ℕ → List (DecodedEvent J)
  deliver zero display s c limit = []
  deliver (suc n) display s c limit = elim (next_batch display s c limit) [
    | ok batch ↦ batch.events ++ deliver n display s batch.cursor limit
    | err e ↦ []
  ]

  take-add :
      (m n : ℕ) (es : List (DecodedEvent J)) → take m es ++ take n (drop m es) ≡ take (m + n) es
  take-add zero n es = ap (λ k. take k es) (omega arith)
  take-add (suc m) n [] =
      let counted : suc (m + n) ≡ suc m + n = omega arith in
      take-nil n ∙ ap (λ k. take k (empty)) counted
  take-add (suc m) n (e ∷ es) =
      let counted : suc (m + n) ≡ suc m + n = omega arith in
      ap (λ l. e ∷ l) (take-add m n es) ∙ ap (λ k. take k (e ∷ es)) counted

  now_after :
      (s : EventStream J) (c : StreamCursor) (es : List (DecodedEvent J))
      → Current s (cursor_after s.version c es)
  unfolding cursor_after
  now_after s c es = elim (Option-cases (back es)) [
    | inl e ↦ inl (rw (e, cursor_after) refl)
    | inr (last, e) ↦ inl (rw (e, cursor_after) refl)
  ]

  -- If the buffer is strictly ordered and no event of it has block 0 and log index 0 in a stream
  -- of version 0, then n batches of a positive limit, from a cursor that the stream accepts,
  -- deliver the first n * limit events that the cursor has still to read, in order, each once and
  -- none left out.
  pub deliver_in_order :
      (n : ℕ) (display : ℕ → String) (s : EventStream J) (c : StreamCursor) (limit : ℕ)
      → Ordered s.buffer
      → NoOrigin s
      → 0 < limit
      → Current s c
      → deliver n display s c limit ≡ take (n * limit) (pending s c)
  unfolding deliver
  deliver_in_order zero display s c limit o r h now =
      let counted : 0 ≡ 0 * limit = omega arith in ap (λ k. take k (pending s c)) counted
  deliver_in_order (suc n) display s c limit o r h now =
      let c' = cursor_after s.version c (take limit (pending s c)) in
      let whole : limit + n * limit ≡ suc n * limit = omega arith in
      rw ((next_batch_takes display s c limit).0 now, deliver)
        (ap (λ l. take limit (pending s c) ++ l)
            (deliver_in_order n display s c' limit o r h (now_after s c (take limit (pending s c)))
              ∙ ap (take (n * limit)) (advance s c limit o r h now))
          ∙ take-add limit (n * limit) (pending s c)
          ∙ ap (λ k. take k (pending s c)) whole)
