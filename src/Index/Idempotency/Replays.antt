-- ===== src/Index/Idempotency/Replays.antt =====
-- What the handler tracks over a sequence of events, some of which are replayed.
use chainkit.Prelude.{
  Bool, Bool-cases, List, Result, String, [], ap, arith, contains, false, if◌then◌else◌, inl, inr,
  length, map, refl, sym, true, ℕ, ◌+◌, ◌==◌, ◌||◌, ◌∙◌, ◌∷◌, ◌≡◌, ◌≤◌, nat_eq, string_eq, pair_eq,
}
use chainkit.Index.Error.{IndexerError}
use chainkit.Index.Event.{DecodedEvent}
use chainkit.Index.Idempotency.{
  IdempotentHandler, new, insert, handle, has_processed, deterministic_id, ReplayContext,
  processed_count,
}

abbrev pub Distinct : List String → Type 0
Distinct [] = Unit
Distinct (id ∷ ids) = (contains ids id ≡ false) × Distinct ids

contains-insert :
    (ids : List String) (j id : String)
    → contains (insert ids j) id ≡ (if j == id then true else contains ids id)
unfolding insert
contains-insert ids j id = elim (Bool-cases (contains ids j)) [
  | inr x ↦ rw (x, insert) refl
  | inl x ↦
      rw (x, insert)
        (elim (Bool-cases (j == id)) [
          | inl y ↦
              let same : j ≡ id = (string_eq.same_iff j id).0 y in
              rw y (ap (contains ids) (sym same) ∙ x)
          | inr y ↦ rw y refl
        ])
]

insert-Distinct : (ids : List String) (j : String) → Distinct ids → Distinct (insert ids j)
unfolding insert
insert-Distinct ids j d = elim (Bool-cases (contains ids j)) [
  | inl x ↦ rw (x, insert) d
  | inr x ↦ rw (x, insert) (x, d)
]

length-insert : (ids : List String) (j : String) → length (insert ids j) ≤ length ids + 1
unfolding insert
length-insert ids j = ground arith

module _ {J C : Type 0} (display : ℕ → String)
    (inner : DecodedEvent J → C → Result (Unit {0}) IndexerError) where
  -- the events one after another, each with its context: the answers, and the handler after them
  abbrev pub handle_all :
      IdempotentHandler
      → List (DecodedEvent J × C)
      → List (Result (Unit {0}) IndexerError) × IdempotentHandler
  handle_all h [] = ([], h)
  handle_all h (e ∷ es) =
      let (answer, next) = handle display inner h e.0 e.1 in
      let (answers, last) = handle_all next es in (answer ∷ answers, last)

  -- whether an event of the sequence has an id
  abbrev pub occurs : String → List (DecodedEvent J × C) → Bool
  occurs id [] = false
  occurs id (e ∷ es) =
      let rest = occurs id es in if deterministic_id display e.0 == id then true else rest

  handle_all-answers :
      (h : IdempotentHandler) (es : List (DecodedEvent J × C))
      → (handle_all h es).0 ≡ map (λ e. inner e.0 e.1) es
  unfolding handle
  handle_all-answers h [] = refl
  handle_all-answers h (e ∷ es) =
      ap (λ l. inner e.0 e.1 ∷ l) (handle_all-answers (handle display inner h e.0 e.1).1 es)

  handle_all-tracks :
      (h : IdempotentHandler) (es : List (DecodedEvent J × C)) (id : String)
      → has_processed (handle_all h es).1 id ≡ (has_processed h id || occurs id es)
  unfolding has_processed handle
  handle_all-tracks h [] id = ground arith
  handle_all-tracks h (e ∷ es) id =
      handle_all-tracks (handle display inner h e.0 e.1).1 es id
      ∙ rw (contains-insert h.processed_ids (deterministic_id display e.0) id) (ground arith)

  handle_all-Distinct :
      (h : IdempotentHandler) (es : List (DecodedEvent J × C))
      → Distinct h.processed_ids
      → Distinct (handle_all h es).1.processed_ids
        × (length (handle_all h es).1.processed_ids ≤ length h.processed_ids + length es)
  unfolding handle
  handle_all-Distinct h [] d = (d, omega arith)
  handle_all-Distinct h (e ∷ es) d =
      let id = deterministic_id display e.0 in
      let (rest, bound) =
        handle_all-Distinct (handle display inner h e.0 e.1).1 es
          (insert-Distinct h.processed_ids id d) in
      (rest, omega (arith, bound, length-insert h.processed_ids id))

  -- The wrapped handler is asked once about every event, a replayed one too, and its answers are
  -- returned in order; afterwards an id counts as processed exactly where some event of the sequence
  -- has it, and no id is tracked twice, so that there are at most as many as events.
  handle_all_lem :
      (context : ReplayContext) (es : List (DecodedEvent J × C)) (id : String)
      → let h = handle_all (new context) es in
        (h.0 ≡ map (λ e. inner e.0 e.1) es)
        × (has_processed h.1 id ≡ occurs id es)
        × Distinct h.1.processed_ids
        × (processed_count h.1 ≤ length es)
  unfolding new processed_count has_processed
  handle_all_lem context es id =
      let (distinct, bound) = handle_all-Distinct (new context) es tt in
      (
        handle_all-answers (new context) es,
        handle_all-tracks (new context) es id ∙ ground arith,
        distinct,
        omega (arith, bound),
      )
