-- ===== src/Index/Backfill/Engine/Merge.antt =====
-- The merge of the segments: order, and that nothing is lost or made up.
use chainkit.Prelude.{
  ==_iff, All, Bool, Bool-cases, List, [], arith, count, count-append, false, if◌then◌else◌, inl,
  inr, length, refl, some, true, ℕ, ◌+◌, ◌==◌, ◌∙◌, ◌∷◌, ◌≡◌, nat_eq, string_eq, pair_eq,
}
use chainkit.Index.Event.{DecodedEvent}
use chainkit.Index.Backfill.{BackfillSegment, complete, has_status}
use chainkit.Index.Backfill.Engine.{key_le, insert_sorted, sort_by_key, completed, merge}

module _ {J : Type 0} where
  -- Every event is at or before all the later ones.
  abbrev pub Sorted : List (DecodedEvent J) → Type 0
  Sorted [] = Unit
  Sorted (e ∷ es) = All (λ f. key_le e f ≡ true) es × Sorted es

  key_le_trans :
      (a b c : DecodedEvent J) → key_le a b ≡ true → key_le b c ≡ true → key_le a c ≡ true
  key_le_trans a b c h k = ground (arith, h, k)

  key_le_total : (a b : DecodedEvent J) → key_le a b ≡ false → key_le b a ≡ true
  key_le_total a b h = ground (arith, h)

  All-le :
      (a b : DecodedEvent J) (es : List (DecodedEvent J))
      → key_le a b ≡ true
      → All (λ f. key_le b f ≡ true) es
      → All (λ f. key_le a f ≡ true) es
  All-le a b [] h k = tt
  All-le a b (e ∷ es) h k = (key_le_trans a b e h k.0, All-le a b es h k.1)

  All-insert_sorted :
      (P : DecodedEvent J → Type 0) (a : DecodedEvent J) (es : List (DecodedEvent J))
      → P a
      → All P es
      → All P (insert_sorted a es)
  unfolding insert_sorted
  All-insert_sorted P a [] h k = (h, tt)
  All-insert_sorted P a (b ∷ es) h k = elim (Bool-cases (key_le a b)) [
    | inl e ↦ rw e (h, k)
    | inr e ↦ rw e (k.0, All-insert_sorted P a es h k.1)
  ]

  insert_sorted-Sorted :
      (a : DecodedEvent J) (es : List (DecodedEvent J)) → Sorted es → Sorted (insert_sorted a es)
  unfolding insert_sorted
  insert_sorted-Sorted a [] h = (tt, tt)
  insert_sorted-Sorted a (b ∷ es) h = elim (Bool-cases (key_le a b)) [
    | inl e ↦ rw e ((e, All-le a b es e h.0), h)
    | inr e ↦ rw e (
      All-insert_sorted (λ f. key_le b f ≡ true) a es (key_le_total a b e) h.0,
      insert_sorted-Sorted a es h.1,
    )
  ]

  count-insert_sorted :
      (p : DecodedEvent J → Bool) (a : DecodedEvent J) (es : List (DecodedEvent J))
      → count p (insert_sorted a es) ≡ count p (a ∷ es)
  unfolding insert_sorted
  count-insert_sorted p a [] = refl
  count-insert_sorted p a (b ∷ es) = ground (arith, count-insert_sorted p a es)

  sort_by_key_lem :
      (p : DecodedEvent J → Bool) (es : List (DecodedEvent J))
      → Sorted (sort_by_key es) × (count p (sort_by_key es) ≡ count p es)
  unfolding sort_by_key
  sort_by_key_lem p [] = (tt, refl)
  sort_by_key_lem p (e ∷ es) =
      let (s, c) = sort_by_key_lem p es in
      (
        insert_sorted-Sorted e (sort_by_key es) s,
        count-insert_sorted p e (sort_by_key es) ∙ ground (arith, c),
      )

  -- How many events that pass a test the complete segments have.
  abbrev pub complete_count :
      (DecodedEvent J → Bool) → List BackfillSegment → List (List (DecodedEvent J)) → ℕ
  complete_count p [] ess = 0
  complete_count p (s ∷ ss) [] = 0
  complete_count p (s ∷ ss) (es ∷ ess) =
      (if has_status complete s then count p es else 0) + complete_count p ss ess

  count-completed :
      (p : DecodedEvent J → Bool) (ss : List BackfillSegment) (ess : List (List (DecodedEvent J)))
      → count p (completed ss ess) ≡ complete_count p ss ess
  unfolding completed
  count-completed p [] ess = refl
  count-completed p (s ∷ ss) [] = refl
  count-completed p (s ∷ ss) (es ∷ ess) =
      count-append p (if has_status complete s then es else []) (completed ss ess)
      ∙ ground (arith, count-completed p ss ess)

  -- The merge of as many lists of events as there are segments is ordered by block and log index, and
  -- holds, for any test, as many events that pass it as the complete segments have together: it loses
  -- none of theirs, doubles none, and takes none of another segment.
  pub merge_lem :
      (p : DecodedEvent J → Bool) (ss : List BackfillSegment) (ess : List (List (DecodedEvent J)))
      → length ss ≡ length ess
      → (merged : List (DecodedEvent J)) × (merge ss ess ≡ some merged)
        × Sorted merged
        × (count p merged ≡ complete_count p ss ess)
  unfolding merge
  merge_lem p ss ess h =
      let (s, c) = sort_by_key_lem p (completed ss ess) in
      let equal : (length ss == length ess) ≡ true = (==_iff _ _).1 h in
      (sort_by_key (completed ss ess), rw equal refl, s, c ∙ count-completed p ss ess)
