-- ===== src/Index/DeadLetters/Entries.antt =====
-- How the edits of the queue's entries change their ids and the number that pass a test.
use chainkit.Prelude.{
  All, All-append, Bool, Bool-cases, List, String, [], ap, arith, count, false, filter, find?,
  if◌then◌else◌, inl, inr, map, none, not, refl, some, sym, ◌++◌, ◌+◌, ◌==◌, ◌∙◌, ◌∷◌, ◌≡◌, nat_eq,
  string_eq, pair_eq,
}
use mathlib.Core.Path.{subst}
use chainkit.Index.DeadLetters.{DlqEntry, replace_first}

abbrev pub Distinct : List String → Type 0
Distinct [] = Unit
Distinct (i ∷ is) = All (λ j. (j == i) ≡ false) is × Distinct is

pub Distinct-snoc :
    (is : List String) (i : String)
    → All (λ j. (j == i) ≡ false) is
    → Distinct is
    → Distinct (is ++ i ∷ [])
Distinct-snoc [] i a d = (tt, tt)
Distinct-snoc (j ∷ is) i a d = (
  All-append _ is (i ∷ []) d.0
      (ground (arith, a.0, string_eq.same_iff j i, string_eq.same_iff i j), tt),
  Distinct-snoc is i a.1 d.1,
)

module _ {J : Type 0} where
  abbrev pub ids : List (DlqEntry J) → List String
  ids es = map (λ e. e.id) es

  pub ids-append :
      (es : List (DlqEntry J)) (e : DlqEntry J) → ids (es ++ e ∷ []) ≡ ids es ++ e.id ∷ []
  ids-append [] e = refl
  ids-append (x ∷ es) e = ap (λ l. x.id ∷ l) (ids-append es e)

  pub ids-map :
      (f : DlqEntry J → DlqEntry J) (es : List (DlqEntry J))
      → ((e : DlqEntry J) → (f e).id ≡ e.id)
      → ids (map f es) ≡ ids es
  ids-map f [] h = refl
  ids-map f (e ∷ es) h = rw (h e, ids-map f es h) refl

  pub ids-replace_first :
      (id : String) (new_entry : DlqEntry J) (es : List (DlqEntry J))
      → new_entry.id ≡ id
      → ids (replace_first id new_entry es) ≡ ids es
  unfolding replace_first
  ids-replace_first id new_entry [] h = refl
  ids-replace_first id new_entry (e ∷ es) h = elim (Bool-cases (e.id == id)) [
    | inl x ↦ rw x (ap (λ i. i ∷ ids es) (h ∙ sym ((string_eq.same_iff e.id id).0 x)))
    | inr x ↦ rw x (ap (λ l. e.id ∷ l) (ids-replace_first id new_entry es h))
  ]

  pub absent :
      (id : String) (es : List (DlqEntry J))
      → find? (λ e. e.id == id) es ≡ none
      → All (λ j. (j == id) ≡ false) (ids es)
  absent id [] h = tt
  absent id (e ∷ es) h = elim (Bool-cases (e.id == id)) [
    | inl x ↦ absurd (ground (arith, h, x))
    | inr x ↦ (x, absent id es (ground (arith, h, x)))
  ]

  All-ids-filter :
      (P : String → Type 0) (p : DlqEntry J → Bool) (es : List (DlqEntry J))
      → All P (ids es)
      → All P (ids (filter p es))
  All-ids-filter P p [] h = tt
  All-ids-filter P p (e ∷ es) h = elim (Bool-cases (p e)) [
    | inl x ↦ rw x (h.0, All-ids-filter P p es h.1)
    | inr x ↦ rw x (All-ids-filter P p es h.1)
  ]

  pub Distinct-filter :
      (p : DlqEntry J → Bool) (es : List (DlqEntry J))
      → Distinct (ids es)
      → Distinct (ids (filter p es))
  Distinct-filter p [] d = tt
  Distinct-filter p (e ∷ es) d = elim (Bool-cases (p e)) [
    | inl x ↦ rw x (All-ids-filter _ p es d.0, Distinct-filter p es d.1)
    | inr x ↦ rw x (Distinct-filter p es d.1)
  ]

  pub count-map :
      (p : DlqEntry J → Bool) (f : DlqEntry J → DlqEntry J) (es : List (DlqEntry J))
      → ((e : DlqEntry J) → p (f e) ≡ p e)
      → count p (map f es) ≡ count p es
  count-map p f [] h = refl
  count-map p f (e ∷ es) h = rw (h e, count-map p f es h) refl

  pub count-replace_first :
      (p : DlqEntry J → Bool) (id : String) (old new_entry : DlqEntry J) (es : List (DlqEntry J))
      → find? (λ e. e.id == id) es ≡ some old
      → count p (replace_first id new_entry es) + (if p old then 1 else 0)
        ≡ count p es + (if p new_entry then 1 else 0)
  unfolding replace_first
  count-replace_first p id old new_entry [] h = absurd cc
  count-replace_first p id old new_entry (e ∷ es) h = elim (Bool-cases (e.id == id)) [
    | inl x ↦ let same : e ≡ old = ground (arith, h, x) in rw (x, ← same) (ground arith)
    | inr x ↦
        rw x (ground (arith, count-replace_first p id old new_entry es (ground (arith, h, x))))
  ]

  filter_absent :
      (id : String) (es : List (DlqEntry J))
      → All (λ j. (j == id) ≡ false) (ids es)
      → filter (λ e. not (e.id == id)) es ≡ es
  filter_absent id [] h = refl
  filter_absent id (e ∷ es) h = rw (h.0, filter_absent id es h.1) refl

  -- Where ids are distinct, one entry is taken out.
  pub count-filter_id :
      (p : DlqEntry J → Bool) (id : String) (old : DlqEntry J) (es : List (DlqEntry J))
      → Distinct (ids es)
      → find? (λ e. e.id == id) es ≡ some old
      → count p (filter (λ e. not (e.id == id)) es) + (if p old then 1 else 0) ≡ count p es
  count-filter_id p id old [] d h = absurd cc
  count-filter_id p id old (e ∷ es) d h = elim (Bool-cases (e.id == id)) [
    | inl x ↦
        let same : e ≡ old = ground (arith, h, x) in
        let here : e.id ≡ id = (string_eq.same_iff e.id id).0 x in
        rw
          (
            x,
            ← same,
            filter_absent id es (subst (λ i. All (λ j. (j == i) ≡ false) (ids es)) here d.0),
          )
          (ground arith)
    | inr x ↦ rw x (ground (arith, count-filter_id p id old es d.1 (ground (arith, h, x))))
  ]
