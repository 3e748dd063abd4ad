-- ===== src/Index/Stream/Position.antt =====
-- The order of events by block and log index, and what is left of a buffer in that order.
use chainkit.Prelude.{
  All, All-back, Bool, Bool-cases, List, [], arith, back, drop, false, filter, inl, inr, refl, some,
  suc, take, true, zero, ℕ, ◌∷◌, ◌≡◌,
}
use mathlib.Core.Path.{subst}
use chainkit.Index.Event.{DecodedEvent}
use chainkit.Index.Stream.{StreamCursor, is_before}

-- The cursor of the last event that was read.
abbrev pub at : {J : Type 0} → ℕ → DecodedEvent J → StreamCursor
at version e = record { block_number = e.block_number; log_index = e.log_index; version = version }

module _ {J : Type 0} where
  -- Every event is strictly before all the later ones.
  abbrev pub Ordered : List (DecodedEvent J) → Type 0
  Ordered [] = Unit
  Ordered (e ∷ es) = All (λ f. is_before (at 0 e) f ≡ true) es × Ordered es

  pub before_trans :
      (c d : StreamCursor) (e f : DecodedEvent J)
      → d.block_number ≡ e.block_number
      → d.log_index ≡ e.log_index
      → is_before c e ≡ true
      → is_before d f ≡ true
      → is_before c f ≡ true
  unfolding is_before
  before_trans c d e f h k a b = ground arith

  pub All-filter {κ} :
      (P : DecodedEvent J → Type κ) (p : DecodedEvent J → Bool) (es : List (DecodedEvent J))
      → All P es
      → All P (filter p es)
  All-filter P p [] h = tt
  All-filter P p (e ∷ es) h = elim (Bool-cases (p e)) [
    | inl x ↦ rw x (h.0, All-filter P p es h.1)
    | inr x ↦ rw x (All-filter P p es h.1)
  ]

  pub filter-Ordered :
      (p : DecodedEvent J → Bool) (es : List (DecodedEvent J)) → Ordered es → Ordered (filter p es)
  filter-Ordered p [] h = tt
  filter-Ordered p (e ∷ es) h = elim (Bool-cases (p e)) [
    | inl x ↦ rw x (All-filter _ p es h.0, filter-Ordered p es h.1)
    | inr x ↦ rw x (filter-Ordered p es h.1)
  ]

  -- A stronger test after a weaker one is the stronger one.
  pub filter-filter :
      (p q : DecodedEvent J → Bool) (es : List (DecodedEvent J))
      → ((e : DecodedEvent J) → q e ≡ true → p e ≡ true)
      → filter q (filter p es) ≡ filter q es
  filter-filter p q [] h = refl
  filter-filter p q (e ∷ es) h = ground (arith, h e, filter-filter p q es h)

  pub filter-All :
      (p : DecodedEvent J → Bool) (es : List (DecodedEvent J))
      → All (λ e. p e ≡ true) es
      → filter p es ≡ es
  filter-All p [] h = refl
  filter-All p (e ∷ es) h = ground (arith, h.0, filter-All p es h.1)

  pub All-take {κ} :
      (P : DecodedEvent J → Type κ) (k : ℕ) (es : List (DecodedEvent J))
      → All P es
      → All P (take k es)
  All-take P zero es h = tt
  All-take P (suc k) [] h = tt
  All-take P (suc k) (e ∷ es) h = (h.0, All-take P k es h.1)

  before_asym :
      (v : ℕ) (e f : DecodedEvent J) → is_before (at 0 e) f ≡ true → is_before (at v f) e ≡ false
  unfolding is_before
  before_asym v e f h = ground arith

  after_self : (v : ℕ) (e : DecodedEvent J) → is_before (at v e) e ≡ false
  unfolding is_before
  after_self v e = ground arith

  after_first :
      (v : ℕ) (e : DecodedEvent J) (es : List (DecodedEvent J))
      → Ordered (e ∷ es)
      → filter (is_before (at v e)) (e ∷ es) ≡ es
  unfolding is_before
  after_first v e es h = rw (after_self v e) (filter-All (is_before (at v e)) es h.0)

  -- In an ordered list, what is after the last of the first k events is the rest.
  pub filter-back :
      (v k : ℕ) (es : List (DecodedEvent J)) (last : DecodedEvent J)
      → Ordered es
      → back (take k es) ≡ some last
      → filter (is_before (at v last)) es ≡ drop k es
  filter-back v zero es last h b = absurd cc
  filter-back v (suc k) [] last h b = absurd cc
  filter-back v (suc zero) (e ∷ es) last h b =
      let same : e ≡ last = ground (arith, b) in
      subst (λ l. filter (is_before (at v l)) (e ∷ es) ≡ es) same (after_first v e es h)
  filter-back v (suc (suc k)) (e ∷ []) last h b =
      let same : e ≡ last = ground (arith, b) in
      subst (λ l. filter (is_before (at v l)) (e ∷ []) ≡ []) same (after_first v e [] h)
  filter-back v (suc (suc k)) (e ∷ f ∷ es) last h b =
      let later : is_before (at 0 e) last ≡ true =
        All-back (λ x. is_before (at 0 e) x ≡ true) (take (suc k) (f ∷ es)) last
          (All-take _ (suc k) (f ∷ es) h.0) b in
      rw (before_asym v e last later) (filter-back v (suc k) (f ∷ es) last h.1 b)
