-- ===== src/HashMap/Distinct.antt =====
-- Maps in which no key is bound twice.
use chainkit.Prelude.{
  All, Bool, Bool-cases, PartialEq, [], arith, filter, inl, inr, length, refl, some, ◌+◌, ◌==◌, ◌∷◌,
  ◌≡◌,
}
use mathlib.Core.Path.{subst}
use chainkit.HashMap.{HashMap, get, insert, remove, DistinctKeys}

module _ {ℓ κ} {K : Type ℓ} {V : Type κ} where
  pub All-filter {μ} :
      (P : K × V → Type μ) (p : K × V → Bool) (m : HashMap K V) → All P m → All P (filter p m)
  All-filter P p [] h = tt
  All-filter P p (b ∷ m) h = elim (Bool-cases (p b)) [
    | inl x ↦ rw x (h.0, All-filter P p m h.1)
    | inr x ↦ rw x (All-filter P p m h.1)
  ]

  pub DistinctKeys-filter :
      (p : K × V → Bool) (m : HashMap K V) → DistinctKeys m → DistinctKeys (filter p m)
  DistinctKeys-filter p [] d = tt
  DistinctKeys-filter p ((j, v) ∷ m) d = elim (Bool-cases (p (j, v))) [
    | inl x ↦ rw x (All-filter _ p m d.0, DistinctKeys-filter p m d.1)
    | inr x ↦ rw x (DistinctKeys-filter p m d.1)
  ]

module _ {ℓ κ} {K : Type ℓ} {V : Type κ} ⦃e : PartialEq K⦄ where
  remove-All {μ} : (P : K × V → Type μ) (m : HashMap K V) (k : K) → All P m → All P (remove m k)
  unfolding remove
  remove-All P [] k h = tt
  remove-All P ((i, x) ∷ m) k h = elim (Bool-cases (i == k)) [
    | inl y ↦ rw y (remove-All P m k h.1)
    | inr y ↦ rw y (h.0, remove-All P m k h.1)
  ]

  insert-All {μ} :
      (P : K × V → Type μ) (m : HashMap K V) (k : K) (v : V)
      → P (k, v)
      → All P m
      → All P (insert m k v)
  unfolding insert
  insert-All P [] k v p h = (p, tt)
  insert-All P ((i, w) ∷ m) k v p h = elim (Bool-cases (i == k)) [
    | inl x ↦ rw x (p, h.1)
    | inr x ↦ rw x (h.0, insert-All P m k v p h.1)
  ]

  pub DistinctKeys-remove : (m : HashMap K V) (k : K) → DistinctKeys m → DistinctKeys (remove m k)
  unfolding remove
  DistinctKeys-remove [] k d = tt
  DistinctKeys-remove ((i, x) ∷ m) k d = elim (Bool-cases (i == k)) [
    | inl y ↦ rw y (DistinctKeys-remove m k d.1)
    | inr y ↦ rw y (remove-All _ m k d.0, DistinctKeys-remove m k d.1)
  ]

  pub DistinctKeys-insert :
      (m : HashMap K V) (k : K) (v : V) → DistinctKeys m → DistinctKeys (insert m k v)
  unfolding insert
  DistinctKeys-insert [] k v d = (tt, tt)
  DistinctKeys-insert ((i, w) ∷ m) k v d = elim (Bool-cases (i == k)) [
    | inl x ↦ rw x (subst (λ j. All (λ (b : K × V). b.0 ≡ j → ⊥) m) ((e.same_iff i k).0 x) d.0, d.1)
    | inr x ↦ rw x (
      insert-All _ m k v (λ q. ground (arith, e.same_iff i k, q, x)) d.0,
      DistinctKeys-insert m k v d.1,
    )
  ]

  remove_absent : (m : HashMap K V) (k : K) → All (λ (b : K × V). b.0 ≡ k → ⊥) m → remove m k ≡ m
  unfolding remove
  remove_absent [] k h = refl
  remove_absent ((i, w) ∷ m) k h = ground (arith, h.0, e.same_iff i k, remove_absent m k h.1)

  -- Where keys are distinct, the removal of a key that is bound takes one binding.
  pub length-remove :
      (m : HashMap K V) (k : K) (v : V)
      → DistinctKeys m
      → get m k ≡ some v
      → length (remove m k) + 1 ≡ length m
  unfolding get remove
  length-remove [] k v d h = cc
  length-remove ((i, w) ∷ m) k v d h = elim (Bool-cases (i == k)) [
    | inl x ↦
        let gone = subst (λ j. All (λ (b : K × V). b.0 ≡ j → ⊥) m) ((e.same_iff i k).0 x) d.0 in
        rw (x, remove_absent m k gone) (omega arith)
    | inr x ↦ rw x (omega (arith, length-remove m k v d.1 (ground (arith, h, x))))
  ]
