-- ===== src/HashMap/Laws.antt =====
-- What the map operations do to a lookup and to the number of bindings.
use chainkit.Prelude.{
  All, Bool, Bool-cases, PartialEq, [], arith, false, filter, if◌then◌else◌, inl, inr, length, map,
  none, refl, some, true, ◌+◌, ◌==◌, ◌∷◌, ◌≡◌, ◌≤◌,
}
use mathlib.Core.Path.{subst}
use chainkit.HashMap.{HashMap, get, contains_key, insert, remove}

module _ {ℓ κ} {K : Type ℓ} {V : Type κ} ⦃e : PartialEq K⦄ where
  pub get-insert :
      (m : HashMap K V) (k j : K) (v : V)
      → get (insert m k v) j ≡ (if k == j then some v else get m j)
  unfolding get insert
  get-insert [] k j v = refl
  get-insert ((i, w) ∷ m) k j v =
      ground (arith, e.same_iff k j, e.same_iff i k, e.same_iff i j, get-insert m k j v)

  pub get-remove :
      (m : HashMap K V) (k j : K) → get (remove m k) j ≡ (if k == j then none else get m j)
  unfolding get remove
  get-remove [] k j = ground arith
  get-remove ((i, w) ∷ m) k j =
      ground (arith, e.same_iff k j, e.same_iff i k, e.same_iff i j, get-remove m k j)

  pub contains_key-eq-get :
      (m : HashMap K V) (k : K) → contains_key m k ≡ elim (get m k) [ none ↦ false | some v ↦ true ]
  unfolding get contains_key
  contains_key-eq-get [] k = refl
  contains_key-eq-get ((i, w) ∷ m) k = ground (arith, contains_key-eq-get m k)

  -- `retain` by the key.
  pub get-filter_key :
      (p : K → Bool) (m : HashMap K V) (j : K)
      → get (filter (λ b. p b.0) m) j ≡ (if p j then get m j else none)
  unfolding get
  get-filter_key p [] j = ground arith
  get-filter_key p ((i, w) ∷ m) j = ground (arith, e.same_iff i j, get-filter_key p m j)

  -- `values_mut`
  pub get-map_values :
      (f : V → V) (m : HashMap K V) (k : K) (v : V)
      → get m k ≡ some v
      → get (map (λ b. (b.0, f b.1)) m) k ≡ some (f v)
  unfolding get
  get-map_values f [] k v h = absurd cc
  get-map_values f ((i, w) ∷ m) k v h = elim (Bool-cases (i == k)) [
    | inl x ↦ rw x (ground (arith, h, x))
    | inr x ↦ rw x (get-map_values f m k v (ground (arith, h, x)))
  ]

  pub get_of_absent :
      (j : K) (m : HashMap K V) → All (λ (b : K × V). b.0 ≡ j → ⊥) m → get m j ≡ none
  unfolding get
  get_of_absent j [] h = refl
  get_of_absent j ((i, w) ∷ m) h = ground (arith, h.0, e.same_iff i j, get_of_absent j m h.1)

  pub All-insert :
      (P : K × V → Type 0) (m : HashMap K V) (k : K) (v : V)
      → P (k, v)
      → All P m
      → All P (insert m k v)
  unfolding insert
  All-insert P [] k v p h = (p, tt)
  All-insert P ((i, w) ∷ m) k v p h = elim (Bool-cases (i == k)) [
    | inl x ↦ rw x (p, h.1)
    | inr x ↦ rw x (h.0, All-insert P m k v p h.1)
  ]

  pub length-insert_le : (m : HashMap K V) (k : K) (v : V) → length (insert m k v) ≤ length m + 1
  unfolding insert
  length-insert_le [] k v = omega arith
  length-insert_le ((i, w) ∷ m) k v = ground (arith, length-insert_le m k v)

  pub length-replace :
      (m : HashMap K V) (k : K) (v w : V) → get m k ≡ some w → length (insert m k v) ≡ length m
  unfolding insert get
  length-replace [] k v w h = absurd cc
  length-replace ((i, x) ∷ m) k v w h = ground (arith, h, length-replace m k v w)

  pub length-remove_le : (m : HashMap K V) (k : K) → length (remove m k) ≤ length m
  unfolding remove
  length-remove_le [] k = omega arith
  length-remove_le ((i, x) ∷ m) k = ground (arith, length-remove_le m k)

  pub All-remove : (P : K × V → Type 0) (m : HashMap K V) (k : K) → All P m → All P (remove m k)
  unfolding remove
  All-remove P [] k h = tt
  All-remove P ((i, x) ∷ m) k h = elim (Bool-cases (i == k)) [
    | inl y ↦ rw y (All-remove P m k h.1)
    | inr y ↦ rw y (h.0, All-remove P m k h.1)
  ]

  pub get-All :
      (P : K × V → Type 0) (m : HashMap K V) (k : K) (v : V) → All P m → get m k ≡ some v → P (k, v)
  unfolding get
  get-All P [] k v h g = absurd cc
  get-All P ((i, w) ∷ m) k v h g = elim (Bool-cases (i == k)) [
    | inl x ↦
        let same : w ≡ v = ground (arith, g, x) in
        subst (λ a. P (k, a)) same (subst (λ a. P (a, w)) ((e.same_iff i k).0 x) h.0)
    | inr x ↦ get-All P m k v h.1 (ground (arith, g, x))
  ]
