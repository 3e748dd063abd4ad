-- ===== src/HashMap.antt =====
-- `std::collections::HashMap` as an association list with one binding to a key. The order of
-- iteration of the real map is unspecified: what the model iterates over is one of its orders.
pub mod Laws
pub mod Distinct
use chainkit.Prelude.{
  All, Bool, List, Option, PartialEq, [], false, if◌then◌else◌, none, some, true, ◌==◌, ◌∷◌, ◌≡◌,
  nat_eq, string_eq, pair_eq,
}

abbrev pub HashMap {ℓ κ} : Type ℓ → Type κ → Type (ℓ ⊔ κ)
HashMap K V = List (K × V)

module _ {ℓ κ} {K : Type ℓ} {V : Type κ} ⦃e : PartialEq K⦄ where
  -- `get`
  unfoldable pub get : HashMap K V → K → Option V
  get [] k = none
  get ((j, v) ∷ m) k = if j == k then some v else get m k

  -- `contains_key`
  unfoldable pub contains_key : HashMap K V → K → Bool
  contains_key [] k = false
  contains_key ((j, v) ∷ m) k = if j == k then true else contains_key m k

  -- `insert`, which replaces the value of a key that is there
  unfoldable pub insert : HashMap K V → K → V → HashMap K V
  insert [] k v = (k, v) ∷ []
  insert ((j, w) ∷ m) k v = if j == k then (k, v) ∷ m else (j, w) ∷ insert m k v

  -- `remove`
  unfoldable pub remove : HashMap K V → K → HashMap K V
  remove [] k = []
  remove ((j, w) ∷ m) k = let rest = remove m k in if j == k then rest else (j, w) ∷ rest

-- No key is bound twice.
module _ {ℓ κ} {K : Type ℓ} {V : Type κ} where
  abbrev pub DistinctKeys : HashMap K V → Type ℓ
  DistinctKeys [] = Unit
  DistinctKeys ((j, v) ∷ m) = All (λ (b : K × V). b.0 ≡ j → ⊥) m × DistinctKeys m
