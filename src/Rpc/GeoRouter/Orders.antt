-- ===== src/Rpc/GeoRouter/Orders.antt =====
-- The orders in which regions are tried, and what a sweep makes of one region.
use chainkit.Prelude.{
  Bool, Bool-cases, List, [], ap, arith, count, false, filter, if◌then◌else◌, inl, inr, refl, ℕ,
  ◌==◌, ◌∷◌, ◌≡◌, ◌≤◌, nat_eq, string_eq, pair_eq,
}
use chainkit.Rpc.GeoRouter.Regions.{
  Region, proximity_order, region_eq, us_east, us_west, eu_west, eu_central, asia_southeast,
  asia_east, south_america, oceania,
}

every_region :
    (P : Region → Type 0)
    → P us_east
    → P us_west
    → P eu_west
    → P eu_central
    → P asia_southeast
    → P asia_east
    → P south_america
    → P oceania
    → (k : Region) → P k
every_region P a b c d e f g h us_east = a
every_region P a b c d e f g h us_west = b
every_region P a b c d e f g h eu_west = c
every_region P a b c d e f g h eu_central = d
every_region P a b c d e f g h asia_southeast = e
every_region P a b c d e f g h asia_east = f
every_region P a b c d e f g h south_america = g
every_region P a b c d e f g h oceania = h

-- A region and those near it are all the regions, each one once.
pub proximity_order-once : (r k : Region) → count (λ g. g == k) (r ∷ proximity_order r) ≡ 1
unfolding proximity_order
proximity_order-once us_east = every_region _ refl refl refl refl refl refl refl refl
proximity_order-once us_west = every_region _ refl refl refl refl refl refl refl refl
proximity_order-once eu_west = every_region _ refl refl refl refl refl refl refl refl
proximity_order-once eu_central = every_region _ refl refl refl refl refl refl refl refl
proximity_order-once asia_southeast = every_region _ refl refl refl refl refl refl refl refl
proximity_order-once asia_east = every_region _ refl refl refl refl refl refl refl refl
proximity_order-once south_america = every_region _ refl refl refl refl refl refl refl refl
proximity_order-once oceania = every_region _ refl refl refl refl refl refl refl refl

pub count_key-filter :
    (p : Region → Bool) (k : Region) (rs : List Region)
    → count (λ g. g == k) (filter p rs) ≡ (if p k then count (λ g. g == k) rs else 0)
count_key-filter p k [] = ground arith
count_key-filter p k (g ∷ rs) = elim (Bool-cases (g == k)) [
  | inl e ↦
      let s : g ≡ k = (region_eq.same_iff g k).0 e in
      ground (arith, e, ap p s, count_key-filter p k rs)
  | inr e ↦ ground (arith, e, count_key-filter p k rs)
]

-- How the value of a region follows from the rest of a sweep, whether the first region is passed over
-- or asked.
pub skipped :
    (g k : Region) (rs : List Region) (cur bump : Region → ℕ)
    → bump g ≡ cur g
    → count (λ g. g == k) (g ∷ rs) ≤ 1
    → (if count (λ g. g == k) (g ∷ rs) == 0 then cur k else bump k)
      ≡ (if count (λ g. g == k) rs == 0 then cur k else bump k)
skipped g k rs cur bump e c = elim (Bool-cases (g == k)) [
  | inl x ↦
      let s : g ≡ k = (region_eq.same_iff g k).0 x in ground (arith, x, e, c, ap cur s, ap bump s)
  | inr x ↦ ground (arith, x)
]

pub asked :
    (g k : Region) (rs : List Region) (cur cur' bump bump' : Region → ℕ)
    → cur' k ≡ (if g == k then bump k else cur k)
    → ((g == k) ≡ false → bump' k ≡ bump k)
    → count (λ g. g == k) (g ∷ rs) ≤ 1
    → (if count (λ g. g == k) (g ∷ rs) == 0 then cur k else bump k)
      ≡ (if count (λ g. g == k) rs == 0 then cur' k else bump' k)
asked g k rs cur cur' bump bump' e f c = elim (Bool-cases (g == k)) [
  | inl x ↦ ground (arith, x, e, c)
  | inr x ↦ ground (arith, x, e, f x)
]
