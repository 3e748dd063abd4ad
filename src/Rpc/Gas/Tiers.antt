-- ===== src/Rpc/Gas/Tiers.antt =====
-- The order of the tiers.
use chainkit.Prelude.{
  All, Bool-cases, List, [], arith, get_or, inl, inr, length, suc, u128_max, zero, ℕ, ◌+◌, ◌<◌,
  ◌==◌, ◌∷◌, ◌≤◌, nat_eq, string_eq, pair_eq,
}
use chainkit.Rpc.Gas.{Floats, percentile, make_estimate, compute_gas_recommendation}

-- What the floating point operations are taken to keep: a higher percentile is no earlier place, and a
-- higher factor gives no lower fee.
pub record Monotone (floats : Floats) : Type 0 where
  pub later : (n p q : ℕ) → p ≤ q → floats.percentile_index p n ≤ floats.percentile_index q n
  pub higher : (base s t : ℕ) → s ≤ t → floats.scale s base ≤ floats.scale t base

-- samples in ascending order
abbrev pub Ascending : List ℕ → Type 0
Ascending [] = Unit
Ascending (x ∷ xs) = All (λ y. x ≤ y) xs × Ascending xs

get_or-Ascending :
    (xs : List ℕ) (i j d : ℕ) → Ascending xs → i ≤ j → j < length xs → get_or xs i d ≤ get_or xs j d
get_or-Ascending [] i j d a h k = absurd (omega arith)
get_or-Ascending (x ∷ xs) zero zero d a h k = omega arith
get_or-Ascending (x ∷ xs) zero (suc j) d a h k = All-here xs j d a.0 (omega arith)
  where
    All-here : (ys : List ℕ) (j d : ℕ) → All (λ y. x ≤ y) ys → j < length ys → x ≤ get_or ys j d
    All-here [] j d b k = absurd (omega arith)
    All-here (y ∷ ys) zero d b k = b.0
    All-here (y ∷ ys) (suc j) d b k = All-here ys j d b.1 (omega arith)
get_or-Ascending (x ∷ xs) (suc i) zero d a h k = absurd (omega arith)
get_or-Ascending (x ∷ xs) (suc i) (suc j) d a h k =
    get_or-Ascending xs i j d a.1 (omega arith) (omega arith)

module _ (floats : Floats) (m : Monotone floats) where
  percentile_mono :
      (fees : List ℕ) (p q : ℕ)
      → Ascending fees
      → p ≤ q
      → percentile floats fees p ≤ percentile floats fees q
  unfolding percentile
  percentile_mono fees p q a h = elim (Bool-cases (length fees == 0)) [
    | inl x ↦ rw x (omega arith)
    | inr x ↦
        let n = m.later (length fees) p q h in
        rw x (get_or-Ascending fees _ _ 0 a (omega (arith, n)) (ground (arith, x)))
  ]

  -- With samples in ascending order, and fees that fit a word of 128 bits, the fee and the tip of each
  -- tier are at most those of the faster one, and the tip of the urgent tier is at most its fee.
  tiers_ordered :
      (base_fee : ℕ) (fees : List ℕ) (block : ℕ)
      → Ascending fees
      → floats.scale 1_500 base_fee + percentile floats fees 99 ≤ u128_max
      → let r = compute_gas_recommendation floats base_fee fees block in
        (r.slow_tier.max_fee_per_gas ≤ r.standard_tier.max_fee_per_gas)
        × (r.standard_tier.max_fee_per_gas ≤ r.fast_tier.max_fee_per_gas)
        × (r.fast_tier.max_fee_per_gas ≤ r.urgent_tier.max_fee_per_gas)
        × (r.slow_tier.max_priority_fee_per_gas ≤ r.standard_tier.max_priority_fee_per_gas)
        × (r.standard_tier.max_priority_fee_per_gas ≤ r.fast_tier.max_priority_fee_per_gas)
        × (r.fast_tier.max_priority_fee_per_gas ≤ r.urgent_tier.max_priority_fee_per_gas)
        × (r.urgent_tier.max_priority_fee_per_gas ≤ r.urgent_tier.max_fee_per_gas)
  unfolding compute_gas_recommendation make_estimate
  tiers_ordered base_fee fees block a fits =
      let p = percentile_mono fees 10 50 a (omega arith) in
      let q = percentile_mono fees 50 90 a (omega arith) in
      let r = percentile_mono fees 90 99 a (omega arith) in
      let s = m.higher base_fee 1_000 1_125 (omega arith) in
      let t = m.higher base_fee 1_125 1_250 (omega arith) in
      let u = m.higher base_fee 1_250 1_500 (omega arith) in omega (arith, p, q, r, s, t, u, fits)
