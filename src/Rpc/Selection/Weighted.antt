-- ===== src/Rpc/Selection/Weighted.antt =====
-- Weighted round robin: the share of each provider in one round of calls is its weight.
use native.Mathlib.Nat.{mod-lt}
use native.Mathlib.Decide.{dec_lt}
use mathlib.Core.Path.{subst}
use chainkit.Prelude.{
  Bool, Bool-cases, List, [], arith, false, get_or, inl, inr, ltb, none, some, suc, take, u64,
  u64_max, zero, ℕ, ◌%◌, ◌+◌, ◌<◌, ◌==◌, ◌∙◌, ◌∷◌, ◌≡◌, ◌≤◌, nat_eq, string_eq, pair_eq,
}
use chainkit.Rpc.Selection.{SelectionState, effective_from, sum_from, pick, select_weighted}

-- Sums without wrapping.
abbrev pub sum : List ℕ → ℕ
sum [] = 0
sum (w ∷ ws) = w + sum ws

-- The effective weight of provider `i`, 0 out of range.
abbrev pub weight : List ℕ → ℕ → ℕ
weight ws i = get_or ws i 0

-- The sum of the weights before provider `i`.
abbrev pub before : List ℕ → ℕ → ℕ
before ws i = sum (take i ws)

pub sum_from-eq-sum :
    (acc : ℕ) (ws : List ℕ) → acc + sum ws ≤ u64_max → sum_from acc ws ≡ acc + sum ws
unfolding sum_from
sum_from-eq-sum acc [] h = omega arith
sum_from-eq-sum acc (w ∷ ws) h =
    let same : u64 (acc + w) ≡ acc + w = omega arith in
    rw same (omega (arith, sum_from-eq-sum (acc + w) ws (omega arith)))

-- The target falls into the interval of the provider that is picked.
Lands : ℕ → ℕ → ℕ → List ℕ → ℕ → Type 0
Lands target idx cumulative ws i =
    (k : ℕ) × (i ≡ idx + k)
    × (cumulative + before ws k ≤ target)
    × (target < cumulative + before ws k + weight ws k)

pick_past :
    (target idx cumulative w : ℕ) (ws : List ℕ) (i : ℕ)
    → ltb target (cumulative + w) ≡ false
    → cumulative + w ≤ u64_max
    → pick target (idx + 1) (cumulative + w) ws ≡ some i
    → pick target idx cumulative (w ∷ ws) ≡ some i
unfolding pick
pick_past target idx cumulative w ws i e h p =
    let same : u64 (cumulative + w) ≡ cumulative + w = omega arith in rw (same, e) p

pick-Lands :
    (target idx cumulative : ℕ) (ws : List ℕ)
    → cumulative ≤ target
    → target < cumulative + sum ws
    → cumulative + sum ws ≤ u64_max
    → (i : ℕ) × (pick target idx cumulative ws ≡ some i) × Lands target idx cumulative ws i
unfolding pick Lands
pick-Lands target idx cumulative [] a b h = absurd (omega arith)
pick-Lands target idx cumulative (w ∷ ws) a b h =
    let same : u64 (cumulative + w) ≡ cumulative + w = omega arith in
    elim (Bool-cases (ltb target (cumulative + w))) [
      | inl e ↦ (idx, rw (same, e), (0, omega arith, omega arith, ground arith))
      | inr e ↦
          let (i, p, lands) =
            pick-Lands target (idx + 1) (cumulative + w) ws (ground arith) (omega arith)
              (omega arith) in
          let (k, q, c, d) = lands in
          (
            i,
            pick_past target idx cumulative w ws i e (omega arith) p,
            (suc k, omega arith, omega arith, omega arith),
          )
    ]

before_mono : (ws : List ℕ) (i j : ℕ) → i < j → before ws i + weight ws i ≤ before ws j
before_mono [] i zero h = absurd (omega arith)
before_mono [] zero (suc j) h = omega arith
before_mono [] (suc i) (suc j) h = omega arith
before_mono (w ∷ ws) i zero h = absurd (omega arith)
before_mono (w ∷ ws) zero (suc j) h = omega arith
before_mono (w ∷ ws) (suc i) (suc j) h = omega (arith, before_mono ws i j (omega arith))

abbrev pub InShare : List ℕ → ℕ → ℕ → Type 0
InShare ws i t = (before ws i ≤ t) × (t < before ws i + weight ws i)

pub share_unique : (ws : List ℕ) (i j t : ℕ) → InShare ws i t → InShare ws j t → i ≡ j
share_unique ws i j t (a, b) (c, d) = elim (dec_lt i j) [
  | yes p ↦ absurd (omega (arith, before_mono ws i j p))
  | no p ↦ elim (dec_lt j i) [
    | yes q ↦ absurd (omega (arith, before_mono ws j i q))
    | no q ↦ omega arith
  ]
]

-- The effective weights of a call, and their sum.
abbrev pub weights_of : List Bool → List ℕ → List ℕ
weights_of allowed weights = effective_from 0 allowed weights

pick_share :
    (target : ℕ) (ws : List ℕ)
    → target < sum ws
    → sum ws ≤ u64_max
    → (i : ℕ) × (pick target 0 0 ws ≡ some i) × InShare ws i target
unfolding Lands
pick_share target ws p h =
    let (i, e, lands) = pick-Lands target 0 0 ws (omega arith) (omega arith) (omega arith) in
    let (k, q, c, d) = lands in
    let same : k ≡ i = omega arith in
    (i, e, subst (λ n. InShare ws n target) same (omega arith, omega arith))

selected :
    (s : SelectionState) (allowed : List Bool) (weights : List ℕ) (i : ℕ)
    → let ws = weights_of allowed weights in
      sum ws ≤ u64_max
      → 0 < sum ws
      → pick (s.wrr_counter % sum ws) 0 0 ws ≡ some i
      → select_weighted s allowed weights
        ≡ (some i, record s { wrr_counter = u64 (s.wrr_counter + 1) })
unfolding select_weighted
selected s allowed weights i h p e =
    let ws = weights_of allowed weights in
    let total : sum_from 0 ws ≡ sum ws = sum_from-eq-sum 0 ws (omega arith) ∙ omega arith in
    let some_weight : (sum ws == 0) ≡ false = ground arith in rw (total, some_weight, e)

-- With a positive sum that fits a `u64`, a call picks the provider whose share the counter falls
-- into, modulo the sum, never the fallback, and moves the counter on; with the sum 0 it picks none
-- and the counter stays.
pub select_weighted_share :
    (s : SelectionState) (allowed : List Bool) (weights : List ℕ)
    → let ws = weights_of allowed weights in
      sum ws ≤ u64_max
      → (sum ws ≡ 0 → select_weighted s allowed weights ≡ (none, s))
        × (0 < sum ws
            → (i : ℕ) × (select_weighted s allowed weights
                ≡ (some i, record s { wrr_counter = u64 (s.wrr_counter + 1) }))
              × InShare ws i (s.wrr_counter % sum ws))
unfolding select_weighted
select_weighted_share s allowed weights h =
    let ws = weights_of allowed weights in
    let total : sum_from 0 ws ≡ sum ws = sum_from-eq-sum 0 ws (omega arith) ∙ omega arith in
    (
      λ z. rw (total, z),
      λ p.
          let (i, e, share) = pick_share (s.wrr_counter % sum ws) ws (mod-lt s.wrr_counter p) h in
          (i, selected s allowed weights i h p e, share),
    )
