-- ===== src/Rpc/Selection/Rounds.antt =====
-- Weighted round robin over whole rounds of calls.
use Prim.Native.Nat.{min, max}
use mathlib.Core.Path.{subst}
use native.Mathlib.Nat.{mod-eq_of_lt, add-mod}
use native.Mathlib.Decide.{dec_lt}
use chainkit.Prelude.{
  ==_iff, Bool, Bool-cases, List, Option, [], ap, arith, count, false, get_or, if◌then◌else◌, inl,
  inr, none, refl, some, suc, u64, u64_max, zero, ℕ, ◌%◌, ◌+◌, ◌==◌, ◌∙◌, ◌∷◌, ◌≡◌, ◌≤◌, nat_eq,
  string_eq, pair_eq,
}
use chainkit.Rpc.Selection.{SelectionState, allowed_at, effective_from, select_weighted}
use chainkit.Rpc.Selection.Weighted.{
  sum, weight, before, InShare, share_unique, weights_of, select_weighted_share,
}

-- The results of n calls in turn.
pub calls : ℕ → SelectionState → List Bool → List ℕ → List (Option ℕ)
calls zero s allowed weights = []
calls (suc n) s allowed weights =
    let (r, s') = select_weighted s allowed weights in r ∷ calls n s' allowed weights

abbrev pub is_pick : ℕ → Option ℕ → Bool
is_pick i none = false
is_pick i (some j) = j == i

-- The part of the share of `i` that lies below x, counted from the start of the share.
abbrev reached : List ℕ → ℕ → ℕ → ℕ
reached ws i x = min (max x (before ws i)) (before ws i + weight ws i)

reached-next :
    (ws : List ℕ) (i j r : ℕ)
    → InShare ws j r
    → (if j == i then 1 else 0) + reached ws i r ≡ reached ws i (r + 1)
reached-next ws i j r share = elim (Bool-cases (j == i)) [
  | inl e ↦
      let here : InShare ws i r = subst (λ n. InShare ws n r) ((==_iff j i).0 e) share in
      rw e (omega arith)
  | inr e ↦
      let away : InShare ws i r → ⊥ = λ h. ground (arith, share_unique ws j i r share h) in
      rw e (elim (dec_lt r (before ws i)) [
        | yes p ↦ omega arith
        | no p ↦ elim (dec_lt r (before ws i + weight ws i)) [
          | yes q ↦ absurd (away (omega arith, q))
          | no q ↦ omega arith
        ]
      ])
]

share-le-sum : (ws : List ℕ) (i : ℕ) → before ws i + weight ws i ≤ sum ws
share-le-sum [] zero = omega arith
share-le-sum [] (suc i) = omega arith
share-le-sum (w ∷ ws) zero = omega arith
share-le-sum (w ∷ ws) (suc i) = omega (arith, share-le-sum ws i)

count-calls :
    (n i j : ℕ) (s s' : SelectionState) (allowed : List Bool) (weights : List ℕ)
    → select_weighted s allowed weights ≡ (some j, s')
    → count (is_pick i) (calls (suc n) s allowed weights)
      ≡ (if j == i then 1 else 0) + count (is_pick i) (calls n s' allowed weights)
unfolding calls
count-calls n i j s s' allowed weights e = rw (e, calls) (ground arith)

-- n calls from r places into a round reach through the share of `i` by as many hits.
hits_from :
    (n base r i : ℕ) (s : SelectionState) (allowed : List Bool) (weights : List ℕ)
    → let ws = weights_of allowed weights in
      base % sum ws ≡ 0
      → s.wrr_counter ≡ base + r
      → r + n ≤ sum ws
      → base + sum ws ≤ u64_max
      → count (is_pick i) (calls n s allowed weights) + reached ws i r ≡ reached ws i (r + n)
unfolding calls
hits_from zero base r i s allowed weights b c l h = omega arith
hits_from (suc n) base r i s allowed weights b c l h =
    let ws = weights_of allowed weights in
    let at : s.wrr_counter % sum ws ≡ r =
      ap (λ k. k % sum ws) c
      ∙ add-mod base r (sum ws)
      ∙ ap (λ k. (k + r % sum ws) % sum ws) b
      ∙ ap (λ k. (0 + k) % sum ws) (mod-eq_of_lt {n = r} {m = sum ws} (omega arith))
      ∙ mod-eq_of_lt {n = 0 + r} {m = sum ws} (omega arith)
      ∙ omega arith in
    let (j, e, share) = (select_weighted_share s allowed weights (omega arith)).1 (omega arith) in
    let rest =
      hits_from n base (r + 1) i (record s { wrr_counter = u64 (s.wrr_counter + 1) }) allowed
        weights b (omega arith) (omega arith) h in
    let next = record s { wrr_counter = u64 (s.wrr_counter + 1) } in
    omega (
      arith,
      count-calls n i j s next allowed weights e,
      reached-next ws i j r (subst (InShare ws j) at share),
      rest,
    )

weight-effective_from :
    (k i : ℕ) (allowed : List Bool) (weights : List ℕ)
    → weight (effective_from k allowed weights) i
      ≡ (if allowed_at allowed i then get_or weights (k + i) 1 else 0)
unfolding effective_from
weight-effective_from k i [] weights = refl
weight-effective_from k zero (free ∷ rest) weights =
    ap (λ n. if free then get_or weights n 1 else 0) (omega arith)
weight-effective_from k (suc i) (free ∷ rest) weights =
    weight-effective_from (k + 1) i rest weights
    ∙ ap (λ n. if allowed_at rest i then get_or weights n 1 else 0) (omega arith)

-- In one whole round, as many calls as the sum of the effective weights from a multiple of it on,
-- where the counter does not pass the largest `u64`, each allowed provider is picked exactly as
-- often as its weight says (once if it has none), and one that is not allowed never.
pub fair_round :
    (s : SelectionState) (allowed : List Bool) (weights : List ℕ) (i : ℕ)
    → let round = sum (weights_of allowed weights) in
      s.wrr_counter % round ≡ 0
      → s.wrr_counter + round ≤ u64_max
      → count (is_pick i) (calls round s allowed weights)
        ≡ (if allowed_at allowed i then get_or weights i 1 else 0)
fair_round s allowed weights i z h =
    let ws = weights_of allowed weights in
    omega (
      arith,
      hits_from (sum ws) s.wrr_counter 0 i s allowed weights z (omega arith) (omega arith) h,
      share-le-sum ws i,
    )
    ∙ weight-effective_from 0 i allowed weights
    ∙ ap (λ n. if allowed_at allowed i then get_or weights n 1 else 0) (omega arith)
