-- ===== src/Rpc/Selection/Cyclic.antt =====
-- Round robin, priority and sticky selection: the first allowed provider in cyclic order.
use native.Mathlib.Nat.{mod-eq_of_lt, mod-lt, add-mod_right}
use native.Mathlib.Decide.{ℕ_discrete, dec_lt}
use mathlib.Core.Path.{subst}
use chainkit.Prelude.{
  Bool, Bool-cases, List, Option, String, [], ap, arith, false, inl, inr, length, none, refl, some,
  suc, sym, true, u64, zero, ℕ, ◌%◌, ◌+◌, ◌-◌, ◌<◌, ◌==◌, ◌^◌, ◌∙◌, ◌∷◌, ◌≡◌, ◌≤◌, nat_eq,
  string_eq, pair_eq,
}
use chainkit.Rpc.Selection.{
  SelectionState, allowed_at, probe, position, select_round_robin, select_priority, select_sticky,
}

-- The index `k` places after `start`.
abbrev pub place : ℕ → ℕ → List Bool → ℕ
place start k allowed = (start + k) % length allowed

-- From the i-th place on, for some rounds: the first allowed place, or none of them is allowed.
abbrev pub FirstFrom : ℕ → ℕ → ℕ → List Bool → Option ℕ → Type 0
FirstFrom rounds start i allowed none =
    (j : ℕ) → i ≤ j → j < i + rounds → allowed_at allowed (place start j allowed) ≡ false
FirstFrom rounds start i allowed (some idx) =
    (k : ℕ) × (i ≤ k)
    × (k < i + rounds)
    × (idx ≡ place start k allowed)
    × (allowed_at allowed idx ≡ true)
    × ((j : ℕ) → i ≤ j → j < k → allowed_at allowed (place start j allowed) ≡ false)

FirstFrom-step :
    (rounds start i : ℕ) (allowed : List Bool) (r : Option ℕ)
    → allowed_at allowed (place start i allowed) ≡ false
    → FirstFrom rounds start (i + 1) allowed r
    → FirstFrom (suc rounds) start i allowed r
FirstFrom-step rounds start i allowed none h f = λ j a b. elim (ℕ_discrete i j) [
  | yes e ↦ subst (λ n. allowed_at allowed (place start n allowed) ≡ false) e h
  | no n ↦ f j (omega arith) (omega arith)
]
FirstFrom-step rounds start i allowed (some idx) h (k, a, b, c, d, f) = (
  k,
  omega arith,
  omega arith,
  c,
  d,
  λ j p q. elim (ℕ_discrete i j) [
    | yes e ↦ subst (λ n. allowed_at allowed (place start n allowed) ≡ false) e h
    | no n ↦ f j (omega arith) (omega arith)
  ],
)

-- Indices are far below the range of `usize`: a slice has at most `isize::MAX` elements.
probe-FirstFrom :
    (rounds start i : ℕ) (allowed : List Bool)
    → start < 2 ^ 63
    → i + rounds ≤ 2 ^ 63
    → FirstFrom rounds start i allowed (probe rounds start i allowed)
unfolding probe
probe-FirstFrom zero start i allowed h k = λ j a b. absurd (omega arith)
probe-FirstFrom (suc rounds) start i allowed h k =
    let here : u64 (start + i) ≡ start + i = omega arith in
    elim (Bool-cases (allowed_at allowed (place start i allowed))) [
      | inl e ↦ rw (here, e) (i, omega arith, omega arith, refl, e, λ j a b. absurd (omega arith))
      | inr e ↦
          rw (here, e)
            (FirstFrom-step rounds start i allowed (probe rounds start (i + 1) allowed) e
              (probe-FirstFrom rounds start (i + 1) allowed h (omega arith)))
    ]

-- Every index is some places after the start.
pub place_onto :
    (start i : ℕ) (allowed : List Bool)
    → start < length allowed
    → i < length allowed
    → (k : ℕ) × (k < length allowed) × (place start k allowed ≡ i)
place_onto start i allowed h l = elim (dec_lt i start) [
  | yes p ↦ (
    i + length allowed - start,
    omega arith,
    ap (λ n. n % length allowed) (omega arith) ∙ add-mod_right i (length allowed) ∙ mod-eq_of_lt l,
  )
  | no p ↦ (i - start, omega arith, ap (λ n. n % length allowed) (omega arith) ∙ mod-eq_of_lt l)
]

-- What a selection in cyclic order from `start` must return.
pub record IsFirst (start : ℕ) (allowed : List Bool) (r : Option ℕ) : Type 0 where
  pub none_allowed : r ≡ none → (i : ℕ) → i < length allowed → allowed_at allowed i ≡ false
  pub first_allowed : FirstFrom (length allowed) start 0 allowed r

FirstFrom-IsFirst :
    (start : ℕ) (allowed : List Bool) (r : Option ℕ)
    → start < length allowed
    → FirstFrom (length allowed) start 0 allowed r
    → IsFirst start allowed r
FirstFrom-IsFirst start allowed none h f = record {
  none_allowed = λ e i l.
      let (k, below, same) = place_onto start i allowed h l in
      subst (λ n. allowed_at allowed n ≡ false) same (f k (omega arith) (omega arith));
  first_allowed = f;
}
FirstFrom-IsFirst start allowed (some idx) h f = record {
  none_allowed = λ e. cc;
  first_allowed = f;
}

-- With at least one provider and fewer than 2^63, round robin starts at the cursor, takes the
-- first allowed provider in cyclic order, fails only if none is allowed, and moves the cursor on
-- by one whatever it finds.
pub select_round_robin-IsFirst :
    (s : SelectionState) (allowed : List Bool)
    → 0 < length allowed
    → length allowed < 2 ^ 63
    → let (r, s') = select_round_robin s allowed in
      IsFirst (s.rr_cursor % length allowed) allowed r × (s'.rr_cursor ≡ u64 (s.rr_cursor + 1))
unfolding select_round_robin
select_round_robin-IsFirst s allowed h k =
    let start = s.rr_cursor % length allowed in
    let below : start < length allowed = mod-lt s.rr_cursor h in
    (
      FirstFrom-IsFirst start allowed (probe (length allowed) start 0 allowed) below
          (probe-FirstFrom (length allowed) start 0 allowed (omega arith) (omega arith)),
      refl,
    )

-- With at least one provider and fewer than 2^63, sticky selection is the first allowed provider
-- in cyclic order from the hash of the key: the preferred one while that is allowed, and the next
-- allowed one after it otherwise.
pub select_sticky-IsFirst :
    (hash : String → ℕ) (allowed : List Bool) (key : String)
    → 0 < length allowed
    → length allowed < 2 ^ 63
    → IsFirst (hash key % length allowed) allowed (select_sticky hash allowed key)
unfolding select_sticky
select_sticky-IsFirst hash allowed key h k =
    let start = hash key % length allowed in
    let below : start < length allowed = mod-lt (hash key) h in
    let zero_place : place start 0 allowed ≡ start =
      ap (λ n. n % length allowed) (omega arith) ∙ mod-eq_of_lt below in
    let counted : (length allowed == 0) ≡ false = ground arith in
    let rounds : suc (length allowed - 1) ≡ length allowed = omega arith in
    rw counted (
      FirstFrom-IsFirst start allowed _ below (elim (Bool-cases (allowed_at allowed start)) [
        | inl e ↦
            rw e (0, omega arith, omega arith, sym zero_place, e, λ a b c. absurd (omega arith))
        | inr e ↦ rw e (
            subst (λ n. FirstFrom n start 0 allowed (probe (length allowed - 1) start 1 allowed))
              rounds
              (FirstFrom-step (length allowed - 1) start 0 allowed
                (probe (length allowed - 1) start 1 allowed) (rw zero_place e)
                (probe-FirstFrom (length allowed - 1) start 1 allowed (omega arith) (omega arith))))
      ]))

-- The first allowed index of a list that starts at index `i`.
abbrev pub FirstIndex : ℕ → List Bool → Option ℕ → Type 0
FirstIndex i allowed none = (j : ℕ) → j < length allowed → allowed_at allowed j ≡ false
FirstIndex i allowed (some idx) =
    (k : ℕ) × (idx ≡ i + k)
    × (k < length allowed)
    × (allowed_at allowed k ≡ true)
    × ((j : ℕ) → j < k → allowed_at allowed j ≡ false)

FirstIndex-step :
    (i : ℕ) (rest : List Bool) (r : Option ℕ)
    → FirstIndex (i + 1) rest r
    → FirstIndex i (false ∷ rest) r
FirstIndex-step i rest none f = elim [ zero ↦ λ h. refl | suc j ↦ λ h. f j (omega arith) ]
FirstIndex-step i rest (some idx) (k, a, b, c, d) =
    (suc k, omega arith, omega arith, c, elim [ zero ↦ λ h. refl | suc m ↦ λ h. d m (omega arith) ])

position-FirstIndex : (i : ℕ) (allowed : List Bool) → FirstIndex i allowed (position i allowed)
unfolding position
position-FirstIndex i [] = λ j h. absurd (omega arith)
position-FirstIndex i (true ∷ rest) =
    (0, omega arith, omega arith, refl, λ j h. absurd (omega arith))
position-FirstIndex i (false ∷ rest) =
    FirstIndex-step i rest (position (i + 1) rest) (position-FirstIndex (i + 1) rest)

-- Priority selection takes the allowed provider that was registered first, and fails only if none
-- is allowed.
pub select_priority-FirstIndex :
    (allowed : List Bool) → FirstIndex 0 allowed (select_priority allowed)
unfolding select_priority
select_priority-FirstIndex allowed = position-FirstIndex 0 allowed
