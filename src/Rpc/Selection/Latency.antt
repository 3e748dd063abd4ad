-- ===== src/Rpc/Selection/Latency.antt =====
-- Latency based selection, and the moving average that it reads.
use chainkit.Prelude.{
  Bool, Bool-cases, List, Option, [], ap, arith, false, get_or, get_or-set, if◌then◌else◌, inl, inr,
  length, ltb, ltb→ge, ltb→lt, lt→ltb, none, refl, some, suc, true, u64, u64_max, zero, ℕ, ◌*◌, ◌+◌,
  ◌/◌, ◌<◌, ◌==◌, ◌∙◌, ◌∷◌, ◌≡◌, ◌≢◌, ◌≤◌, ◌⊎◌, nat_eq, string_eq, pair_eq,
}
use Prim.Native.Nat.{min, max}
use mathlib.Core.Path.{subst}
use chainkit.Rpc.Selection.{
  SelectionState, allowed_at, effective_latency, fastest, select_latency, record_latency,
}

-- No allowed index of the list, which starts at index `idx`, is faster than `bound`.
abbrev NoneFaster : List ℕ → ℕ → List Bool → ℕ → Type 0
NoneFaster latencies idx allowed bound =
    (j : ℕ)
    → j < length allowed
    → allowed_at allowed j ≡ true
    → bound ≤ effective_latency latencies (idx + j)

-- The loop keeps its earlier best, or finds one that is faster than it.
data Fastest (latencies : List ℕ) (idx : ℕ) (best : Option ℕ) (bound : ℕ) (allowed : List Bool)
    (r : Option ℕ) : Type 0 where
  kept :
      r ≡ best → NoneFaster latencies idx allowed bound → Fastest latencies idx best bound allowed r
  found :
      (k : ℕ)
      → r ≡ some (idx + k)
      → k < length allowed
      → allowed_at allowed k ≡ true
      → effective_latency latencies (idx + k) < bound
      → NoneFaster latencies idx allowed (effective_latency latencies (idx + k))
      → Fastest latencies idx best bound allowed r

NoneFaster-cons :
    (latencies : List ℕ) (idx : ℕ) (free : Bool) (rest : List Bool) (bound : ℕ)
    → (free ≡ true → bound ≤ effective_latency latencies idx)
    → NoneFaster latencies (idx + 1) rest bound
    → NoneFaster latencies idx (free ∷ rest) bound
NoneFaster-cons latencies idx free rest bound h t = elim [
  | zero ↦ λ l a. subst (λ n. bound ≤ effective_latency latencies n) (omega arith) (h a)
  | suc j ↦
      λ l a. subst (λ n. bound ≤ effective_latency latencies n) (omega arith) (t j (omega arith) a)
]

at_place :
    (latencies : List ℕ) (idx k : ℕ)
    → effective_latency latencies (idx + 1 + k) ≡ effective_latency latencies (idx + suc k)
at_place latencies idx k = ap (effective_latency latencies) (omega arith)

better :
    (latencies : List ℕ) (idx : ℕ) (best : Option ℕ) (bound : ℕ) (rest : List Bool) (r : Option ℕ)
    → effective_latency latencies idx < bound
    → Fastest latencies (idx + 1) (some idx) (effective_latency latencies idx) rest r
    → Fastest latencies idx best bound (true ∷ rest) r
better latencies idx best bound rest r h (kept e t) =
    let same : effective_latency latencies (idx + 0) ≡ effective_latency latencies idx =
      ap (effective_latency latencies) (omega arith) in
    found 0 (e ∙ ap some (omega arith)) (omega arith) refl (rw same h)
      (rw same (NoneFaster-cons latencies idx true rest _ (λ a. omega arith) t))
better latencies idx best bound rest r h (found k e l a f t) =
    found (suc k) (e ∙ ap some (omega arith)) (omega arith) a
      (rw (← at_place latencies idx k) (omega arith))
      (rw (← at_place latencies idx k)
        (NoneFaster-cons latencies idx true rest _ (λ b. omega arith) t))

worse :
    (latencies : List ℕ) (idx : ℕ) (best : Option ℕ) (bound : ℕ) (free : Bool) (rest : List Bool)
    (r : Option ℕ)
    → (free ≡ true → bound ≤ effective_latency latencies idx)
    → Fastest latencies (idx + 1) best bound rest r
    → Fastest latencies idx best bound (free ∷ rest) r
worse latencies idx best bound free rest r h (kept e t) =
    kept e (NoneFaster-cons latencies idx free rest bound h t)
worse latencies idx best bound free rest r h (found k e l a f t) =
    found (suc k) (e ∙ ap some (omega arith)) (omega arith) a (rw (← at_place latencies idx k) f) (
      rw (← at_place latencies idx k)
        (NoneFaster-cons latencies idx free rest _ (λ b. omega (arith, h b)) t))

fastest-Fastest :
    (latencies : List ℕ) (idx : ℕ) (best : Option ℕ) (bound : ℕ) (allowed : List Bool)
    → Fastest latencies idx best bound allowed (fastest latencies idx best bound allowed)
unfolding fastest
fastest-Fastest latencies idx best bound [] = kept refl (λ j h a. absurd (omega arith))
fastest-Fastest latencies idx best bound (false ∷ rest) =
    worse latencies idx best bound false rest _ (λ a. cc)
      (fastest-Fastest latencies (idx + 1) best bound rest)
fastest-Fastest latencies idx best bound (true ∷ rest) =
    elim (Bool-cases (ltb (effective_latency latencies idx) bound)) [
      | inl e ↦ rw e (
          better latencies idx best bound rest _ (ltb→lt _ _ e)
            (fastest-Fastest latencies (idx + 1) (some idx) (effective_latency latencies idx) rest))
      | inr e ↦ rw e (
          worse latencies idx best bound true rest _ (λ a. ltb→ge _ _ e)
            (fastest-Fastest latencies (idx + 1) best bound rest))
    ]

-- A provider that is selected by latency is allowed, and no allowed one is faster (no data counts as
-- 1); none is selected only if every allowed one has the latency `u64::MAX`.
pub select_latency-fastest :
    (s : SelectionState) (allowed : List Bool)
    → ((select_latency s allowed ≡ none)
        × ((j : ℕ)
            → j < length allowed
            → allowed_at allowed j ≡ true
            → u64_max ≤ effective_latency s.latencies j))
      ⊎ ((k : ℕ) × (select_latency s allowed ≡ some k)
          × (allowed_at allowed k ≡ true)
          × ((j : ℕ)
              → j < length allowed
              → allowed_at allowed j ≡ true
              → effective_latency s.latencies k ≤ effective_latency s.latencies j))
unfolding select_latency
select_latency-fastest s allowed = cases (fastest-Fastest s.latencies 0 none u64_max allowed)
  where
    zero_add : (j : ℕ) → effective_latency s.latencies (0 + j) ≡ effective_latency s.latencies j
    zero_add j = ap (effective_latency s.latencies) (omega arith)

    cases :
        Fastest s.latencies 0 none u64_max allowed (fastest s.latencies 0 none u64_max allowed)
        → ((fastest s.latencies 0 none u64_max allowed ≡ none)
            × ((j : ℕ)
                → j < length allowed
                → allowed_at allowed j ≡ true
                → u64_max ≤ effective_latency s.latencies j))
          ⊎ ((k : ℕ) × (fastest s.latencies 0 none u64_max allowed ≡ some k)
              × (allowed_at allowed k ≡ true)
              × ((j : ℕ)
                  → j < length allowed
                  → allowed_at allowed j ≡ true
                  → effective_latency s.latencies k ≤ effective_latency s.latencies j))
    cases (kept e t) = inl (e, λ j l a. rw (← zero_add j) (t j l a))
    cases (found k e l a f t) =
        inr (k, e ∙ ap some (omega arith), a, λ j m b. rw (← zero_add j, ← zero_add k) (t j m b))

-- For an index in range, where the weighted sum fits a `u64`, a sample moves the average of its
-- provider to a value between the sample and the old average, both ends included, and changes no
-- other; the first sample is taken as it is.
pub record_latency_average :
    (s : SelectionState) (index sample j : ℕ)
    → index < length s.latencies
    → sample * 3 + get_or s.latencies index 0 * 7 ≤ u64_max
    → let old = get_or s.latencies index 0 in
      let new = get_or (record_latency s index sample).latencies j 0 in
      (j ≢ index → new ≡ get_or s.latencies j 0)
      × (j ≡ index → old ≡ 0 → new ≡ sample)
      × (j ≡ index → 0 < old → (min sample old ≤ new) × (new ≤ max sample old))
unfolding record_latency
record_latency_average s index sample j h r =
    let inside : ltb index (length s.latencies) ≡ true = lt→ltb _ _ h in
    let old = get_or s.latencies index 0 in
    rw
      (
        inside,
        get_or-set s.latencies index j
            (if old == 0 then sample else u64 (u64 (sample * 3) + u64 (old * 7)) / 10) 0 h,
      )
      (λ n. ground arith, λ e z. ground arith, λ e p. ground arith)
