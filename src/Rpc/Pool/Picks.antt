-- ===== src/Rpc/Pool/Picks.antt =====
-- Which slot the pool picks, against the round robin of the selection strategies.
use chainkit.Prelude.{
  Bool-cases, List, String, [], ap, arith, get_or, inl, inr, length, length-set, refl, set, suc,
  sym, u64, zero, ℕ, ◌%◌, ◌+◌, ◌<◌, ◌==◌, ◌∙◌, ◌∷◌, ◌≡◌, nat_eq, string_eq, pair_eq,
}
use chainkit.Rpc.Circuit.{CircuitBreaker, is_allowed}
use chainkit.Rpc.Selection.{
  SelectionState, round_robin, allowed_at, probe, select, select_round_robin,
}
use chainkit.Rpc.Pool.{ProviderPool, allowed_now, scan, next_slot}

-- A circuit that is asked twice at a time answers the same.
is_allowed_twice :
    (c : CircuitBreaker) (now : ℕ) → (is_allowed (is_allowed c now).1 now).0 ≡ (is_allowed c now).0
unfolding is_allowed
is_allowed_twice c now = ground arith

allowed_now-set :
    (now : ℕ) (cs : List CircuitBreaker) (idx : ℕ) (spare : CircuitBreaker)
    → allowed_now now (set cs idx (is_allowed (get_or cs idx spare) now).1) ≡ allowed_now now cs
unfolding allowed_now
allowed_now-set now [] idx spare = refl
allowed_now-set now (c ∷ cs) zero spare = ap (λ b. b ∷ allowed_now now cs) (is_allowed_twice c now)
allowed_now-set now (c ∷ cs) (suc idx) spare =
    ap (λ l. (is_allowed c now).0 ∷ l) (allowed_now-set now cs idx spare)

length-allowed_now : (now : ℕ) (cs : List CircuitBreaker) → length (allowed_now now cs) ≡ length cs
unfolding allowed_now
length-allowed_now now [] = refl
length-allowed_now now (c ∷ cs) = ap suc (length-allowed_now now cs)

allowed_at-allowed_now :
    (now : ℕ) (cs : List CircuitBreaker) (idx : ℕ) (spare : CircuitBreaker)
    → idx < length cs
    → allowed_at (allowed_now now cs) idx ≡ (is_allowed (get_or cs idx spare) now).0
unfolding allowed_now
allowed_at-allowed_now now [] idx spare h = absurd (omega arith)
allowed_at-allowed_now now (c ∷ cs) zero spare h = refl
allowed_at-allowed_now now (c ∷ cs) (suc idx) spare h =
    allowed_at-allowed_now now cs idx spare (omega (arith, h))

scan-probe :
    (rounds start i now : ℕ) (cs : List CircuitBreaker) (spare : CircuitBreaker)
    → 0 < length cs
    → (scan rounds start i now cs spare).0 ≡ probe rounds start i (allowed_now now cs)
unfolding scan probe
scan-probe zero start i now cs spare h = refl
scan-probe (suc rounds) start i now cs spare h =
    let idx = u64 (start + i) % length cs in
    let asked = (is_allowed (get_or cs idx spare) now).1 in
    let next =
      scan-probe rounds start (i + 1) now (set cs idx asked) spare
        (omega (arith, h, length-set cs idx asked)) in
    let same = allowed_now-set now cs idx spare in
    let total = length-allowed_now now cs in
    let answer = allowed_at-allowed_now now cs idx spare (omega (arith, h)) in
    elim (Bool-cases (is_allowed (get_or cs idx spare) now).0) [
      | inl x ↦ rw (total, answer, x) refl
      | inr x ↦ rw (total, answer, x) (next ∙ ap (probe rounds start (i + 1)) same)
    ]

-- The pool, which asks its circuits one after another while it looks for a slot, picks the provider
-- that the round robin of the selection strategies picks among those that the circuits allow at that
-- time, where both have the same cursor, and leaves the cursors the same.
pub next_slot-select :
    (hash : String → ℕ) (p : ProviderPool) (s : SelectionState) (now : ℕ)
    → s.rr_cursor ≡ p.cursor
    → ((next_slot p now).0 ≡ (select hash s round_robin (allowed_now now p.slots)).0)
      × ((next_slot p now).1.cursor
          ≡ (select hash s round_robin (allowed_now now p.slots)).1.rr_cursor)
unfolding next_slot select select_round_robin
next_slot-select hash p s now h =
    let total = length-allowed_now now p.slots in
    elim (Bool-cases (length p.slots == 0)) [
      | inl x ↦ rw (next_slot, select, total, x) (refl, sym h)
      | inr x ↦
          let some_slot : 0 < length p.slots = ground (arith, x) in
          rw (next_slot, select, select_round_robin, total, h, x)
            (
              scan-probe (length p.slots) (p.cursor % length p.slots) 0 now p.slots _ some_slot,
              refl,
            )
    ]
