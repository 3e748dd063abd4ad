-- ===== src/Rpc/Pool/Outcomes.antt =====
-- What sequences of requests make of the circuits of the pool.
use chainkit.Prelude.{
  All, Bool-cases, List, Option-cases, [], err, get_or, inl, inr, length, ok, set, suc, u64, zero,
  ℕ, ◌%◌, ◌+◌, ◌==◌, ◌∷◌, nat_eq, string_eq, pair_eq,
}
use chainkit.Rpc.Error.{is_retryable}
use chainkit.Rpc.Circuit.{
  CircuitBreakerConfig, CircuitBreaker, ask, success, failure, step, is_allowed,
}
use chainkit.Rpc.Circuit.Invariant.{IsValid, new-IsValid, step-IsValid}
use chainkit.Rpc.Pool.{
  ProviderPool, ProviderPoolConfig, Attempt, timed_out, answered, new, closed_slots, scan,
  next_slot, settle, send,
}

set-All :
    (P : CircuitBreaker → Type 0) (cs : List CircuitBreaker) (i : ℕ) (c : CircuitBreaker)
    → P c
    → All P cs
    → All P (set cs i c)
set-All P [] i c p h = tt
set-All P (b ∷ cs) zero c p h = (p, h.1)
set-All P (b ∷ cs) (suc i) c p h = (h.0, set-All P cs i c p h.1)

pub get_or-All :
    (P : CircuitBreaker → Type 0) (cs : List CircuitBreaker) (i : ℕ) (spare : CircuitBreaker)
    → P spare
    → All P cs
    → P (get_or cs i spare)
get_or-All P [] i spare p h = p
get_or-All P (b ∷ cs) zero spare p h = h.0
get_or-All P (b ∷ cs) (suc i) spare p h = get_or-All P cs i spare p h.1

scan-IsValid :
    (rounds start i now : ℕ) (cs : List CircuitBreaker) (spare : CircuitBreaker)
    → IsValid spare
    → All IsValid cs
    → All IsValid (scan rounds start i now cs spare).1
unfolding scan is_allowed step
scan-IsValid zero start i now cs spare v h = h
scan-IsValid (suc rounds) start i now cs spare v h =
    let idx = u64 (start + i) % length cs in
    let c = get_or cs idx spare in
    let asked =
      set-All IsValid cs idx (is_allowed c now).1
        (step-IsValid c (ask now) (get_or-All IsValid cs idx spare v h)) h in
    let rest =
      scan-IsValid rounds start (i + 1) now (set cs idx (is_allowed c now).1) spare v asked in
    elim (Bool-cases (is_allowed c now).0) [ inl x ↦ rw x asked | inr x ↦ rw x rest ]

next_slot-IsValid :
    (p : ProviderPool) (now : ℕ) → All IsValid p.slots → All IsValid (next_slot p now).1.slots
unfolding next_slot
next_slot-IsValid p now h = elim (Bool-cases (length p.slots == 0)) [
  | inl x ↦ rw x h
  | inr x ↦ rw x (
      scan-IsValid (length p.slots) (p.cursor % length p.slots) 0 now p.slots _
        (new-IsValid p.config.circuit_breaker) h)
]

closed_slots-IsValid : (n : ℕ) (config : CircuitBreakerConfig) → All IsValid (closed_slots n config)
unfolding closed_slots
closed_slots-IsValid zero config = tt
closed_slots-IsValid (suc n) config = (new-IsValid config, closed_slots-IsValid n config)

module _ {J : Type 0} where
  settle-IsValid :
      (a : Attempt J) (later : ℕ) (c : CircuitBreaker) → IsValid c → IsValid (settle a later c)
  unfolding settle step
  settle-IsValid timed_out later c v = v
  settle-IsValid (answered (ok response)) later c v = step-IsValid c (success later) v
  settle-IsValid (answered (err e)) later c v = elim (Bool-cases (is_retryable e)) [
    | inl x ↦ rw x (step-IsValid c (failure later) v)
    | inr x ↦ rw x v
  ]

  send-IsValid :
      (p : ProviderPool) (now later : ℕ) (transports : ℕ → Attempt J)
      → All IsValid p.slots
      → All IsValid (send p now later transports).1.slots
  unfolding send
  send-IsValid p now later transports h =
      let q = (next_slot p now).1 in
      let kept = next_slot-IsValid p now h in
      elim (Option-cases (next_slot p now).0) [
        | inl x ↦ rw (x, send) kept
        | inr (idx, x) ↦
            rw (x, send)
              (set-All IsValid q.slots idx _
                (settle-IsValid (transports idx) later _
                  (get_or-All IsValid q.slots idx _ (new-IsValid p.config.circuit_breaker) kept))
                kept)
      ]

  -- requests, each with the time when its slot is picked, the time when its answer is there, and what
  -- comes of asking each slot
  abbrev pub run : ProviderPool → List (ℕ × ℕ × (ℕ → Attempt J)) → ProviderPool
  run p [] = p
  run p (r ∷ rs) = run (send p r.0 r.1 r.2).1 rs

  run_from-IsValid :
      (p : ProviderPool) (rs : List (ℕ × ℕ × (ℕ → Attempt J)))
      → All IsValid p.slots
      → All IsValid (run p rs).slots
  run_from-IsValid p [] h = h
  run_from-IsValid p (r ∷ rs) h =
      run_from-IsValid (send p r.0 r.1 r.2).1 rs (send-IsValid p r.0 r.1 r.2 h)

  -- Whatever the transports of a pool answer to any requests, and whenever, every circuit breaker of
  -- the pool stays well formed.
  pub run_requests-IsValid :
      (n : ℕ) (config : ProviderPoolConfig) (rs : List (ℕ × ℕ × (ℕ → Attempt J)))
      → All IsValid (run (new n config) rs).slots
  unfolding new
  run_requests-IsValid n config rs =
      run_from-IsValid (new n config) rs (closed_slots-IsValid n config.circuit_breaker)
