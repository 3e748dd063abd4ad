-- ===== src/Rpc/Pool/Timeouts.antt =====
-- Requests that run into the time limit of the pool.
use chainkit.Prelude.{
  All, Bool-cases, List, [], ap, arith, err, false, get_or, inl, inr, length, refl, set, some, suc,
  sym, true, u64, zero, ℕ, ◌%◌, ◌+◌, ◌-◌, ◌<◌, ◌==◌, ◌∙◌, ◌∷◌, ◌≡◌, nat_eq, string_eq, pair_eq,
}
use mathlib.Core.Path.{subst}
use chainkit.Rpc.Error.{timeout, is_retryable}
use chainkit.Rpc.Circuit
use chainkit.Rpc.Circuit.{CircuitBreaker, closed, is_allowed}
use chainkit.Rpc.Pool.{ProviderPool, Attempt, timed_out, scan, next_slot, settle, send, answer_of}
use chainkit.Rpc.Pool.Outcomes.{run, get_or-All}

abbrev pub IsClosed : CircuitBreaker → Type 0
IsClosed c = c.state ≡ closed

closed-is_allowed : (c : CircuitBreaker) (now : ℕ) → IsClosed c → is_allowed c now ≡ (true, c)
unfolding is_allowed
closed-is_allowed c now h = rw h refl

set-get_or :
    (cs : List CircuitBreaker) (i : ℕ) (spare : CircuitBreaker) → set cs i (get_or cs i spare) ≡ cs
set-get_or [] i spare = refl
set-get_or (c ∷ cs) zero spare = refl
set-get_or (c ∷ cs) (suc i) spare = ap (λ l. c ∷ l) (set-get_or cs i spare)

scan-closed :
    (rounds start i now : ℕ) (cs : List CircuitBreaker) (spare : CircuitBreaker)
    → IsClosed spare
    → All IsClosed cs
    → scan (suc rounds) start i now cs spare ≡ (some (u64 (start + i) % length cs), cs)
unfolding scan
scan-closed rounds start i now cs spare s h =
    let idx = u64 (start + i) % length cs in
    let same = closed-is_allowed (get_or cs idx spare) now (get_or-All IsClosed cs idx spare s h) in
    rw (same, scan) (ap (λ l. (some idx, l)) (set-get_or cs idx spare))

next_slot-closed :
    (p : ProviderPool) (now : ℕ)
    → 0 < length p.slots
    → All IsClosed p.slots
    → (idx : ℕ) × ((next_slot p now).0 ≡ some idx) × ((next_slot p now).1.slots ≡ p.slots)
unfolding next_slot Circuit.new
next_slot-closed p now n h =
    let start = p.cursor % length p.slots in
    let spare = Circuit.new p.config.circuit_breaker in
    let count : length p.slots ≡ suc (length p.slots - 1) = omega (arith, n) in
    let found =
      ap (λ k. scan k start 0 now p.slots spare) count
      ∙ scan-closed (length p.slots - 1) start 0 now p.slots spare refl h in
    let some_slot : (length p.slots == 0) ≡ false = ground (arith, n) in
    rw (next_slot, some_slot, found) (_, refl, refl)

next_slot-config : (p : ProviderPool) (now : ℕ) → (next_slot p now).1.config ≡ p.config
unfolding next_slot
next_slot-config p now = elim (Bool-cases (length p.slots == 0)) [
  | inl x ↦ rw (next_slot, x) refl
  | inr x ↦ rw (next_slot, x) refl
]

-- a pool with a provider, all of whose circuits are closed
abbrev IsReady : List CircuitBreaker → Type 0
IsReady slots = (0 < length slots) × All IsClosed slots

module _ (J : Type 0) where
  -- every transport lets the time limit pass
  abbrev pub silence : ℕ → Attempt J
  silence idx = timed_out

  abbrev pub silent : List (ℕ × ℕ) → List (ℕ × ℕ × (ℕ → Attempt J))
  silent [] = []
  silent (t ∷ ts) = (t.0, t.1, silence) ∷ silent ts

  send-silence :
      (p : ProviderPool) (now later : ℕ)
      → 0 < length p.slots
      → All IsClosed p.slots
      → ((send {J = J} p now later silence).0 ≡ err (timeout p.config.request_timeout))
        × ((send {J = J} p now later silence).1.slots ≡ p.slots)
        × ((send {J = J} p now later silence).1.config ≡ p.config)
  unfolding send settle answer_of
  send-silence p now later n h =
      let (idx, x, same) = next_slot-closed p now n h in
      rw (x, send)
        (refl, (set-get_or (next_slot p now).1.slots idx _ ∙ same), next_slot-config p now)

  run-silent :
      (p : ProviderPool) (times : List (ℕ × ℕ))
      → IsReady p.slots
      → ((run {J = J} p (silent times)).slots ≡ p.slots)
        × ((run {J = J} p (silent times)).config ≡ p.config)
  run-silent p [] h = (refl, refl)
  run-silent p (t ∷ ts) h =
      let q = (send {J = J} p t.0 t.1 silence).1 in
      let (_, slots, config) = send-silence p t.0 t.1 h.0 h.1 in
      let (rest, kept) = run-silent q ts (subst IsReady (sym slots) h) in
      ((rest ∙ slots), (kept ∙ config))

  -- Where every circuit breaker of a pool with a provider is closed, requests that run into the time
  -- limit, however many, leave every circuit breaker as it was, so that the pool goes on to ask
  -- providers that do not answer, although a timeout counts as a retryable error.
  pub timeouts_trip_nothing :
      (p : ProviderPool) (times : List (ℕ × ℕ)) (now later : ℕ)
      → 0 < length p.slots
      → All IsClosed p.slots
      → let q = run {J = J} p (silent times) in
        (q.slots ≡ p.slots)
        × ((send {J = J} q now later silence).0 ≡ err (timeout p.config.request_timeout))
        × (is_retryable {J = J} (timeout p.config.request_timeout) ≡ true)
  timeouts_trip_nothing p times now later n h =
      let q = run {J = J} p (silent times) in
      let (slots, config) = run-silent p times (n, h) in
      let ready = subst IsReady (sym slots) (n, h) in
      let (answer, _, _) = send-silence q now later ready.0 ready.1 in
      (slots, (answer ∙ ap (λ c. err (timeout c.request_timeout)) config), refl)
