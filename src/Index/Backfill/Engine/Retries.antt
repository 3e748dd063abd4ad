-- ===== src/Index/Backfill/Engine/Retries.antt =====
-- The attempts at a segment.
use chainkit.Prelude.{
  List, Option, Result, Result-cases, String, arith, err, inl, inr, none, ok, refl, some, suc, zero,
  ℕ, ◌+◌, ◌<◌, ◌≡◌, ◌≤◌, ◌⊎◌,
}
use mathlib.Core.Path.{subst}
use native.Mathlib.Decide.{ℕ_discrete}
use chainkit.Index.Error.{IndexerError}
use chainkit.Index.Event.{DecodedEvent}
use chainkit.Index.Backfill.Engine.{attempts, run_attempts}

module _ {J : Type 0} (text : IndexerError → String)
    (try : ℕ → Result (List (DecodedEvent J)) IndexerError) where
  abbrev pub Fails : ℕ → Type 0
  Fails k = (e : IndexerError) × (try k ≡ err e)

  -- From the attempt `a` on, for `left` attempts: the first one that succeeds, or none of them does
  -- and the error of the last one is kept.
  abbrev pub Outcome :
      ℕ → ℕ → Option String → Result (List (DecodedEvent J)) (Option String) → Type 0
  Outcome a left last_error (ok events) =
      (k : ℕ) × (a ≤ k) × (k < a + left) × (try k ≡ ok events) × ((j : ℕ) → a ≤ j → j < k → Fails j)
  Outcome a left last_error (err m) =
      ((j : ℕ) → a ≤ j → j < a + left → Fails j)
      × (((left ≡ 0) × (m ≡ last_error))
          ⊎ ((k : ℕ) × (e : IndexerError) × (k + 1 ≡ a + left)
              × (try k ≡ err e)
              × (m ≡ some (text e))))

  Fails-step :
      (a n : ℕ)
      → Fails a
      → ((j : ℕ) → a + 1 ≤ j → j < n → Fails j)
      → (j : ℕ) → a ≤ j
      → j < n
      → Fails j
  Fails-step a n f g j h k = elim (ℕ_discrete a j) [
    | yes e ↦ subst Fails e f
    | no e ↦ g j (omega arith) k
  ]

  Outcome-step :
      (a left : ℕ) (e : IndexerError) (last_error : Option String)
      (r : Result (List (DecodedEvent J)) (Option String))
      → try a ≡ err e
      → Outcome (a + 1) left (some (text e)) r
      → Outcome a (suc left) last_error r
  Outcome-step a left e last_error (ok events) h (k, l, u, s, f) =
      (k, omega arith, omega arith, s, Fails-step a k (e, h) f)
  Outcome-step a left e last_error (err m) h (f, c) = (
    Fails-step a (a + suc left) (e, h) (λ j l u. f j l (omega arith)),
    inr (elim c [
      | inl (z, same) ↦ (a, e, omega arith, h, same)
      | inr (k, d, l, s, same) ↦ (k, d, omega arith, s, same)
    ]),
  )

  attempts-Outcome :
      (left a : ℕ) (last_error : Option String)
      → Outcome a left last_error (attempts text try left a last_error)
  unfolding attempts
  attempts-Outcome zero a last_error = (λ j l u. absurd (omega arith), inl (refl, refl))
  attempts-Outcome (suc left) a last_error = elim (Result-cases (try a)) [
    | inl (events, e) ↦
        rw (e, attempts) (a, omega arith, omega arith, e, λ j l u. absurd (omega arith))
    | inr (d, e) ↦
        rw (e, attempts)
          (Outcome-step a left d last_error _ e (attempts-Outcome left (a + 1) (some (text d))))
  ]

  -- A segment is tried once and then up to `retry_attempts` times more: it has the events of the
  -- first attempt that succeeds, and it fails only if every one of these attempts fails, with the
  -- error of the last.
  pub run_attempts-Outcome :
      (retry_attempts : ℕ)
      → Outcome 0 (suc retry_attempts) none (run_attempts text try retry_attempts)
  unfolding run_attempts
  run_attempts-Outcome retry_attempts = attempts-Outcome (suc retry_attempts) 0 none
