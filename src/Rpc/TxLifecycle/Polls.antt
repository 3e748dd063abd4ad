-- ===== src/Rpc/TxLifecycle/Polls.antt =====
-- The polls for a receipt.
use chainkit.Prelude.{
  Bool, Bool-cases, Option, Result, Result-cases, ap, arith, err, if◌then◌else◌, inl, inr, ltb,
  none, ok, refl, some, suc, u32, zero, ℕ, ◌+◌, ◌-◌, ◌<◌, ◌∙◌, ◌≡◌, ◌≤◌,
}
use chainkit.Rpc.Error.{TransportError}
use chainkit.Rpc.Request.{Value, JsonRpcResponse}
use chainkit.Rpc.TxLifecycle.{ReceiptPoller, delay_for_attempt, value_of, poll_receipt}

module _ {J : Type 0} (ops : Value J) (is_null : J → Bool) (p : ReceiptPoller)
    (reply : ℕ → Result (JsonRpcResponse J) (TransportError J)) where
  -- The first error or receipt among a number of answers, from an attempt on.
  abbrev pub first_answer : ℕ → ℕ → Result (Option J) (TransportError J)
  first_answer zero attempt = ok none
  first_answer (suc n) attempt = elim (value_of ops (reply attempt)) [
    | err e ↦ err e
    | ok v ↦ if is_null v then first_answer n (attempt + 1) else ok (some v)
  ]

  poll_from :
      (fuel attempt : ℕ)
      → p.max_attempts < 4294967295
      → attempt ≤ p.max_attempts + 1
      → p.max_attempts + 1 < attempt + fuel
      → poll_receipt ops is_null p reply fuel attempt
        ≡ some (first_answer (p.max_attempts + 1 - attempt) attempt)
  unfolding poll_receipt delay_for_attempt
  poll_from zero attempt m h k = absurd (omega arith)
  poll_from (suc fuel) attempt m h k = elim (Bool-cases (ltb p.max_attempts attempt)) [
    | inl x ↦
        let none_left : p.max_attempts + 1 - attempt ≡ 0 = ground (arith, x) in
        rw (none_left, poll_receipt, delay_for_attempt, x) refl
    | inr x ↦
        let left : p.max_attempts + 1 - attempt ≡ suc (p.max_attempts + 1 - (attempt + 1)) =
          ground (arith, x) in
        elim (Result-cases (value_of ops (reply attempt))) [
          | inr (e, y) ↦ rw (left, first_answer, poll_receipt, delay_for_attempt, x, y) refl
          | inl (v, y) ↦ elim (Bool-cases (is_null v)) [
            | inr z ↦ rw (left, first_answer, poll_receipt, delay_for_attempt, x, y, z) refl
            | inl z ↦
                let next : u32 (attempt + 1) ≡ attempt + 1 = ground (arith, x) in
                rw (left, first_answer, poll_receipt, delay_for_attempt, x, y, z, next)
                  (poll_from fuel (attempt + 1) m (ground (arith, x)) (omega arith))
          ]
        ]
  ]

  -- Where the number of attempts is below the largest `u32`, the polling ends after at most that many
  -- questions to the node, and returns the first error or receipt among the answers to them, or that there
  -- is none.
  pub poll_receipt-Ends :
      p.max_attempts < 4294967295
      → poll_receipt ops is_null p reply (p.max_attempts + 1) 1
        ≡ some (first_answer p.max_attempts 1)
  poll_receipt-Ends m =
      let all : p.max_attempts + 1 - 1 ≡ p.max_attempts = omega arith in
      poll_from (p.max_attempts + 1) 1 m (omega arith) (omega arith)
      ∙ ap (λ n. some (first_answer n 1)) all
