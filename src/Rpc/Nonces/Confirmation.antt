-- ===== src/Rpc/Nonces/Confirmation.antt =====
-- The gaps below a pending nonce, and what a confirmation does to the next nonce.
use chainkit.Prelude.{
  Bool-cases, Option, Option-cases, String, ap, arith, get_elem?, if◌then◌else◌, inl, inr, leb, ltb,
  none, refl, some, suc, u64, u64_max, zero, ℕ, ◌+◌, ◌-◌, ◌<◌, ◌∙◌, ◌≡◌, ◌≤◌, nat_eq, string_eq,
  pair_eq,
}
use Prim.Native.Nat.{max}
use chainkit.HashMap.Laws.{get-insert, get-remove}
use chainkit.Rpc.Nonces.{NonceLedger, next, confirm, gaps, range, successor}
use chainkit.Rpc.Nonces.Allocation.{confirmed_at, pending_at, same_string}

get_elem-range :
    (from k i : ℕ) → get_elem? (range from k) i ≡ (if ltb i k then some (from + i) else none)
get_elem-range from zero i = ground arith
get_elem-range from (suc k) zero = ground arith
get_elem-range from (suc k) (suc i) = ground (arith, get_elem-range (from + 1) k i)

-- Where both nonces are set and the confirmed one is below the largest `u64`, the gaps are every
-- nonce above the confirmed one and below the pending one, in order, and nothing else.
pub gaps_exact :
    (l : NonceLedger) (a : String) (c p i : ℕ)
    → confirmed_at l a ≡ some c
    → pending_at l a ≡ some p
    → c < u64_max
    → get_elem? (gaps l a) i ≡ (if ltb (c + 1 + i) p then some (c + 1 + i) else none)
unfolding gaps
gaps_exact l a c p i hc hp b =
    let fits : u64 (c + 1) ≡ c + 1 = omega arith in
    rw (gaps, hc, hp, fits)
      (elim (Bool-cases (leb p (c + 1))) [
        | inl e ↦ rw e (ground arith)
        | inr e ↦ rw e (get_elem-range (c + 1) (p - (c + 1)) i ∙ ground arith)
      ])

-- The pending nonce that a confirmation leaves.
abbrev pub kept : Option ℕ → ℕ → Option ℕ
kept none n = none
kept (some p) n = if leb p n then none else some p

confirm_lem :
    (l : NonceLedger) (a : String) (n : ℕ)
    → (confirmed_at (confirm l a n) a ≡ some n)
      × (pending_at (confirm l a n) a ≡ kept (pending_at l a) n)
unfolding confirm
confirm_lem l a n =
    let inserted = get-insert l.confirmed a a n ∙ ground (arith, same_string a) in
    let removed = get-remove l.pending a a ∙ ground (arith, same_string a) in
    elim (Option-cases (pending_at l a)) [
      | inl e ↦ rw (e, confirm) (inserted, e)
      | inr (p, e) ↦ elim (Bool-cases (leb p n)) [
        | inl low ↦ rw (e, low, confirm) (inserted, removed)
        | inr high ↦ rw (e, high, confirm) (inserted, e)
      ]
    ]

-- After a nonce is confirmed the next one follows the larger of it and a pending nonce above it,
-- whatever was confirmed before.
pub next-confirm :
    (l : NonceLedger) (a : String) (n : ℕ)
    → next (confirm l a n) a ≡ max (successor (some n)) (successor (kept (pending_at l a) n))
unfolding next
next-confirm l a n =
    let (c, p) = confirm_lem l a n in
    ap (λ o. max (successor o) (successor (pending_at (confirm l a n) a))) c
    ∙ ap (λ o. max (successor (some n)) (successor o)) p

-- Confirming nonces out of order takes the next nonce back: where n is below the largest `u64`
-- and the pending nonce is not above n, it is n + 1 after n is confirmed, and m + 1 after a
-- smaller m is confirmed then, so that the nonces from m + 1 to n are handed out again.
pub confirm_out_of_order :
    (l : NonceLedger) (a : String) (n m p : ℕ)
    → pending_at l a ≡ some p
    → p ≤ n
    → m < n
    → n < u64_max
    → (next (confirm l a n) a ≡ n + 1) × (next (confirm (confirm l a n) a m) a ≡ m + 1)
confirm_out_of_order l a n m p h q r b =
    let cleared : kept (pending_at l a) n ≡ none = rw h (ground arith) in
    let still : kept (pending_at (confirm l a n) a) m ≡ none =
      rw ((confirm_lem l a n).1, cleared) refl in
    (
      next-confirm l a n ∙ rw cleared (omega arith),
      next-confirm (confirm l a n) a m ∙ rw still (omega arith),
    )
