-- ===== src/Rpc/Nonces/Allocation.antt =====
-- The nonces that a ledger hands out.
use chainkit.Prelude.{
  List, Option, String, [], ap, arith, false, if◌then◌else◌, inl, inr, ltb, none, or_zero, refl,
  some, suc, true, u64, u64_max, zero, ℕ, ◌+◌, ◌<◌, ◌==◌, ◌∙◌, ◌∷◌, ◌≡◌, ◌≤◌, ◌⊎◌, nat_eq,
  string_eq, pair_eq,
}
use Prim.Native.Nat.{max}
use native.Mathlib.Decide.{dec_lt}
use chainkit.HashMap
use chainkit.HashMap.Laws.{get-insert}
use chainkit.Rpc.Nonces.{NonceLedger, next, mark_pending, range, successor}

-- The confirmed and the pending nonce of an address.
abbrev pub confirmed_at : NonceLedger → String → Option ℕ
confirmed_at l a = HashMap.get l.confirmed a

abbrev pub pending_at : NonceLedger → String → Option ℕ
pending_at l a = HashMap.get l.pending a

pub same_string : (a : String) → (a == a) ≡ true
same_string a = ground (arith, string_eq.same_iff a a)

get-mark_pending :
    (l : NonceLedger) (a b : String) (n : ℕ)
    → pending_at (mark_pending l a n) b
      ≡ (if a == b then some (max n (or_zero (pending_at l a))) else pending_at l b)
unfolding mark_pending
get-mark_pending l a b n =
    let highest : (if ltb (or_zero (pending_at l a)) n then n else or_zero (pending_at l a))
        ≡ max n (or_zero (pending_at l a)) =
      ground arith in
    rw (← highest) (
      get-insert l.pending a b
        (if ltb (or_zero (pending_at l a)) n then n else or_zero (pending_at l a)))

confirmed-mark_pending :
    (l : NonceLedger) (a : String) (n : ℕ) → (mark_pending l a n).confirmed ≡ l.confirmed
unfolding mark_pending
confirmed-mark_pending l a n = refl

-- A stored nonce has a successor that does not wrap.
abbrev pub Below : Option ℕ → Type 0
Below none = Unit
Below (some n) = n < u64_max

successor_above : (o : Option ℕ) (n : ℕ) → Below o → o ≡ some n → successor o ≡ n + 1
successor_above none n b h = absurd cc
successor_above (some m) n b h = ground (arith, h, b)

max-successor :
    (c p : Option ℕ)
    → Below c
    → Below p
    → ((max (successor c) (successor p) ≡ 0) × (c ≡ none) × (p ≡ none))
      ⊎ ((n : ℕ) × (max (successor c) (successor p) ≡ n + 1) × ((c ≡ some n) ⊎ (p ≡ some n)))
max-successor none none hc hp = inl (refl, refl, refl)
max-successor none (some p) hc hp = inr (p, ground (arith, hp), inr refl)
max-successor (some c) none hc hp = inr (c, ground (arith, hc), inl refl)
max-successor (some c) (some p) hc hp = elim (dec_lt c p) [
  | yes less ↦ inr (p, omega (arith, hc, hp), inr refl)
  | no more ↦ inr (c, omega (arith, hc, hp), inl refl)
]

marked :
    (c p : Option ℕ)
    → Below p
    → max (successor c) (successor p) < u64_max
    → max (successor c) (u64 (max (max (successor c) (successor p)) (or_zero p) + 1))
      ≡ max (successor c) (successor p) + 1
marked none none b h = ground (arith, h)
marked none (some p) b h = omega (arith, h, b)
marked (some c) none b h = omega (arith, h)
marked (some c) (some p) b h = omega (arith, h, b)

-- If the confirmed and the pending nonce are below the largest `u64`, the next nonce is above both,
-- and is either 0, with neither set, or one above one of the two.
pub next_least :
    (l : NonceLedger) (a : String)
    → Below (confirmed_at l a)
    → Below (pending_at l a)
    → ((n : ℕ) → confirmed_at l a ≡ some n → n < next l a)
      × ((n : ℕ) → pending_at l a ≡ some n → n < next l a)
      × (((next l a ≡ 0) × (confirmed_at l a ≡ none) × (pending_at l a ≡ none))
          ⊎ ((n : ℕ) × (next l a ≡ n + 1)
              × ((confirmed_at l a ≡ some n) ⊎ (pending_at l a ≡ some n))))
unfolding next
next_least l a hc hp =
    let c = confirmed_at l a in
    let p = pending_at l a in
    (
      λ n h. omega (arith, successor_above c n hc h),
      λ n h. omega (arith, successor_above p n hp h),
      max-successor c p hc hp,
    )

-- What k calls in turn hand out, each marked pending before the next.
pub allocate : ℕ → NonceLedger → String → List ℕ × NonceLedger
allocate zero l a = ([], l)
allocate (suc k) l a =
    let n = next l a in let (ns, l') = allocate k (mark_pending l a n) a in (n ∷ ns, l')

or_zero-Below : (p : Option ℕ) (n : ℕ) → Below p → n < u64_max → max n (or_zero p) < u64_max
or_zero-Below none n b h = omega arith
or_zero-Below (some p) n b h = omega (arith, b)

next-mark_pending :
    (l : NonceLedger) (a : String)
    → Below (pending_at l a)
    → next l a < u64_max
    → next (mark_pending l a (next l a)) a ≡ next l a + 1
unfolding next
next-mark_pending l a b h =
    rw (get-mark_pending l a a (next l a), same_string a, confirmed-mark_pending l a (next l a))
      (marked (confirmed_at l a) (pending_at l a) b h)

marked-Below :
    (l : NonceLedger) (a : String)
    → Below (pending_at l a)
    → next l a < u64_max
    → Below (pending_at (mark_pending l a (next l a)) a)
marked-Below l a b h =
    rw (get-mark_pending l a a (next l a), same_string a)
      (or_zero-Below (pending_at l a) (next l a) b h)

next_other :
    (l : NonceLedger) (a b : String) (n : ℕ)
    → (a == b) ≡ false
    → next (mark_pending l a n) b ≡ next l b
unfolding next
next_other l a b n h = rw (get-mark_pending l a b n, h, confirmed-mark_pending l a n) refl

-- If the pending nonce is below the largest `u64` and the k nonces fit below it, nonces that are
-- handed out in turn follow each other with no gap and no repetition, and leave the next nonce of
-- every other address as it was.
pub allocate-eq-range :
    (k : ℕ) (l : NonceLedger) (a : String)
    → Below (pending_at l a)
    → next l a + k ≤ u64_max
    → ((allocate k l a).0 ≡ range (next l a) k)
      × (next (allocate k l a).1 a ≡ next l a + k)
      × ((b : String) → (a == b) ≡ false → next (allocate k l a).1 b ≡ next l b)
unfolding allocate
allocate-eq-range zero l a below h = (refl, omega arith, λ b n. refl)
allocate-eq-range (suc k) l a below h =
    let step = next-mark_pending l a below (omega arith) in
    let (taken, after, others) =
      allocate-eq-range k (mark_pending l a (next l a)) a (marked-Below l a below (omega arith))
        (omega (arith, step)) in
    (
      ap (λ ns. next l a ∷ ns) (taken ∙ ap (λ n. range n k) step),
      omega (arith, after, step),
      λ b n. others b n ∙ next_other l a b (next l a) n,
    )
