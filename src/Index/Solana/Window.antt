-- ===== src/Index/Solana/Window.antt =====
-- The window of slots: its order and size, and the gaps in it.
use chainkit.Prelude.{
  All, Bool-cases, List, String, [], ap, arith, count, false, filter, inl, inr, leb, length, ltb,
  none, not, refl, some, suc, true, u64, u64_max, ℕ, ◌&&◌, ◌+◌, ◌<◌, ◌∙◌, ◌∷◌, ◌≡◌, ◌≤◌, ◌⊎◌,
}
use chainkit.Index.Solana.{
  SolanaSlot, SlotTracker, new, contains_key, insert, evict, push_slot, last_key, first_from,
  is_slot_skipped,
}

abbrev pub Ascending : List SolanaSlot → Type 0
Ascending [] = Unit
Ascending (s ∷ ss) = All (λ (x : SolanaSlot). s.slot < x.slot) ss × Ascending ss

insert-All :
    (n : ℕ) (ss : List SolanaSlot) (s : SolanaSlot)
    → n < s.slot
    → All (λ (x : SolanaSlot). n < x.slot) ss
    → All (λ (x : SolanaSlot). n < x.slot) (insert ss s)
unfolding insert
insert-All n [] s p h = (p, tt)
insert-All n (x ∷ xs) s p h = elim (Bool-cases (ltb s.slot x.slot)) [
  | inl y ↦ rw y (p, h)
  | inr y ↦ rw y (h.0, insert-All n xs s p h.1)
]

All-lower :
    (n m : ℕ) (ss : List SolanaSlot)
    → n < m
    → All (λ (x : SolanaSlot). m < x.slot) ss
    → All (λ (x : SolanaSlot). n < x.slot) ss
All-lower n m [] p h = tt
All-lower n m (s ∷ ss) p h = (omega (arith, p, h.0), All-lower n m ss p h.1)

insert-Ascending :
    (ss : List SolanaSlot) (s : SolanaSlot)
    → contains_key ss s.slot ≡ false
    → Ascending ss
    → Ascending (insert ss s)
unfolding insert contains_key
insert-Ascending [] s c a = (tt, tt)
insert-Ascending (x ∷ xs) s c a = elim (Bool-cases (ltb s.slot x.slot)) [
  | inl y ↦ rw y ((ground (arith, y), All-lower s.slot x.slot xs (ground (arith, y)) a.0), a)
  | inr y ↦ rw y (
    insert-All x.slot xs s (ground (arith, y, c)) a.0,
    insert-Ascending xs s (ground (arith, c)) a.1,
  )
]

evict_lem :
    (n : ℕ) (ss : List SolanaSlot)
    → Ascending ss
    → Ascending (evict n ss) × (length (evict n ss) ≤ n)
unfolding evict
evict_lem n [] a = (tt, omega arith)
evict_lem n (s ∷ ss) a = elim (Bool-cases (ltb n (suc (length ss)))) [
  | inl x ↦ rw x (evict_lem n ss a.1)
  | inr x ↦ rw x (a, ground (arith, x))
]

abbrev pub push_all : (ℕ → String) → SlotTracker → List SolanaSlot → SlotTracker
push_all display t [] = t
push_all display t (s ∷ ss) = push_all display (push_slot display t s).1 ss

abbrev pub IsValid : SlotTracker → Type 0
IsValid t = Ascending t.slots × (length t.slots ≤ t.window_size)

push_slot-IsValid :
    (display : ℕ → String) (t : SlotTracker) (s : SolanaSlot)
    → IsValid t
    → IsValid (push_slot display t s).1
unfolding push_slot
push_slot-IsValid display t s v = elim (Bool-cases (contains_key t.slots s.slot)) [
  | inl x ↦ rw (x, push_slot) v
  | inr x ↦
      rw (x, push_slot)
        (evict_lem t.window_size (insert t.slots s) (insert-Ascending t.slots s x v.0))
]

push_from-IsValid :
    (display : ℕ → String) (t : SlotTracker) (ss : List SolanaSlot)
    → IsValid t
    → IsValid (push_all display t ss)
push_from-IsValid display t [] v = v
push_from-IsValid display t (s ∷ ss) v =
    push_from-IsValid display (push_slot display t s).1 ss (push_slot-IsValid display t s v)

-- In whatever order slots are pushed, and whether or not they were tracked before, the window holds
-- each slot once, in ascending order, and no more slots than its size.
pub push_all-IsValid :
    (display : ℕ → String) (window_size : ℕ) (ss : List SolanaSlot)
    → IsValid (push_all display (new window_size) ss)
unfolding new
push_all-IsValid display window_size ss =
    push_from-IsValid display (new window_size) ss (tt, omega arith)

last_key-below :
    (n : ℕ) (ss : List SolanaSlot)
    → ((last_key (filter (λ s. ltb s.slot n) ss) ≡ none) × (count (λ s. ltb s.slot n) ss ≡ 0))
      ⊎ ((a : ℕ) × (last_key (filter (λ s. ltb s.slot n) ss) ≡ some a)
          × (a < n)
          × (0 < count (λ s. ltb s.slot n) ss))
unfolding last_key
last_key-below n [] = inl (refl, refl)
last_key-below n (s ∷ ss) = elim (last_key-below n ss) [
  | inl (x, c) ↦ elim (Bool-cases (ltb s.slot n)) [
    | inl y ↦ rw (y, last_key, x) (inr (s.slot, refl, ground (arith, y), omega arith))
    | inr y ↦ rw y (inl (x, c))
  ]
  | inr (a, x, l, c) ↦ elim (Bool-cases (ltb s.slot n)) [
    | inl y ↦ rw (y, last_key, x) (inr (a, refl, l, omega arith))
    | inr y ↦ rw y (inr (a, x, l, c))
  ]
]

first_from-above :
    (n : ℕ) (ss : List SolanaSlot)
    → ((first_from (n + 1) ss ≡ none) × (count (λ s. ltb n s.slot) ss ≡ 0))
      ⊎ ((b : ℕ) × (first_from (n + 1) ss ≡ some b) × (n < b) × (0 < count (λ s. ltb n s.slot) ss))
unfolding first_from
first_from-above n [] = inl (refl, refl)
first_from-above n (s ∷ ss) = elim (Bool-cases (ltb n s.slot)) [
  | inl y ↦
      let at_least : leb (n + 1) s.slot ≡ true = ground (arith, y) in
      rw (y, at_least) (inr (s.slot, refl, ground (arith, y), omega arith))
  | inr y ↦
      let below : leb (n + 1) s.slot ≡ false = ground (arith, y) in
      rw (y, below) (first_from-above n ss)
]

-- A slot below the end of the words counts as skipped exactly where it is not tracked itself, and some
-- tracked slot is below it and another one above it.
pub is_slot_skipped-exact :
    (t : SlotTracker) (n : ℕ)
    → n < u64_max
    → is_slot_skipped t n ≡ (
        not (contains_key t.slots n)
        && ltb 0 (count (λ s. ltb s.slot n) t.slots)
        && ltb 0 (count (λ s. ltb n s.slot) t.slots))
unfolding is_slot_skipped
is_slot_skipped-exact t n h =
    let next : u64 (n + 1) ≡ n + 1 = omega (arith, h) in
    let shift = ap (λ k. first_from k t.slots) next in
    elim (last_key-below n t.slots) [
      | inl (x, c) ↦ rw (is_slot_skipped, x, c) (ground arith)
      | inr (a, x, l, c) ↦ elim (first_from-above n t.slots) [
        | inl (y, d) ↦ rw (is_slot_skipped, x, shift ∙ y, d) (ground arith)
        | inr (b, y, m, d) ↦ rw (is_slot_skipped, x, shift ∙ y) (ground (arith, l, m, c, d, h))
      ]
    ]
