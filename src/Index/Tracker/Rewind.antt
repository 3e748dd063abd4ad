-- ===== src/Index/Tracker/Rewind.antt =====
-- `rewind_to` of tracker.rs.
use mathlib.Core.List.{reverse-append, reverse-reverse, reverse-cons}
use chainkit.Prelude.{
  All, Bool-cases, List, [], ap, arith, filter, inl, inr, leb, leb→le, length, length-reverse, ltb,
  refl, reverse, sym, u64_max, ℕ, ◌++◌, ◌<◌, ◌∙◌, ◌∷◌, ◌≡◌, ◌≤◌,
}
use chainkit.Index.Block.{Block, extends-number}
use chainkit.Index.Tracker.{Tracker, pop_above, rewind_to}
use chainkit.Index.Tracker.Window.{IsLinked, IsValid}

-- No number is the last of its type, so no `+ 1` wraps.
abbrev pub InRange : Block → Type 0
InRange b = b.number < u64_max

-- Oldest first: every later number is larger.
abbrev Climbs : List Block → Type 0
Climbs [] = Unit
Climbs (a ∷ r) = All (λ (c : Block). a.number < c.number) r × Climbs r

All-lt_trans :
    (m n : ℕ) (r : List Block)
    → m < n
    → All (λ (c : Block). n < c.number) r
    → All (λ (c : Block). m < c.number) r
All-lt_trans m n [] h k = tt
All-lt_trans m n (c ∷ r) h k = (omega (arith, k.0), All-lt_trans m n r h k.1)

Climbs-of_IsLinked : (w : List Block) → IsLinked w → All InRange w → Climbs w
Climbs-of_IsLinked [] h r = tt
Climbs-of_IsLinked (a ∷ []) h r = (tt, tt)
Climbs-of_IsLinked (a ∷ b ∷ w) h r =
    let rest = Climbs-of_IsLinked (b ∷ w) h.1 r.1 in
    let step : a.number < b.number = omega (arith, extends-number b a h.0, r.0) in
    ((step, All-lt_trans a.number b.number w step rest.0), rest)

pop_above-append_le :
    (n : ℕ) (l : List Block) (a : Block)
    → a.number ≤ n
    → pop_above n (l ++ a ∷ []) ≡ pop_above n l ++ a ∷ []
unfolding pop_above
pop_above-append_le n [] a h = ground arith
pop_above-append_le n (b ∷ l) a h = ground (arith, pop_above-append_le n l a h)

pop_above-append_gt :
    (n : ℕ) (l : List Block) (a : Block)
    → n < a.number
    → pop_above n l ≡ []
    → pop_above n (l ++ a ∷ []) ≡ []
unfolding pop_above
pop_above-append_gt n [] a h e = ground arith
pop_above-append_gt n (b ∷ l) a h e = ground (arith, pop_above-append_gt n l a h)

filter-eq-nil :
    (n : ℕ) (w : List Block)
    → All (λ (c : Block). n < c.number) w
    → filter (λ b. leb b.number n) w ≡ []
filter-eq-nil n [] h = refl
filter-eq-nil n (a ∷ w) h = ground (arith, filter-eq-nil n w h.1, h.0)

pop_above-eq-filter :
    (n : ℕ) (w : List Block)
    → Climbs w
    → reverse (pop_above n (reverse w)) ≡ filter (λ b. leb b.number n) w
unfolding pop_above
pop_above-eq-filter n [] h = refl
pop_above-eq-filter n (a ∷ w) h = elim (Bool-cases (leb a.number n)) [
  | inl e ↦
      rw (e, reverse-cons, pop_above-append_le n (reverse w) a (leb→le _ _ e), reverse-append)
        (ap (λ l. a ∷ l) (pop_above-eq-filter n w h.1))
  | inr e ↦
      let above : filter (λ b. leb b.number n) w ≡ [] =
        filter-eq-nil n w (All-lt_trans n a.number w (ground arith) h.0) in
      let gone : pop_above n (reverse w) ≡ [] =
        sym (reverse-reverse (pop_above n (reverse w)))
        ∙ ap reverse (pop_above-eq-filter n w h.1 ∙ above) in
      rw (e, reverse-cons, pop_above-append_gt n (reverse w) a (ground arith) gone, above)
]

-- On a linked window whose numbers are in range, rewinding to `n` keeps exactly the blocks with
-- number at most `n`, in order, although the loop only looks at the newest one in turn.
pub rewind_to-eq-filter :
    (t : Tracker) (n : ℕ)
    → IsValid t
    → All InRange t.window
    → (rewind_to t n).window ≡ filter (λ b. leb b.number n) t.window
unfolding rewind_to
rewind_to-eq-filter t n v r =
    pop_above-eq-filter n t.window (Climbs-of_IsLinked t.window v.linked r)

IsLinked-init : (w : List Block) (b : Block) → IsLinked (w ++ b ∷ []) → IsLinked w
IsLinked-init [] b h = tt
IsLinked-init (a ∷ []) b h = tt
IsLinked-init (a ∷ c ∷ w) b h = (h.0, IsLinked-init (c ∷ w) b h.1)

pop_above-IsLinked :
    (n : ℕ) (l : List Block) → IsLinked (reverse l) → IsLinked (reverse (pop_above n l))
unfolding pop_above
pop_above-IsLinked n [] h = h
pop_above-IsLinked n (b ∷ l) h = elim (Bool-cases (ltb n b.number)) [
  | inl e ↦ rw e (pop_above-IsLinked n l (IsLinked-init (reverse l) b (rw reverse-cons at h)))
  | inr e ↦ rw e h
]

length-pop_above : (n : ℕ) (l : List Block) → length (pop_above n l) ≤ length l
unfolding pop_above
length-pop_above n [] = omega arith
length-pop_above n (b ∷ l) = ground (arith, length-pop_above n l)

-- Rewinding keeps the window linked and bounded, to whatever number.
pub rewind_to-IsValid : (t : Tracker) (n : ℕ) → IsValid t → IsValid (rewind_to t n)
unfolding rewind_to
rewind_to-IsValid t n v = record {
  linked = pop_above-IsLinked n (reverse t.window) (rw reverse-reverse v.linked);
  bounded = omega (
    arith,
    v.bounded,
    length-reverse (pop_above n (reverse t.window)),
    length-pop_above n (reverse t.window),
    length-reverse t.window,
  );
}
