-- ===== src/Index/Tracker/Window.antt =====
-- The window of tracker.rs stays a chain of parents and children, and stays bounded.
use chainkit.Prelude.{
  Bool-cases, List, Option-cases, [], arith, back, if◌then◌else◌, inl, inr, leb, length,
  length-append, pop_front, refl, some, true, ℕ, ◌++◌, ◌-◌, ◌==◌, ◌∷◌, ◌≡◌, ◌≤◌, nat_eq, string_eq,
  pair_eq,
}
use chainkit.Index.Block.{Block, extends}
use chainkit.Index.Tracker.{Tracker, new, push, append}

-- Each block of the list extends the one before it.
abbrev pub IsLinked : List Block → Type 0
IsLinked [] = Unit
IsLinked (a ∷ []) = Unit
IsLinked (a ∷ b ∷ r) = (extends b a ≡ true) × IsLinked (b ∷ r)

-- A window of size 0 still takes one block: `push` evicts before it appends.
abbrev pub room : Tracker → ℕ
room t = if t.window_size == 0 then 1 else t.window_size

pub record IsValid (t : Tracker) : Type 0 where
  pub linked : IsLinked t.window
  pub bounded : length t.window ≤ room t

pub new-IsValid : (n : ℕ) → IsValid (new n)
unfolding new
new-IsValid n = record { linked = tt; bounded = omega arith }

pop_front-IsLinked : (w : List Block) → IsLinked w → IsLinked (pop_front w)
pop_front-IsLinked [] h = tt
pop_front-IsLinked (a ∷ []) h = tt
pop_front-IsLinked (a ∷ b ∷ r) h = h.1

IsLinked-append :
    (w : List Block) (b : Block)
    → ((h : Block) → back w ≡ some h → extends b h ≡ true)
    → IsLinked w
    → IsLinked (w ++ b ∷ [])
IsLinked-append [] b e h = tt
IsLinked-append (a ∷ []) b e h = (e a refl, tt)
IsLinked-append (a ∷ c ∷ r) b e h = (h.0, IsLinked-append (c ∷ r) b e h.1)

back-pop_front : (w : List Block) (h : Block) → back (pop_front w) ≡ some h → back w ≡ some h
back-pop_front [] h e = e
back-pop_front (a ∷ []) h e = cc
back-pop_front (a ∷ b ∷ r) h e = e

length-pop_front : (w : List Block) → length (pop_front w) ≡ length w - 1
length-pop_front [] = omega arith
length-pop_front (a ∷ w) = omega arith

pub append-IsValid :
    (t : Tracker) (b : Block)
    → ((h : Block) → back t.window ≡ some h → extends b h ≡ true)
    → IsValid t
    → IsValid (append t b)
unfolding append
append-IsValid t b e v = elim (Bool-cases (leb t.window_size (length t.window))) [
  | inl full ↦ rw full (record {
    linked =
        IsLinked-append (pop_front t.window) b (λ h p. e h (back-pop_front t.window h p))
          (pop_front-IsLinked t.window v.linked);
    bounded =
        ground (
          arith,
          v.bounded,
          length-append (pop_front t.window) (b ∷ []),
          length-pop_front t.window,
        );
  })
  | inr space ↦ rw space (record {
    linked = IsLinked-append t.window b e v.linked;
    bounded = ground (arith, length-append t.window (b ∷ []));
  })
]

-- Whatever block is pushed, accepted or not, a linked and bounded window stays linked and bounded.
pub push-IsValid : (t : Tracker) (b : Block) → IsValid t → IsValid (push t b).1
unfolding push
push-IsValid t b v = elim (Option-cases (back t.window)) [
  | inl e ↦ rw (e, push) (append-IsValid t b (λ h p. cc) v)
  | inr (h, e) ↦
      rw (e, push)
        (elim (Bool-cases (extends b h)) [
          | inl x ↦ rw x (append-IsValid t b (λ j p. cc) v)
          | inr x ↦ rw x v
        ])
]
