-- ===== src/Prelude/Outcome.antt =====
-- `Result<A, E>` and its `?`, and the double-ended view of a list that a `VecDeque` has.
use mathlib.Core.Path.{◌≡◌, refl, ap, ◌∙◌, subst}
use mathlib.Core.List.{List, [], ◌∷◌, ◌++◌, reverse, reverse-append}
use chainkit.Prelude.Lists.{All}
use Prim.Native.Nat.{ℕ}
use native.Mathlib.Omega.{arith}
use mathlib.Core.Logic.{◌⊎◌, inl, inr}
use mathlib.Core.Option.{Option, none, some}

pub data Result {ℓ κ} (A : Type ℓ) (E : Type κ) : Type (ℓ ⊔ κ) where
  ok : A → Result A E
  err : E → Result A E

pub Result-cases {ℓ κ} :
    {A : Type ℓ} {E : Type κ} (r : Result A E) → ((a : A) × (r ≡ ok a)) ⊎ ((e : E) × (r ≡ err e))
Result-cases (ok a) = inl (a, refl)
Result-cases (err e) = inr (e, refl)

infixl 5 ◌>>=◌ ◌>>◌
abbrev pub ◌>>=◌ {ℓ κ μ} :
    {A : Type ℓ} {B : Type κ} {E : Type μ} → Result A E → (A → Result B E) → Result B E
ok a >>= f = f a
err e >>= f = err e

abbrev pub ◌>>◌ {ℓ μ} : {B : Type ℓ} {E : Type μ} → Result (Unit {0}) E → Result B E → Result B E
m >> k = m >>= λ _. k

module _ {ℓ} {A : Type ℓ} where
  -- `back`, the newest element
  abbrev pub back : List A → Option A
  back [] = none
  back (x ∷ []) = some x
  back (x ∷ y ∷ xs) = back (y ∷ xs)

  abbrev pub pop_front : List A → List A
  pop_front [] = []
  pop_front (x ∷ xs) = xs

  pub back-snoc : (w : List A) (h : A) → back w ≡ some h → (r : List A) × (w ≡ r ++ h ∷ [])
  back-snoc [] h e = cc
  back-snoc (a ∷ []) h e = ([], ground arith)
  back-snoc (a ∷ b ∷ w) h e = let (r, p) = back-snoc (b ∷ w) h e in (a ∷ r, ap (λ l. a ∷ l) p)

  pub All-back {κ} : (P : A → Type κ) (w : List A) (h : A) → All P w → back w ≡ some h → P h
  All-back P [] h p e = cc
  All-back P (a ∷ []) h p e = subst P (ground arith) p.0
  All-back P (a ∷ b ∷ w) h p e = All-back P (b ∷ w) h p.1 e

  pub reverse-back : (w : List A) (h : A) → back w ≡ some h → (r : List A) × (reverse w ≡ h ∷ r)
  reverse-back w h e =
      let (r, p) = back-snoc w h e in (reverse r, ap reverse p ∙ reverse-append r (h ∷ []))

abbrev pub unwrap_or {ℓ} : {A : Type ℓ} → Option A → A → A
unwrap_or none d = d
unwrap_or (some a) d = a

abbrev pub or_zero : Option ℕ → ℕ
or_zero o = unwrap_or o 0
