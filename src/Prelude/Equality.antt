-- ===== src/Prelude/Equality.antt =====
-- `==` of the source, for each type that is compared: numbers, texts and pairs of them.
use chainkit.Prelude.Tests.{◌==◌ as nat_beq, ==_iff, if◌then◌else◌}
use text.Mathlib.TextEquality.{eq_iff}
use text.Mathlib.Text.{◌==◌ as text_same}
use native.Mathlib.Omega.{arith}
use mathlib.Core.Bool.{Bool, true, false, ◌&&◌}
use mathlib.Core.List.{List, [], ◌∷◌}
use mathlib.Core.Path.{◌≡◌, refl, ap}
use mathlib.Core.Logic.{◌↔◌}
use Prim.Native.Nat.{ℕ}
use Prim.Native.String.{String}

-- The trait, with the law that its instances here keep.
pub record PartialEq {κ} (T : Type κ) : Type κ where
  pub same : T → T → Bool
  pub same_iff : (x y : T) → (same x y ≡ true) ↔ (x ≡ y)

pub pair_same_iff :
    (s t : String × String) → ((text_same s.0 t.0 && text_same s.1 t.1) ≡ true) ↔ (s ≡ t)
pair_same_iff (s, u) (t, v) = (
  λ h. ground (arith, eq_iff s t, eq_iff u v),
  λ p. ground (
    arith,
    eq_iff s t,
    eq_iff u v,
    ap (λ (x : String × String). x.0) p,
    ap (λ (x : String × String). x.1) p,
  ),
)

instance abbrev pub pair_eq : PartialEq (String × String)
pair_eq = record { same_iff = pair_same_iff; same = λ s t. text_same s.0 t.0 && text_same s.1 t.1 }

instance abbrev pub string_eq : PartialEq String
string_eq = record { same_iff = eq_iff; same = text_same }

instance abbrev pub nat_eq : PartialEq ℕ
nat_eq = record { same_iff = ==_iff; same = nat_beq }

infix 50 ◌==◌
abbrev pub ◌==◌ {κ} : {T : Type κ} ⦃d : PartialEq T⦄ → T → T → Bool
◌==◌ ⦃d⦄ x y = d.same x y

pub beq_refl {κ} : {T : Type κ} ⦃d : PartialEq T⦄ (x : T) → (x == x) ≡ true
beq_refl ⦃d⦄ x = (d.same_iff x x).1 refl

abbrev pub contains {κ} : {T : Type κ} ⦃d : PartialEq T⦄ → List T → T → Bool
contains [] y = false
contains (x ∷ xs) y = if x == y then true else contains xs y
