-- ===== src/Prelude/Hex.antt =====
-- Texts as the codes of their characters, and the hexadecimal numbers that the standard library reads.
use Prim.Native.Nat.{ℕ, ◌+◌, ◌-◌, ◌*◌}
use Prim.Native.String.{String}
use Prim.Native.Char.{code}
use mathlib.Core.Bool.{◌&&◌}
use mathlib.Core.List.{List, [], ◌∷◌}
use mathlib.Core.Option.{Option, none, some}
use chainkit.Prelude.Tests.{leb, if◌then◌else◌, ◌==◌}
use chainkit.Prelude.Words.{u64_max}

abbrev pub codes : String → List ℕ
codes String.[] = []
codes (String.◌∷◌ c s) = code c ∷ codes s

unfoldable pub to_digit : ℕ → Option ℕ
to_digit c =
    if leb 48 c && leb c 57
    then some (c - 48)
    else if leb 97 c && leb c 102
    then some (c - 87)
    else if leb 65 c && leb c 70
    then some (c - 55)
    else none

-- the digits of `u64::from_str_radix(s, 16)`, from the value that is read so far
unfoldable pub read_digits : ℕ → List ℕ → Option ℕ
unfolding to_digit
read_digits n [] = some n
read_digits n (c ∷ s) = elim (to_digit c) [
  | none ↦ none
  | some d ↦ if leb (n * 16 + d) u64_max then read_digits (n * 16 + d) s else none
]

-- `u64::from_str_radix(s, 16)`: a sign `+` may stand before the digits, of which there is one.
unfoldable pub from_str_radix_16 : List ℕ → Option ℕ
unfolding read_digits
from_str_radix_16 [] = none
from_str_radix_16 (c ∷ []) = if c == 43 then none else read_digits 0 (c ∷ [])
from_str_radix_16 (c ∷ d ∷ s) = if c == 43 then read_digits 0 (d ∷ s) else read_digits 0 (c ∷ d ∷ s)

-- `trim_start_matches("0x")`, which takes the prefix as often as it stands there
unfoldable pub trim_0x : List ℕ → List ℕ
trim_0x [] = []
trim_0x (c ∷ []) = c ∷ []
trim_0x (c ∷ d ∷ s) = let rest = trim_0x s in if c == 48 && d == 120 then rest else c ∷ d ∷ s
