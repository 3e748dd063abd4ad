-- ===== src/Prelude/Int.antt =====
-- Signed integers over the native numbers, for `i64`: `negsuc n` is -(n + 1).
use chainkit.Prelude.{
  Bool, arith, if◌then◌else◌, leb, ltb, refl, suc, ℕ, ◌%◌, ◌+◌, ◌-◌, ◌<◌, ◌^◌, ◌≡◌, ◌≤◌,
}

pub data ℤ : Type 0 where
  pos : ℕ → ℤ
  negsuc : ℕ → ℤ

abbrev pub pos_part : ℤ → ℕ
pos_part (pos n) = n
pos_part (negsuc n) = 0

abbrev pub neg_part : ℤ → ℕ
neg_part (pos n) = 0
neg_part (negsuc n) = suc n

-- a - b, as an integer.
abbrev pub sub_ℕ : ℕ → ℕ → ℤ
sub_ℕ a b = if leb b a then pos (a - b) else negsuc (b - a - 1)

-- The two's complement value of an integer in 64 bits.
unfoldable pub i64 : ℤ → ℤ
i64 z =
    let bits = (pos_part z % 2 ^ 64 + 2 ^ 64 - neg_part z % 2 ^ 64) % 2 ^ 64 in
    if ltb bits (2 ^ 63) then pos bits else negsuc (2 ^ 64 - bits - 1)

infixl 65 ◌+ℤ◌
infix 50 ◌≤ℤ◌
unfoldable pub ◌+ℤ◌ : ℤ → ℤ → ℤ
a +ℤ b = sub_ℕ (pos_part a + pos_part b) (neg_part a + neg_part b)

abbrev pub ◌≤ℤ◌ : ℤ → ℤ → Type 0
a ≤ℤ b = pos_part a + neg_part b ≤ pos_part b + neg_part a

abbrev pub leb_ℤ : ℤ → ℤ → Bool
leb_ℤ a b = leb (pos_part a + neg_part b) (pos_part b + neg_part a)

i64_wraps : i64 (pos (2 ^ 63)) ≡ negsuc (2 ^ 63 - 1)
unfolding i64
i64_wraps = refl

-- In the range of `i64` the reduction changes nothing.
pub i64_in_range : (z : ℤ) → pos_part z < 2 ^ 63 → neg_part z ≤ 2 ^ 63 → i64 z ≡ z
unfolding i64
i64_in_range (pos n) h k = ground arith
i64_in_range (negsuc n) h k = ground arith
