-- ===== src/Prelude/Words.antt =====
-- Machine words: a `u32`, `u64` or `usize` value is a natural number, and an operation that may
-- leave the range of its type is reduced, as in a release build (no `overflow-checks`).
use Prim.Native.Nat.{ℕ, ◌+◌, ◌-◌, ◌%◌}

abbrev pub u32 : ℕ → ℕ
u32 n = n % 4294967296

abbrev pub u64 : ℕ → ℕ
u64 n = n % 18446744073709551616

-- `a - b` on `u64`: `-` on ℕ stops at 0, so the modulus is added first.
abbrev pub sub64 : ℕ → ℕ → ℕ
sub64 a b = (a + 18446744073709551616 - b) % 18446744073709551616

abbrev pub u64_max : ℕ
u64_max = 18446744073709551615

abbrev pub u128 : ℕ → ℕ
u128 n = n % 340282366920938463463374607431768211456

abbrev pub u128_max : ℕ
u128_max = 340282366920938463463374607431768211455
