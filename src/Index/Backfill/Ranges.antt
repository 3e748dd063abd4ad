-- ===== src/Index/Backfill/Ranges.antt =====
-- One round of the two loops that walk a range in parts.
use chainkit.Prelude.{arith, inl, inr, some, sub64, u64, u64_max, ℕ, ◌+◌, ◌-◌, ◌<◌, ◌≡◌, ◌≤◌, ◌⊎◌}
use native.Mathlib.Decide.{dec_lt}
use chainkit.Index.Backfill.{range_end, checked_add}

-- Where nothing wraps, a part ends at its size or at the end of the range, and the next one starts
-- right after it.
pub range_end_lem :
    (current size to_block : ℕ)
    → current ≤ to_block
    → 0 < size
    → to_block + size ≤ u64_max
    → (current ≤ range_end current size to_block)
      × (range_end current size to_block ≤ to_block)
      × (range_end current size to_block < current + size)
      × (range_end current size to_block + 1 ≤ u64_max)
      × ((range_end current size to_block ≡ to_block)
          ⊎ (range_end current size to_block + 1 ≡ current + size))
unfolding range_end
range_end_lem current size to_block h p b =
    let wraps : sub64 (u64 (current + size)) 1 ≡ current + size - 1 = omega arith in
    rw wraps (
      omega arith,
      omega arith,
      omega arith,
      omega arith,
      elim (dec_lt to_block (current + size - 1)) [
        | yes l ↦ inl (omega arith)
        | no l ↦ inr (omega arith)
      ],
    )

pub next_part : (last : ℕ) → last + 1 ≤ u64_max → checked_add last 1 ≡ some (last + 1)
next_part last h = ground arith
