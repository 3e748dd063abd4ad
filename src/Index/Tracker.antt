-- ===== src/Index/Tracker.antt =====
-- chainindex-core/src/tracker.rs: the sliding window of recent blocks, oldest first.
-- A method with `&mut self` returns the new tracker beside its result.
use chainkit.Prelude.{
  Bool, List, Option, Result, String, [], back, err, find?, if◌then◌else◌, leb, length, ltb, none,
  not, ok, pop_front, reverse, some, ℕ, ◌++◌, ◌-◌, ◌==◌, ◌∷◌, nat_eq, string_eq, pair_eq,
}
pub mod Window
pub mod Depth
pub mod Rewind
use chainkit.Index.Block.{Block, extends}

pub record Tracker : Type 0 where
  pub window : List Block
  pub window_size : ℕ

unfoldable pub new : ℕ → Tracker
new window_size = record { window = []; window_size = window_size }

-- The loop of `find_reorg_depth` over the blocks newest first; `total` is the length of the window,
-- and the index of the block at hand is the number of blocks behind it.
unfoldable pub scan : String → ℕ → List Block → ℕ
scan parent total [] = total
scan parent total (b ∷ older) =
    if b.hash == parent then total - 1 - length older else scan parent total older

unfoldable pub find_reorg_depth : Tracker → Block → ℕ
unfolding scan
find_reorg_depth t b = scan b.parent_hash (length t.window) (reverse t.window)

-- `push` where the head, if there is one, accepts the block
unfoldable pub append : Tracker → Block → Tracker
append t b = record t {
  window = (if leb t.window_size (length t.window) then pop_front t.window else t.window) ++ b ∷ [];
}

unfoldable pub push : Tracker → Block → Result (Unit {0}) ℕ × Tracker
unfolding append
push t b = elim (back t.window) [
  | none ↦ (ok tt, append t b)
  | some head ↦
      if not (extends b head) then (err (find_reorg_depth t b), t) else (ok tt, append t b)
]

unfoldable pub head : Tracker → Option Block
head t = back t.window

unfoldable pub get : Tracker → ℕ → Option Block
get t number = find? (λ b. b.number == number) t.window

unfoldable pub len : Tracker → ℕ
len t = length t.window

unfoldable pub is_empty : Tracker → Bool
is_empty t = len t == 0

-- The `while let` loop of `rewind_to`, over the blocks newest first.
unfoldable pub pop_above : ℕ → List Block → List Block
pop_above n [] = []
pop_above n (b ∷ older) = if ltb n b.number then pop_above n older else b ∷ older

unfoldable pub rewind_to : Tracker → ℕ → Tracker
unfolding pop_above
rewind_to t n = record t { window = reverse (pop_above n (reverse t.window)) }
