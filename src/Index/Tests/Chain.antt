-- ===== src/Index/Tests/Chain.antt =====
-- The tracker and the reorg detector on a short chain.
use chainkit.Prelude.{
  All, String, [], arith, err, filter, leb, refl, reverse, take, ℕ, ◌∷◌, ◌≡◌, ◌≤◌,
}
use chainkit.Prelude.Int.{pos}
use chainkit.Index.Block.{Block, extends}
use chainkit.Index.Tracker.{Tracker, push, rewind_to, find_reorg_depth}
use chainkit.Index.Tracker.Window.{IsValid, push-IsValid}
use chainkit.Index.Tracker.Depth.{find_reorg_depth_exact, Misses, Stops}
use chainkit.Index.Tracker.Rewind.{rewind_to-eq-filter, rewind_to-IsValid}

abbrev block : ℕ → String → String → Block
block number hash parent = record {
  number = number;
  hash = hash;
  parent_hash = parent;
  timestamp = pos 0;
  tx_count = 0;
}

abbrev t : Tracker
t = record { window = block 10 "a" "z" ∷ block 11 "b" "a" ∷ block 12 "c" "b" ∷ []; window_size = 3 }

abbrev fork : Block
fork = block 13 "d'" "a"

t-IsValid : IsValid t
unfolding extends
t-IsValid = record { linked = (refl, (refl, tt)); bounded = omega arith }

push_extends :
    (push t (block 13 "d" "c")).1.window
    ≡ block 11 "b" "a" ∷ block 12 "c" "b" ∷ block 13 "d" "c" ∷ []
unfolding push extends
push_extends = refl

push-fork : push t fork ≡ (err 2, t)
unfolding push extends find_reorg_depth
push-fork = refl

push-IsValid_example : IsValid (push t fork).1
push-IsValid_example = push-IsValid t fork t-IsValid

find_reorg_depth_exact_example :
    let d = find_reorg_depth t fork in
    (d ≤ 3) × All (Misses "a") (take d (reverse t.window)) × Stops "a" (reverse t.window) d
find_reorg_depth_exact_example = find_reorg_depth_exact t fork

rewind_to-eq-filter_example : (rewind_to t 11).window ≡ filter (λ b. leb b.number 11) t.window
rewind_to-eq-filter_example = rewind_to-eq-filter t 11 t-IsValid (omega arith)

rewind_to-IsValid_example : IsValid (rewind_to t 10)
rewind_to-IsValid_example = rewind_to-IsValid t 10 t-IsValid
