-- ===== src/Index/Reorg/Dropped.antt =====
-- reorg.rs against tracker.rs, and against a description of the fork.
use chainkit.Prelude.{
  All, Bool-cases, List, String, [], ap, arith, false, if◌then◌else◌, inl, inr, leb, length, none,
  refl, reverse, some, take, true, ℕ, ◌<◌, ◌==◌, ◌∷◌, ◌≡◌, ◌≤◌, nat_eq, string_eq, pair_eq,
}
use chainkit.Index.Block.{Block, extends}
use chainkit.Index.Tracker.{Tracker, find_reorg_depth}
use chainkit.Index.Tracker.Depth.{
  distance, find_reorg_depth-eq-distance, find_reorg_depth_exact, Misses, Stops,
}
use chainkit.Index.Reorg.{
  short_reorg, deep_reorg, ReorgEvent, ReorgDetector, collect, find_dropped_blocks, check,
  regression, check_finalized,
}

collect-eq-take : (parent : String) (l : List Block) → collect parent l ≡ take (distance parent l) l
unfolding collect
collect-eq-take parent [] = refl
collect-eq-take parent (b ∷ older) = elim (Bool-cases (b.hash == parent)) [
  | inl e ↦ rw e refl
  | inr e ↦ rw e (ap (λ l. b ∷ l) (collect-eq-take parent older))
]

length-collect : (parent : String) (l : List Block) → length (collect parent l) ≡ distance parent l
unfolding collect
length-collect parent [] = refl
length-collect parent (b ∷ older) = ground (arith, length-collect parent older)

-- The detector and the tracker agree: the blocks that `find_dropped_blocks` lists are the newest
-- ones of the window, newest first, as many as the tracker's `find_reorg_depth` says.
find_dropped_blocks-eq-take :
    (t : Tracker) (b : Block)
    → find_dropped_blocks b t.window
      ≡ (take (find_reorg_depth t b) (reverse t.window), find_reorg_depth t b)
unfolding find_dropped_blocks
find_dropped_blocks-eq-take t b = rw (find_reorg_depth-eq-distance, length-collect, collect-eq-take)

-- What a reported reorg says of the fork.
pub record IsFork (b : Block) (window : List Block) (e : ReorgEvent) : Type 0 where
  pub at : e.detected_at ≡ b.number
  pub newest : e.dropped_blocks ≡ take e.depth (reverse window)
  pub dropped : All (Misses b.parent_hash) e.dropped_blocks
  pub stops : Stops b.parent_hash (reverse window) e.depth
  pub short : e.depth ≤ 3 → e.reorg_type ≡ short_reorg
  pub deep : 3 < e.depth → e.reorg_type ≡ deep_reorg

fork_event : Block → List Block → ℕ → ReorgEvent
fork_event b window d = record {
  detected_at = b.number;
  dropped_blocks = take d (reverse window);
  depth = d;
  reorg_type = if leb d 3 then short_reorg else deep_reorg;
}

fork_event-IsFork :
    (t : Tracker) (b : Block) → IsFork b t.window (fork_event b t.window (find_reorg_depth t b))
unfolding fork_event
fork_event-IsFork t b =
    let exact = find_reorg_depth_exact t b in
    record {
      at = refl;
      newest = refl;
      dropped = exact.1;
      stops = exact.2;
      short = λ h. ground arith;
      deep = λ h. ground arith;
    }

-- `check` reports nothing for a block that extends the head; for any other it reports the fork:
-- the newest blocks down to the parent, none of which is the parent, short up to 3 blocks.
-- The detector does not change.
pub check_lem :
    (d : ReorgDetector) (b head : Block) (t : Tracker)
    → (extends b head ≡ true → check d b head t.window ≡ (none, d))
      × (extends b head ≡ false
          → (e : ReorgEvent) × (check d b head t.window ≡ (some e, d)) × IsFork b t.window e)
unfolding check
check_lem d b head t = (
  λ h. rw h refl,
  λ h. (
    fork_event b t.window (find_reorg_depth t b),
    rw (h, find_dropped_blocks-eq-take t b) (unfold fork_event in refl),
    fork_event-IsFork t b,
  ),
)

-- Two reports in turn, from any earlier state: the second is an event exactly when it is below the
-- first, its depth is the positive difference, it drops the blocks above, and it is remembered.
pub check_finalized_twice :
    (d : ReorgDetector) (n m : ℕ) (w v : List Block)
    → let d' = (check_finalized d n w).1 in
      (n ≤ m → (check_finalized d' m v).0 ≡ none)
      × (m < n
          → (check_finalized d' m v).0 ≡ some (regression n m v) × (0 < (regression n m v).depth))
      × ((check_finalized d' m v).1.last_finalized ≡ some m)
unfolding check_finalized
check_finalized_twice d n m w v =
    (λ h. ground arith, λ h. (ground arith, ground arith), ground arith)
