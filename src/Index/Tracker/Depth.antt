-- ===== src/Index/Tracker/Depth.antt =====
-- The reorg depth of tracker.rs.
use chainkit.Prelude.{
  All, Bool-cases, List, String, [], ap, arith, false, get_elem?, if◌then◌else◌, inl, inr, length,
  length-reverse, refl, reverse, some, suc, take, true, ℕ, ◌+◌, ◌==◌, ◌∷◌, ◌≡◌, ◌≤◌, ◌⊎◌, nat_eq,
  string_eq, pair_eq,
}
use chainkit.Index.Block.{Block}
use chainkit.Index.Tracker.{Tracker, scan, find_reorg_depth}

-- The number of blocks before the first one with the given hash: a reading of the depth that has
-- no index in it.
abbrev pub distance : String → List Block → ℕ
distance parent [] = 0
distance parent (b ∷ older) = if b.hash == parent then 0 else suc (distance parent older)

scan-eq :
    (parent : String) (l : List Block) (k total : ℕ)
    → total ≡ k + length l
    → scan parent total l ≡ k + distance parent l
unfolding scan
scan-eq parent [] k total h = omega arith
scan-eq parent (b ∷ older) k total h = elim (Bool-cases (b.hash == parent)) [
  | inl e ↦ rw e (omega arith)
  | inr e ↦ rw e (omega (arith, scan-eq parent older (suc k) total (omega arith)))
]

pub find_reorg_depth-eq-distance :
    (t : Tracker) (b : Block) → find_reorg_depth t b ≡ distance b.parent_hash (reverse t.window)
unfolding find_reorg_depth
find_reorg_depth-eq-distance t b = omega (
  arith,
  scan-eq b.parent_hash (reverse t.window) 0 (length t.window)
      (omega (arith, length-reverse t.window)),
)

pub distance-le-length : (parent : String) (l : List Block) → distance parent l ≤ length l
distance-le-length parent [] = omega arith
distance-le-length parent (b ∷ older) = ground (arith, distance-le-length parent older)

abbrev pub Misses : String → Block → Type 0
Misses parent c = (c.hash == parent) ≡ false

take-distance-Misses :
    (parent : String) (l : List Block) → All (Misses parent) (take (distance parent l) l)
take-distance-Misses parent [] = tt
take-distance-Misses parent (b ∷ older) = elim (Bool-cases (b.hash == parent)) [
  | inl e ↦ rw e tt
  | inr e ↦ rw e (e, take-distance-Misses parent older)
]

-- The block at index `d` has the hash, unless `d` is the length.
abbrev pub Stops : String → List Block → ℕ → Type 0
Stops parent l d =
    (d ≡ length l) ⊎ ((c : Block) × (get_elem? l d ≡ some c) × ((c.hash == parent) ≡ true))

distance-Stops : (parent : String) (l : List Block) → Stops parent l (distance parent l)
distance-Stops parent [] = inl refl
distance-Stops parent (b ∷ older) = elim (Bool-cases (b.hash == parent)) [
  | inl e ↦ rw e (inr (b, refl, e))
  | inr e ↦ rw e (elim (distance-Stops parent older) [ inl p ↦ inl (ap suc p) | inr q ↦ inr q ])
]

-- The depth of a reorg is at most the length of the window; none of that many newest blocks is the
-- parent of the new block; and the next older block is its parent, unless the window is used up.
pub find_reorg_depth_exact :
    (t : Tracker) (b : Block)
    → let d = find_reorg_depth t b in
      (d ≤ length t.window)
      × All (Misses b.parent_hash) (take d (reverse t.window))
      × Stops b.parent_hash (reverse t.window) d
find_reorg_depth_exact t b = rw find_reorg_depth-eq-distance (
  omega (arith, distance-le-length b.parent_hash (reverse t.window), length-reverse t.window),
  take-distance-Misses b.parent_hash (reverse t.window),
  distance-Stops b.parent_hash (reverse t.window),
)
