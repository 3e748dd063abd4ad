-- ===== src/Index/LiveLoop/Recovery.antt =====
-- How far the live loop rewinds after a reorg.
use chainkit.Prelude.{
  All, All-back, List, [], arith, back, eq_iff, err, false, filter, leb, length, length-reverse,
  reverse, reverse-back, some, u64, ℕ, ◌+◌, ◌-◌, ◌<◌, ◌∙◌, ◌∷◌, ◌≡◌, ◌≤◌,
}
use chainkit.Index.Block.{Block, extends, extends-number}
use chainkit.Index.Tracker.{Tracker, head, push, find_reorg_depth}
use chainkit.Index.Tracker.Window.{IsLinked, IsValid}
use chainkit.Index.Tracker.Depth.{distance, distance-le-length, find_reorg_depth-eq-distance}
use chainkit.Index.LiveLoop.{recover}
use chainkit.Index.Tracker.Rewind.{InRange, rewind_to-eq-filter}

-- Numbers count up from the oldest block: the block at index i has the oldest number plus i.
last_number :
    (a : Block) (r : List Block) (h : Block)
    → IsLinked (a ∷ r)
    → All InRange (a ∷ r)
    → back (a ∷ r) ≡ some h
    → h.number ≡ a.number + length r
last_number a [] h l i e = ground arith
last_number a (b ∷ r) h l i e =
    omega (arith, last_number b r h l.1 i.1 e, extends-number b a l.0, i.0)

-- Of a linked list whose oldest number is m, the blocks up to m + k number k + 1, or all.
count_up_to :
    (a : Block) (r : List Block) (n : ℕ)
    → IsLinked (a ∷ r)
    → All InRange (a ∷ r)
    → n ≤ a.number + length r
    → length (filter (λ b. leb b.number n) (a ∷ r)) ≡ n + 1 - a.number
count_up_to a [] n l i h = ground arith
count_up_to a (b ∷ r) n l i h =
    ground (arith, count_up_to b r n l.1 i.1, extends-number b a l.0, i.0)

-- The newest block is not the parent, so at least one block is to be dropped.
distance-pos :
    (w : List Block) (h b : Block)
    → back w ≡ some h
    → b.number ≡ u64 (h.number + 1)
    → extends b h ≡ false
    → 0 < distance b.parent_hash (reverse w)
unfolding extends
distance-pos w h b e n x =
    let (r, p) = reverse-back w h e in
    rw p (ground (arith, n, x, eq_iff b.parent_hash h.hash, eq_iff h.hash b.parent_hash))

push_refused :
    (t : Tracker) (h b : Block) (d : ℕ)
    → back t.window ≡ some h
    → push t b ≡ (err d, t)
    → (extends b h ≡ false) × (d ≡ find_reorg_depth t b)
unfolding push
push_refused t h b d e p = ground arith

filter_recovered :
    (w : List Block) (h b : Block) (d : ℕ)
    → IsLinked w
    → All InRange w
    → back w ≡ some h
    → b.number ≡ u64 (h.number + 1)
    → 0 < d
    → d ≤ length w
    → length (filter (λ c. leb c.number (b.number - d)) w) + d ≡ length w + 1
filter_recovered [] h b d l i e n p q = absurd (omega arith)
filter_recovered (a ∷ r) h b d l i e n p q = omega (
  arith,
  last_number a r h l i e,
  All-back InRange (a ∷ r) h i e,
  count_up_to a r (b.number - d) l i
      (omega (arith, last_number a r h l i e, All-back InRange (a ∷ r) h i e)),
)

-- The off-by-one of the recovery: where `push` refuses the block after the head of a linked window whose
-- numbers are below the largest word, with depth d, the window keeps all but d - 1 of its blocks.
pub recovery_keeps_one_more :
    (t : Tracker) (h b : Block) (d : ℕ)
    → IsValid t
    → All InRange t.window
    → head t ≡ some h
    → b.number ≡ u64 (h.number + 1)
    → push t b ≡ (err d, t)
    → length (recover t b d).window + d ≡ length t.window + 1
unfolding head recover
recovery_keeps_one_more t h b d v i e n p =
    let (x, depth) = push_refused t h b d e p in
    let exact : d ≡ distance b.parent_hash (reverse t.window) =
      depth ∙ find_reorg_depth-eq-distance t b in
    rw (rewind_to-eq-filter t (b.number - d) v i) (
      filter_recovered t.window h b d v.linked i e n
        (omega (arith, exact, distance-pos t.window h b e n x))
        (omega (
          arith,
          exact,
          distance-le-length b.parent_hash (reverse t.window),
          length-reverse t.window,
        )))
