-- ===== src/Index/Backfill/Segments.antt =====
-- The segments of a range: that they are found, that they tile it, and where the loop never ends.
use chainkit.Prelude.{
  Bool, Bool-cases, List, String, [], arith, count, false, if◌then◌else◌, inl, inr, leb, leb→le,
  ltb, none, ok, refl, some, suc, true, u64_max, zero, ℕ, ◌&&◌, ◌+◌, ◌-◌, ◌<◌, ◌∷◌, ◌≡◌, ◌≢◌, ◌≤◌,
  ◌⊎◌,
}
use chainkit.Index.Backfill.{
  BackfillConfig, BackfillSegment, range_end, segment, checked_add, segments_from, segments,
  validate,
}
use chainkit.Index.Backfill.Ranges.{range_end_lem, next_part}

-- The segments follow each other from `current` to the end of the range, with their ids in turn,
-- none of them empty or longer than the size, and none but the last shorter.
abbrev pub Tiles : ℕ → ℕ → ℕ → ℕ → List BackfillSegment → Type 0
Tiles to_block size current id [] = current ≡ to_block + 1
Tiles to_block size current id (s ∷ ss) =
    (s.from_block ≡ current)
    × (s.id ≡ id)
    × (current ≤ s.to_block)
    × (s.to_block ≤ to_block)
    × (s.to_block < current + size)
    × ((s.to_block ≡ to_block) ⊎ (s.to_block + 1 ≡ current + size))
    × Tiles to_block size (s.to_block + 1) (id + 1) ss

segments_from-Tiles :
    (fuel : ℕ) (c : BackfillConfig) (current id : ℕ)
    → 0 < c.segment_size
    → c.to_block + c.segment_size ≤ u64_max
    → current ≤ c.to_block + 1
    → c.to_block + 1 < current + fuel
    → (ss : List BackfillSegment) × (segments_from fuel c current id ≡ some ss)
      × Tiles c.to_block c.segment_size current id ss
unfolding segments_from segment
segments_from-Tiles zero c current id p b h f = absurd (omega arith)
segments_from-Tiles (suc fuel) c current id p b h f = elim (Bool-cases (leb current c.to_block)) [
  | inr over ↦ ([], rw (over, segments_from) refl, ground (arith, over))
  | inl more ↦
      let (from, to, within, fits, full) =
        range_end_lem current c.segment_size c.to_block (leb→le _ _ more) p b in
      let last = range_end current c.segment_size c.to_block in
      let (rest, e, tiles) =
        segments_from-Tiles fuel c (last + 1) (id + 1) p b (omega arith) (omega arith) in
      (
        segment id current last ∷ rest,
        rw (more, segments_from, next_part last fits, e) refl,
        (refl, refl, from, to, within, full, tiles),
      )
]

-- Whether a segment holds a block.
abbrev pub holds : ℕ → BackfillSegment → Bool
holds b s = leb s.from_block b && leb b s.to_block

count-Tiles :
    (to_block size current id : ℕ) (ss : List BackfillSegment) (b : ℕ)
    → Tiles to_block size current id ss
    → current ≤ to_block + 1
    → count (holds b) ss ≡ (if leb current b && leb b to_block then 1 else 0)
count-Tiles to_block size current id [] b t h = ground (arith, t)
count-Tiles to_block size current id (s ∷ ss) b (f, i, l, u, w, full, t) h =
    ground (arith, f, l, u, count-Tiles to_block size (s.to_block + 1) (id + 1) ss b t)

-- For a range and a positive segment size that do not reach the end of the words, the loop ends
-- within as many rounds as there are blocks and one more. It finds segments that tile the range, so
-- that every block of the range stands in exactly one of them and no other block in any.
pub segments_tile :
    (c : BackfillConfig) (fuel : ℕ)
    → c.from_block ≤ c.to_block
    → 0 < c.segment_size
    → c.to_block + c.segment_size ≤ u64_max
    → c.to_block + 1 < c.from_block + fuel
    → (ss : List BackfillSegment) × (segments fuel c ≡ some ss)
      × Tiles c.to_block c.segment_size c.from_block 0 ss
      × ((b : ℕ) → count (holds b) ss ≡ (if leb c.from_block b && leb b c.to_block then 1 else 0))
unfolding segments
segments_tile c fuel r p b f =
    let (ss, e, t) = segments_from-Tiles fuel c c.from_block 0 p b (omega arith) f in
    let ordered : ltb c.to_block c.from_block ≡ false = ground arith in
    (
      ss,
      rw ordered e,
      t,
      λ n. count-Tiles c.to_block c.segment_size c.from_block 0 ss n t (omega arith),
    )

no_size_from :
    (fuel : ℕ) (c : BackfillConfig) (current id : ℕ)
    → c.segment_size ≡ 0
    → 0 < current
    → current ≤ c.to_block
    → c.to_block ≤ u64_max
    → segments_from fuel c current id ≡ none
unfolding segments_from range_end
no_size_from zero c current id z p h b = refl
no_size_from (suc fuel) c current id z p h b =
    let more : leb current c.to_block ≡ true = ground arith in
    let stays : range_end current c.segment_size c.to_block ≡ current - 1 = omega arith in
    let again : checked_add (current - 1) 1 ≡ some current = ground arith in
    rw (more, segments_from, stays, again, no_size_from fuel c current (id + 1) z p h b) refl

-- With the segment size 0 the loop never ends, for any range that starts above block 0, although
-- `validate` would refuse the configuration: the engine computes its segments before it is validated.
no_segment_size :
    (c : BackfillConfig) (display : ℕ → String) (fuel : ℕ)
    → c.segment_size ≡ 0
    → 0 < c.from_block
    → c.from_block ≤ c.to_block
    → c.to_block ≤ u64_max
    → (segments fuel c ≡ none) × (validate display c ≢ ok tt)
unfolding segments validate
no_segment_size c display fuel z p h b =
    let ordered : ltb c.to_block c.from_block ≡ false = ground arith in
    (rw ordered (no_size_from fuel c c.from_block 0 z p h b), ground (arith, z, ordered))
