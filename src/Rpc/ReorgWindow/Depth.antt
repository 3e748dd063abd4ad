-- ===== src/Rpc/ReorgWindow/Depth.antt =====
-- The tip that a check leaves, which the depth of a reorg and the safe zone are measured from.
use chainkit.Prelude.{
  String, arith, if◌then◌else◌, inl, inr, leb, refl, some, sub64, true, u64, ℕ, ◌+◌, ◌-◌, ◌<◌, ◌∙◌,
  ◌≡◌,
}
use chainkit.Rpc.ReorgWindow.{
  ReorgDetector, ReorgEvent, store, event_at, invalidate, check_block, safe_block, is_block_safe,
}
use chainkit.Rpc.ReorgWindow.Lookup.{changed, check_block-cases}

measured_lem :
    (t n : ℕ)
    → t < 18446744073709551615
    → n < 18446744073709551616
    → u64 (sub64 t n + 1) ≡ (if leb n t then t - n + 1 else u64 (18446744073709551617 - (n - t)))
measured_lem t n ht hn = ground arith

module _ {C : Type 0} where
  tip-check_block :
      (d : ReorgDetector C) (n : ℕ) (hash : String)
      → ((check_block d n hash).2.last_tip ≡ some n) × ((check_block d n hash).2.config ≡ d.config)
  unfolding invalidate store
  tip-check_block d n hash = elim (check_block-cases d n hash) [
    | inl (c, e) ↦ rw e (refl, refl)
    | inr (stored, c, g, e) ↦ rw e (refl, refl)
  ]

  is_block_safe_lem :
      (d : ReorgDetector C) (n t : ℕ)
      → d.last_tip ≡ some t
      → is_block_safe d n ≡ leb (n + d.config.safe_depth) t
  unfolding is_block_safe safe_block
  is_block_safe_lem d n t e = rw (e, is_block_safe, safe_block) (ground arith)

  -- After block a is checked, a block n is safe exactly if it is at least `safe_depth` below a,
  -- whatever the window and the highest block seen before are.
  pub is_block_safe-check_block :
      (d : ReorgDetector C) (a n : ℕ) (hash : String)
      → is_block_safe (check_block d a hash).2 n ≡ leb (n + d.config.safe_depth) a
  is_block_safe-check_block d a n hash =
      let (t, c) = tip-check_block d a hash in
      is_block_safe_lem (check_block d a hash).2 n a t ∙ rw c refl

  -- The depth of a reorg is measured from the block that was checked last, not from the highest
  -- block. If that is block a, and a hash that differs from the stored one is then checked at block b,
  -- the report's depth is a - b + 1 where b is at most a, and 2^64 + 1 - (b - a), which wraps to 0
  -- for the next block, where b is above a.
  check_block_depth :
      (d : ReorgDetector C) (a b : ℕ) (ha hb : String)
      → a < 18446744073709551615
      → b < 18446744073709551616
      → changed (check_block d a ha).2 b hb ≡ true
      → (e : ReorgEvent) × ((check_block (check_block d a ha).2 b hb).0 ≡ some e)
        × (e.depth ≡ (if leb b a then a - b + 1 else u64 (18446744073709551617 - (b - a))))
  unfolding invalidate event_at
  check_block_depth d a b ha hb la lb differs =
      elim (check_block-cases (check_block d a ha).2 b hb) [
        | inl (c, e) ↦ ground (arith, c, differs)
        | inr (stored, c, g, e) ↦
            let (t, k) = tip-check_block d a ha in
            (event_at (check_block d a ha).2 b stored hb, rw e refl, rw t (measured_lem a b la lb))
      ]
