-- ===== src/Index/LiveLoop/Stuck.antt =====
-- A reorg below a window of one block: the live loop does not get past it.
use chainkit.Prelude.{
  All, List, Result, Result-cases, [], ap, arith, eq_iff, err, false, inl, inr, ltb, ok, refl, some,
  u64_max, ℕ, ◌+◌, ◌-◌, ◌<◌, ◌==◌, ◌∙◌, ◌∷◌, ◌≡◌, ◌≤◌, nat_eq, string_eq, pair_eq,
}
use chainkit.Index.Block.{Block, extends}
use chainkit.Index.Tracker.{head, Tracker, push, rewind_to, find_reorg_depth, scan, pop_above}
use chainkit.Index.Checkpoint.{CheckpointStore}
use chainkit.Index.Error.{IndexerError}
use chainkit.Index.LiveLoop.{
  IndexLoop, Pass, reorg_recovery, again, live, next_height, on_reorg, receive, poll, live_loop,
  Environment, recover,
}

-- The node is past the block after `h`, and answers there with a block whose parent is not `h`.
pub record Replaced {Log : Type 0} (depth : ℕ) (h : Block) (e : Environment Log) : Type 0 where
  pub number : ℕ
  pub block : Block
  pub tip : e.node.head_block_number ≡ ok number
  pub due : h.number + 1 ≤ number - depth
  pub found : e.node.block (h.number + 1) ≡ ok (some block)
  pub next : block.number ≡ h.number + 1
  pub foreign : (block.parent_hash == h.hash) ≡ false

push_foreign :
    (t : Tracker) (h b : Block)
    → t.window ≡ h ∷ []
    → (b.parent_hash == h.hash) ≡ false
    → push t b ≡ (err 1, t)
unfolding push find_reorg_depth scan extends
push_foreign t h b w f =
    rw (w, push) (ground (arith, eq_iff h.hash b.parent_hash, eq_iff b.parent_hash h.hash))

recover_single :
    (t : Tracker) (h b : Block) → t.window ≡ h ∷ [] → b.number ≡ h.number + 1 → recover t b 1 ≡ t
unfolding recover rewind_to pop_above
recover_single t h b w n = rw (w, recover) (ground arith)

-- the end of a pass whose reorg handlers gave an answer
abbrev told :
    {S : Type 0}
    → IndexLoop S
    → Result (Unit {0}) IndexerError
    → Result Pass IndexerError × IndexLoop S
told l (err x) = (err x, record l { state = reorg_recovery })
told l (ok u) = (ok again, record l { state = live })

module _ {S Log : Type 0} (ops : CheckpointStore S) where
  receive_stuck :
      (l : IndexLoop S) (h b : Block) (e : Environment Log) (next : ℕ)
      → l.tracker.window ≡ h ∷ []
      → b.number ≡ h.number + 1
      → (b.parent_hash == h.hash) ≡ false
      → receive ops e.node e.handlers l next b e.now ≡ told l (e.handlers.dispatch_reorg (h ∷ []) b)
  unfolding receive on_reorg
  receive_stuck l h b e next w n f =
      let refused = push_foreign l.tracker h b w f in
      let single : head l.tracker ≡ some h = unfold head in rw w in
      elim (Result-cases (e.handlers.dispatch_reorg (h ∷ []) b)) [
        | inl (u, a) ↦
            rw (single, refused, receive)
              (rw (a, refused, on_reorg) (rw (recover_single l.tracker h b w n)))
        | inr (x, a) ↦ rw (single, refused, receive) (rw (a, refused, on_reorg) refl)
      ]

  poll_stuck :
      (l : IndexLoop S) (h : Block) (e : Environment Log)
      → l.tracker.window ≡ h ∷ []
      → h.number < u64_max
      → (r : Replaced l.confirmation_depth h e)
      → poll ops e.node e.handlers l e.now ≡ told l (e.handlers.dispatch_reorg (h ∷ []) r.block)
  unfolding poll next_height head
  poll_stuck l h e w i r =
      let at : next_height l.tracker (r.number - l.confirmation_depth) ≡ h.number + 1 =
        rw (w, next_height) (omega (arith, i)) in
      let due : ltb (r.number - l.confirmation_depth) (h.number + 1) ≡ false =
        ground (arith, r.due) in
      rw (r.tip, poll)
        (rw (at, due, r.found)
          (receive_stuck l h r.block e (next_height l.tracker (r.number - l.confirmation_depth)) w
            r.next r.foreign))

  -- Pass by pass the reorg handlers are asked, for the old block and the new one: an error of theirs is
  -- the end, and otherwise the loop is as it was.
  abbrev pub told_each :
      (l : IndexLoop S) (h : Block) (es : List (Environment Log))
      → All (Replaced l.confirmation_depth h) es
      → Result Pass IndexerError × IndexLoop S
  told_each l h [] r = (ok again, l)
  told_each l h (e ∷ es) r = elim (e.handlers.dispatch_reorg (h ∷ []) r.0.block) [
    | err x ↦ (err x, record l { state = reorg_recovery })
    | ok u ↦ told_each l h es r.1
  ]

  -- Let a live loop have a window of one block, with a number below the largest word, and let the node be
  -- past the next height in every pass and answer there with a block of another parent. However many
  -- passes there are, each tells the reorg handlers again that the one block is dropped and which block
  -- comes after it, and leaves the loop and its tracker as they were, unless a pass ends it with an error
  -- of these handlers: the loop never gets past that block.
  pub live_loop_stuck :
      (l : IndexLoop S) (h : Block) (es : List (Environment Log))
      → l.tracker.window ≡ h ∷ []
      → h.number < u64_max
      → l.state ≡ live
      → (r : All (Replaced l.confirmation_depth h) es) → live_loop ops l es ≡ told_each l h es r
  unfolding live_loop
  live_loop_stuck l h [] w i s r = refl
  live_loop_stuck l h (e ∷ es) w i s r =
      let same : record l { state = live } ≡ l = ground arith in
      let pass = poll_stuck l h e w i r.0 in
      elim (Result-cases (e.handlers.dispatch_reorg (h ∷ []) r.0.block)) [
        | inr (x, a) ↦
            let ends : poll ops e.node e.handlers l e.now
                ≡ (err x, record l { state = reorg_recovery }) =
              pass ∙ rw a refl in
            rw (ends, live_loop, a) (rw ends refl)
        | inl (u, a) ↦
            let stay : poll ops e.node e.handlers l e.now ≡ (ok again, l) =
              pass ∙ rw a (ap (λ x. (ok again, x)) same) in
            rw (stay, live_loop, a) (rw stay (live_loop_stuck l h es w i s r.1))
      ]
