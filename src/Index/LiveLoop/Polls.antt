-- ===== src/Index/LiveLoop/Polls.antt =====
-- What holds of the live loop over its polls.
use chainkit.Prelude.{
  Bool-cases, List, Option-cases, Result-cases, [], arith, inl, inr, ltb, ℕ, ◌-◌, ◌∷◌, ◌≡◌,
}
use chainkit.Prelude.Int.{ℤ}
use chainkit.Index.Block.{Block}
use chainkit.Index.Checkpoint.{CheckpointStore}
use chainkit.Index.Tracker.{head, push}
use chainkit.Index.Tracker.Window.{IsValid, push-IsValid}
use chainkit.Index.Tracker.Rewind.{rewind_to-IsValid}
use chainkit.Index.LiveLoop.{
  Environment, again, returned, live_loop, IndexLoop, Node, Handlers, next_height, recover, process,
  on_reorg, receive, poll,
}

module _ {S Log : Type 0} (ops : CheckpointStore S) (node : Node Log)
    (handlers : Handlers Log) where
  process_tracker :
      (l : IndexLoop S) (next : ℕ) (b : Block) (now : ℤ)
      → (process ops node handlers l next b now).1.tracker ≡ l.tracker
  unfolding process
  process_tracker l next b now = ground arith

  on_reorg-IsValid :
      (l : IndexLoop S) (prev b : Block) (depth : ℕ)
      → IsValid l.tracker
      → IsValid (on_reorg ops node handlers l prev b depth).1.tracker
  unfolding on_reorg recover
  on_reorg-IsValid l prev b depth v = elim (Result-cases (handlers.dispatch_reorg (prev ∷ []) b)) [
    | inl (u, e) ↦ rw (e, on_reorg) (rewind_to-IsValid l.tracker (b.number - depth) v)
    | inr (x, e) ↦ rw (e, on_reorg) v
  ]

  receive-IsValid :
      (l : IndexLoop S) (next : ℕ) (b : Block) (now : ℤ)
      → IsValid l.tracker
      → IsValid (receive ops node handlers l next b now).1.tracker
  unfolding receive
  receive-IsValid l next b now v =
      let kept = push-IsValid l.tracker b v in
      let pushed = record l { tracker = (push l.tracker b).1 } in
      elim (Option-cases (head l.tracker)) [
        | inl e ↦ rw (e, receive) (rw process_tracker kept)
        | inr (prev, e) ↦ elim (Result-cases (push l.tracker b).0) [
          | inl (u, p) ↦ rw (e, p, receive) (rw process_tracker kept)
          | inr (depth, p) ↦ rw (e, p, receive) (on_reorg-IsValid pushed prev b depth kept)
        ]
      ]

  -- Whatever the node and the handlers answer, and whether the pass succeeds or fails, the window of
  -- the tracker stays linked and bounded.
  pub poll-IsValid :
      (l : IndexLoop S) (now : ℤ)
      → IsValid l.tracker
      → IsValid (poll ops node handlers l now).1.tracker
  unfolding poll
  poll-IsValid l now v = elim (Result-cases node.head_block_number) [
    | inr (x, e) ↦ rw (e, poll) v
    | inl (number, e) ↦
        let confirmed_head = number - l.confirmation_depth in
        let next = next_height l.tracker confirmed_head in
        elim (Bool-cases (ltb confirmed_head next)) [
          | inl early ↦ rw (e, poll) (rw early v)
          | inr due ↦ elim (Result-cases (node.block next)) [
            | inr (x, f) ↦ rw (e, poll) (rw (due, f) v)
            | inl (found, f) ↦ elim (Option-cases found) [
              | inl g ↦ rw (e, poll) (rw (due, f, g) v)
              | inr (b, g) ↦ rw (e, poll) (rw (due, f, g) (receive-IsValid l next b now v))
            ]
          ]
        ]
  ]

module _ {S Log : Type 0} (ops : CheckpointStore S) where
  -- If the window of the tracker is linked and within its size, it stays so through any number of
  -- polls of the live loop, whatever the node, the handlers and the store answer in each of them.
  pub live_loop-IsValid :
      (l : IndexLoop S) (es : List (Environment Log))
      → IsValid l.tracker
      → IsValid (live_loop ops l es).1.tracker
  unfolding live_loop
  live_loop-IsValid l [] v = v
  live_loop-IsValid l (e ∷ rest) v =
      let l' = (poll ops e.node e.handlers l e.now).1 in
      let kept = poll-IsValid ops e.node e.handlers l e.now v in
      elim (Result-cases (poll ops e.node e.handlers l e.now).0) [
        | inr (x, p) ↦ rw (p, live_loop) kept
        | inl (again, p) ↦ rw (p, live_loop) (live_loop-IsValid l' rest kept)
        | inl (returned, p) ↦ rw (p, live_loop) kept
      ]
