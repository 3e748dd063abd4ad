-- ===== src/Index/LiveLoop.antt =====
-- chainindex-evm/src/index_loop.rs, `live_loop`: what one poll does to the tracker, the state and
-- the checkpoints. The answers of the node and of the user's handlers are parameters.
pub mod Recovery
pub mod Polls
pub mod Stuck
use chainkit.Prelude.{
  Bool, List, Option, Result, [], err, if◌then◌else◌, leb, ltb, none, ok, some, u64, ℕ, ◌+◌, ◌-◌,
  ◌>>◌, ◌∷◌, ◌>>=◌,
}
use chainkit.Prelude.Int.{ℤ}
use chainkit.Index.Block.{Block}
use chainkit.Index.Error.{IndexerError}
use chainkit.Index.Checkpoint.{CheckpointStore, CheckpointManager, maybe_save}
use chainkit.Index.Tracker.{Tracker, head, push, rewind_to}

-- chainindex-core/src/indexer.rs
pub data IndexerState : Type 0 where
  idle backfilling live reorg_recovery stopping stopped error : IndexerState

-- What the node answers in one poll.
pub record Node (Log : Type 0) : Type 0 where
  pub head_block_number : Result ℕ IndexerError
  pub block : ℕ → Result (Option Block) IndexerError
  pub logs : ℕ → Result (List Log) IndexerError
  pub is_removed : Log → Bool

-- What the registered handlers answer: the first failure of each dispatch, or success.
pub record Handlers (Log : Type 0) : Type 0 where
  pub dispatch_reorg : List Block → Block → Result (Unit {0}) IndexerError
  pub dispatch_block : Block → Result (Unit {0}) IndexerError
  pub dispatch_event : Log → Block → Result (Unit {0}) IndexerError

-- The fields of `IndexLoop` that the live loop reads and writes.
pub record IndexLoop (S : Type 0) : Type 0 where
  pub confirmation_depth : ℕ
  pub to_block : Option ℕ
  pub tracker : Tracker
  pub checkpoint : CheckpointManager S
  pub state : IndexerState

-- How a pass through the loop ends, where no error is returned.
pub data Pass : Type 0 where
  again returned : Pass

-- The height to fetch next: after the head of the tracker, or the confirmed head if it is empty.
unfoldable pub next_height : Tracker → ℕ → ℕ
next_height t confirmed_head = elim (head t) [ none ↦ confirmed_head | some h ↦ u64 (h.number + 1) ]

-- `self.tracker.rewind_to(block.number.saturating_sub(depth))`
unfoldable pub recover : Tracker → Block → ℕ → Tracker
recover t block depth = rewind_to t (block.number - depth)

module _ {S Log : Type 0} (ops : CheckpointStore S) (node : Node Log)
    (handlers : Handlers Log) where
  -- the loop over the logs of the block
  dispatch_logs : List Log → Block → Result (Unit {0}) IndexerError
  dispatch_logs [] b = ok tt
  dispatch_logs (log ∷ rest) b =
      let later = dispatch_logs rest b in
      if node.is_removed log then later else handlers.dispatch_event log b >> later

  reached : IndexLoop S → ℕ → Pass
  reached l next = elim l.to_block [
    | none ↦ again
    | some to ↦ if leb to next then returned else again
  ]

  finish : IndexLoop S → ℕ → Result (Unit {0}) IndexerError → Result Pass IndexerError × IndexLoop S
  finish l next (err e) = (err e, l)
  finish l next (ok u) = (ok (reached l next), l)

  set_stopped : Result Pass IndexerError × IndexLoop S → Result Pass IndexerError × IndexLoop S
  set_stopped (ok returned, l) = (ok returned, record l { state = stopped })
  set_stopped (r, l) = (r, l)

  -- from the fetch of the logs to the end of the pass, for an accepted block
  process : IndexLoop S → ℕ → Block → ℤ → Result Pass IndexerError × IndexLoop S
  unfolding dispatch_logs reached finish set_stopped
  process l next b now =
      elim (do logs ← node.logs next; handlers.dispatch_block b; dispatch_logs logs b) [
        | err e ↦ (err e, l)
        | ok u ↦
            let (saved, checkpoint) = maybe_save ops l.checkpoint next b.hash now in
            set_stopped (finish (record l { checkpoint = checkpoint }) next saved)
      ]

  -- the reorg branch; `prev` is the only block that the handlers are told of
  on_reorg : IndexLoop S → Block → Block → ℕ → Result Pass IndexerError × IndexLoop S
  on_reorg l prev b depth = elim (handlers.dispatch_reorg (prev ∷ []) b) [
    | err e ↦ (err e, record l { state = reorg_recovery })
    | ok u ↦ (ok again, record l { tracker = recover l.tracker b depth; state = live })
  ]

  receive : IndexLoop S → ℕ → Block → ℤ → Result Pass IndexerError × IndexLoop S
  unfolding process on_reorg
  receive l next b now =
      let (r, tracker) = push l.tracker b in
      let pushed = record l { tracker = tracker } in
      elim (head l.tracker) [
        | none ↦ process pushed next b now
        | some prev ↦ elim r [
          | ok u ↦ process pushed next b now
          | err depth ↦ on_reorg pushed prev b depth
        ]
      ]

  -- One pass through the loop, after the sleep.
  unfoldable pub poll : IndexLoop S → ℤ → Result Pass IndexerError × IndexLoop S
  unfolding receive
  poll l now = elim node.head_block_number [
    | err e ↦ (err e, l)
    | ok number ↦
        let confirmed_head = number - l.confirmation_depth in
        let next = next_height l.tracker confirmed_head in
        if ltb confirmed_head next then (ok again, l) else elim (node.block next) [
          | err e ↦ (err e, l)
          | ok found ↦ elim found [ none ↦ (ok again, l) | some b ↦ receive l next b now ]
        ]
  ]

-- What one pass meets: the node, the handlers and the clock.
pub record Environment (Log : Type 0) : Type 0 where
  pub node : Node Log
  pub handlers : Handlers Log
  pub now : ℤ

module _ {S Log : Type 0} (ops : CheckpointStore S) where
  -- `live_loop` over the passes that the environment allows: an error or a return ends it.
  unfoldable pub live_loop :
      IndexLoop S → List (Environment Log) → Result Pass IndexerError × IndexLoop S
  live_loop l [] = (ok again, l)
  live_loop l (e ∷ rest) =
      let (r, l') = poll ops e.node e.handlers l e.now in
      elim r [
        | err x ↦ (err x, l')
        | ok pass ↦ elim pass [ again ↦ live_loop l' rest | returned ↦ (ok returned, l') ]
      ]
