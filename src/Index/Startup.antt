-- ===== src/Index/Startup.antt =====
-- chainindex-evm/src/index_loop.rs, `run` and `backfill`: the phases before the live loop. The node's logs of
-- a range, what the handlers answer to a log, and the readings of the clock are arguments.
pub mod Batches
use chainkit.Prelude.{
  Bool, List, Option, Result, [], err, false, if◌then◌else◌, leb, none, ok, some, suc, true, u64,
  zero, ℕ, ◌+◌, ◌-◌, ◌>>=◌, ◌>>◌, ◌∷◌,
}
use chainkit.Prelude.Int.{ℤ}
use chainkit.Index.Error.{IndexerError}
use chainkit.Index.Checkpoint.{CheckpointStore, CheckpointManager, maybe_save, load}
use chainkit.Index.Backfill.{range_end}
use chainkit.Index.LiveLoop.{
  IndexLoop, Pass, returned, Environment, live_loop, backfilling, live, stopped,
}

-- What the backfill asks of the node and of the handlers.
pub record Source (Log : Type 0) : Type 0 where
  pub logs : ℕ → ℕ → Result (List Log) IndexerError
  pub is_removed : Log → Bool
  pub dispatch_event : Log → Result (Unit {0}) IndexerError
  pub now : ℕ → ℤ

module _ {S Log : Type 0} (ops : CheckpointStore S) (source : Source Log) (batch to : ℕ) where
  -- the loop over the logs of a batch
  unfoldable pub dispatch_logs : List Log → Result (Unit {0}) IndexerError
  dispatch_logs [] = ok tt
  dispatch_logs (log ∷ rest) =
      let later = dispatch_logs rest in
      if source.is_removed log then later else source.dispatch_event log >> later

  -- the `while` loop of `backfill`; `none` says that the fuel is used up
  unfoldable pub backfill :
      ℕ → CheckpointManager S → ℕ → Option (Result (Unit {0}) IndexerError × CheckpointManager S)
  unfolding dispatch_logs range_end maybe_save
  backfill zero m current = none
  backfill (suc fuel) m current = elim (leb current to) [
    | false ↦ some (ok tt, m)
    | true ↦
        let batch_end = range_end current batch to in
        elim (source.logs current batch_end >>= dispatch_logs) [
          | err e ↦ some (err e, m)
          | ok u ↦
              let (saved, m') = maybe_save ops m batch_end "backfill" (source.now batch_end) in
              elim saved [
                | err e ↦ some (err e, m')
                | ok v ↦ backfill fuel m' (u64 (batch_end + 1))
              ]
        ]
  ]

-- where the run is bounded and its end lies in the backfill
abbrev done_by : ℕ → Option ℕ → Bool
done_by target none = false
done_by target (some to) = leb to target

module _ {S Log : Type 0} (ops : CheckpointStore S) (source : Source Log) where
  -- from the end of the backfill on
  go_live :
      IndexLoop S
      → ℕ
      → List (Environment Log)
      → Result (Unit {0}) IndexerError × CheckpointManager S
      → Result Pass IndexerError × IndexLoop S
  unfolding live_loop
  go_live l target passes (err e, m) = (err e, record l { state = backfilling; checkpoint = m })
  go_live l target passes (ok u, m) =
      if done_by target l.to_block
      then (ok returned, record l { state = stopped; checkpoint = m })
      else live_loop ops (record l { state = live; checkpoint = m }) passes

  -- `run`: the checkpoint that is found is logged, and not used. `head` is the node's answer to the
  -- question for its head, and `passes` are those of the live loop.
  unfoldable pub run :
      ℕ
      → IndexLoop S
      → ℕ
      → ℕ
      → Result ℕ IndexerError
      → List (Environment Log)
      → Option (Result Pass IndexerError × IndexLoop S)
  unfolding backfill go_live load
  run fuel l from batch head passes = elim (load ops l.checkpoint) [
    | err e ↦ some (err e, l)
    | ok found ↦ elim head [
      | err e ↦ some (err e, record l { state = backfilling })
      | ok number ↦
          let target = number - l.confirmation_depth in
          elim (backfill ops source batch target fuel l.checkpoint from) [
            | none ↦ none
            | some end ↦ some (go_live l target passes end)
          ]
    ]
  ]
