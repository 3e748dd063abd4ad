-- ===== src/Index/Startup/Batches.antt =====
-- What the backfill hands to the handlers.
use chainkit.Prelude.{
  All, All-append, Bool-cases, List, Result, Result-cases, [], arith, err, inl, inr, leb, leb→le,
  ok, refl, some, suc, true, u64, u64_max, zero, ℕ, ◌+◌, ◌-◌, ◌<◌, ◌∷◌, ◌≡◌, ◌≤◌, ◌⊎◌,
}
use mathlib.Core.Path.{subst}
use chainkit.Index.Error.{IndexerError}
use chainkit.Index.Checkpoint.{CheckpointStore, CheckpointManager, maybe_save}
use chainkit.Index.Backfill.{range_end}
use chainkit.Index.Backfill.Ranges.{range_end_lem}
use chainkit.Index.Backfill.Spans.{span, span-split}
use chainkit.Index.Startup.{Source, dispatch_logs, backfill}

module _ {S Log : Type 0} (ops : CheckpointStore S) (source : Source Log) (batch to : ℕ)
    (logs_of : ℕ → List Log) where
  -- A node that returns the logs of the blocks from a to b, in order.
  abbrev pub Answers : Type 0
  Answers = (a b : ℕ) → a ≤ b → source.logs a b ≡ ok (span logs_of a (b + 1 - a))

  -- A log that the chain removed, or that the handlers took without an error.
  abbrev pub Handled : Log → Type 0
  Handled log = (source.is_removed log ≡ true) ⊎ (source.dispatch_event log ≡ ok tt)

  dispatch_logs-Handled :
      (ls : List Log)
      → ((dispatch_logs ops source batch to ls ≡ ok tt) × All Handled ls)
        ⊎ ((e : IndexerError) × (dispatch_logs ops source batch to ls ≡ err e))
  unfolding dispatch_logs
  dispatch_logs-Handled [] = inl (refl, tt)
  dispatch_logs-Handled (log ∷ ls) = elim (Bool-cases (source.is_removed log)) [
    | inl x ↦ elim (dispatch_logs-Handled ls) [
      | inl (p, h) ↦ rw x (inl (p, (inl refl, h)))
      | inr (e, p) ↦ rw x (inr (e, p))
    ]
    | inr x ↦ elim (Result-cases (source.dispatch_event log)) [
      | inr (e, y) ↦ rw (x, y) (inr (e, refl))
      | inl (u, y) ↦ elim (dispatch_logs-Handled ls) [
        | inl (p, h) ↦ rw (x, y) (inl (p, (inr refl, h)))
        | inr (e, p) ↦ rw (x, y) (inr (e, p))
      ]
    ]
  ]

  -- The result of a backfill from a block on: all logs handled, or an error.
  abbrev pub Outcome : ℕ → Result (Unit {0}) IndexerError → Type 0
  Outcome current r =
      ((r ≡ ok tt) × All Handled (span logs_of current (to + 1 - current)))
      ⊎ ((e : IndexerError) × (r ≡ err e))

  -- With a node that keeps its contract, a positive batch size and no word that wraps, the backfill ends
  -- within as many rounds as there are blocks and one more, whatever the handlers and the checkpoint
  -- store answer: with an error, or after every log of the range that was not removed was handled.
  pub backfill-Outcome :
      (fuel : ℕ) (m : CheckpointManager S) (current : ℕ)
      → Answers
      → 0 < batch
      → to + batch ≤ u64_max
      → current ≤ to + 1
      → to + 1 < current + fuel
      → (r : Result (Unit {0}) IndexerError) × (m' : CheckpointManager S) × (backfill ops source
            batch to fuel m current
          ≡ some (r, m'))
        × Outcome current r
  unfolding backfill
  backfill-Outcome zero m current a p b h f = absurd (omega arith)
  backfill-Outcome (suc fuel) m current a p b h f = elim (Bool-cases (leb current to)) [
    | inr x ↦
        let none_left : 0 ≡ to + 1 - current = ground (arith, x) in
        rw (x, backfill)
          (
            ok tt,
            m,
            refl,
            inl (refl, subst (λ n. All Handled (span logs_of current n)) none_left tt),
          )
    | inl x ↦
        let (from, within, short, fits, full) = range_end_lem current batch to (leb→le _ _ x) p b in
        let last = range_end current batch to in
        let logs = a current last from in
        elim (dispatch_logs-Handled (span logs_of current (last + 1 - current))) [
          | inr (e, d) ↦ rw (x, backfill, logs, d) (err e, m, refl, inr (e, refl))
          | inl (d, handled) ↦
              let saving = maybe_save ops m last "backfill" (source.now last) in
              elim (Result-cases saving.0) [
                | inr (e, y) ↦ rw (x, backfill, logs, d, y) (err e, saving.1, refl, inr (e, refl))
                | inl (v, y) ↦
                    let (r, m', run, outcome) =
                      backfill-Outcome fuel saving.1 (last + 1) a p b (omega arith) (omega arith) in
                    let next : u64 (last + 1) ≡ last + 1 = omega arith in
                    rw (x, backfill, logs, d, y, next)
                      (
                        r,
                        m',
                        run,
                        elim outcome [
                          | inr failed ↦ inr failed
                          | inl (done, rest) ↦ inl (
                            done,
                            subst (All Handled)
                                (span-split logs_of current last to (omega arith) within)
                                (All-append Handled _ _ handled rest),
                          )
                        ],
                      )
              ]
        ]
  ]
