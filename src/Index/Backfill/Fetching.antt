-- ===== src/Index/Backfill/Fetching.antt =====
-- What the batches of a segment, and the segments of a range, fetch together.
use chainkit.Prelude.{
  Bool-cases, List, Option, Result, [], ap, arith, err, inl, inr, leb, leb→le, none, ok, refl, some,
  suc, u64_max, zero, ℕ, ◌++◌, ◌+◌, ◌-◌, ◌<◌, ◌∷◌, ◌≡◌, ◌≤◌,
}
use chainkit.Index.Backfill.Spans.{span, span-split}
use chainkit.Index.Error.{IndexerError}
use chainkit.Index.Event.{DecodedEvent}
use chainkit.Index.Backfill.{BackfillSegment, range_end, process_from}
use chainkit.Index.Backfill.Ranges.{range_end_lem, next_part}

module _ {J : Type 0} (events_of : ℕ → List (DecodedEvent J)) where
  -- A provider that keeps its contract: it returns the events of the blocks from a to b.
  abbrev pub Answers : (ℕ → ℕ → Result (List (DecodedEvent J)) IndexerError) → Type 0
  Answers get_events = (a b : ℕ) → a ≤ b → get_events a b ≡ ok (span events_of a (b + 1 - a))

  -- With a provider that keeps its contract, a positive batch size and no word that wraps, the loop
  -- over the batches ends within as many rounds as there are blocks and one more, and returns the
  -- events of the whole range in order, whatever the batch size is.
  pub process_from-eq-span :
      (fuel : ℕ) (get_events : ℕ → ℕ → Result (List (DecodedEvent J)) IndexerError)
      (batch_size to_block batch_from : ℕ)
      → Answers get_events
      → 0 < batch_size
      → to_block + batch_size ≤ u64_max
      → batch_from ≤ to_block + 1
      → to_block + 1 < batch_from + fuel
      → process_from get_events fuel batch_size to_block batch_from
        ≡ some (ok (span events_of batch_from (to_block + 1 - batch_from)))
  unfolding process_from
  process_from-eq-span zero get_events batch_size to_block batch_from r p b h f =
      absurd (omega arith)
  process_from-eq-span (suc fuel) get_events batch_size to_block batch_from r p b h f =
      elim (Bool-cases (leb batch_from to_block)) [
        | inr over ↦
            let none_left : to_block + 1 - batch_from ≡ 0 = ground (arith, over) in
            rw (over, process_from, none_left) refl
        | inl more ↦
            let (from, to, within, fits, full) =
              range_end_lem batch_from batch_size to_block (leb→le _ _ more) p b in
            let last = range_end batch_from batch_size to_block in
            rw
              (
                more,
                process_from,
                r batch_from last from,
                next_part last fits,
                process_from-eq-span fuel get_events batch_size to_block (last + 1) r p b
                    (omega arith) (omega arith),
              )
              (ap (λ l. some (ok l))
                (span-split events_of batch_from last to_block (omega arith) to))
      ]

  -- The events that a segment contributes: those that it fetched, or none if a batch failed.
  abbrev contribution : Option (Result (List (DecodedEvent J)) IndexerError) → List (DecodedEvent J)
  contribution none = []
  contribution (some (err e)) = []
  contribution (some (ok events)) = events

  pub fetched :
      ℕ
      → (ℕ → ℕ → Result (List (DecodedEvent J)) IndexerError)
      → ℕ
      → List BackfillSegment
      → List (DecodedEvent J)
  fetched fuel get_events batch_size [] = []
  fetched fuel get_events batch_size (s ∷ ss) =
      contribution (process_from get_events fuel batch_size s.to_block s.from_block)
      ++ fetched fuel get_events batch_size ss
