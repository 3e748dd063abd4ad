-- ===== src/Index/Backfill.antt =====
-- chainindex-core/src/backfill.rs: the split of a range of blocks into segments, and the state that
-- the tasks of the segments share. A time span is an argument, and so is the formatting of numbers.
pub mod Ranges
pub mod Segments
pub mod Spans
pub mod Fetching
pub mod Engine
use chainkit.Prelude.{
  Bool, List, Option, Result, String, [], concat, err, false, if◌then◌else◌, leb, ltb, none, ok,
  some, sub64, suc, true, u64, u64_max, zero, ℕ, ◌++◌, ◌+◌, ◌==◌, ◌∷◌, nat_eq, string_eq, pair_eq,
}
use Prim.Native.Nat.{min}
use chainkit.Index.Error.{IndexerError, other}
use chainkit.Index.Event.{DecodedEvent}

pub record BackfillConfig : Type 0 where
  pub from_block : ℕ
  pub to_block : ℕ
  pub concurrency : ℕ
  pub segment_size : ℕ
  pub batch_size : ℕ
  pub retry_attempts : ℕ
  pub retry_delay : ℕ

-- `retry_delay` in seconds
abbrev pub default_config : BackfillConfig
default_config = record {
  from_block = 0;
  to_block = 0;
  concurrency = 4;
  segment_size = 10_000;
  batch_size = 500;
  retry_attempts = 3;
  retry_delay = 1;
}

unfoldable pub validate : (ℕ → String) → BackfillConfig → Result (Unit {0}) IndexerError
validate display c =
    if ltb c.to_block c.from_block
    then err (
        other (
          concat "backfill config invalid: from_block (" (
            concat (display c.from_block)
              (concat ") > to_block (" (concat (display c.to_block) ")")))))
    else if c.concurrency == 0
    then err (other "backfill config invalid: concurrency must be >= 1")
    else if c.segment_size == 0
    then err (other "backfill config invalid: segment_size must be >= 1")
    else if c.batch_size == 0
    then err (other "backfill config invalid: batch_size must be >= 1")
    else ok tt

pub data SegmentStatus : Type 0 where
  pending in_progress complete failed : SegmentStatus

abbrev pub status_code : SegmentStatus → ℕ
status_code pending = 0
status_code in_progress = 1
status_code complete = 2
status_code failed = 3

pub record BackfillSegment : Type 0 where
  pub id : ℕ
  pub from_block : ℕ
  pub to_block : ℕ
  pub status : SegmentStatus
  pub events_processed : ℕ
  pub duration : Option ℕ
  pub error : Option String

-- the derived `==` of the status
abbrev pub has_status : SegmentStatus → BackfillSegment → Bool
has_status status s = status_code s.status == status_code status

unfoldable pub block_count : BackfillSegment → ℕ
block_count s = u64 (sub64 s.to_block s.from_block + 1)

abbrev pub checked_add : ℕ → ℕ → Option ℕ
checked_add a b = if ltb u64_max (a + b) then none else some (a + b)

-- the end of the part of at most `size` blocks from `current` on
unfoldable pub range_end : ℕ → ℕ → ℕ → ℕ
range_end current size to_block = min (sub64 (u64 (current + size)) 1) to_block

unfoldable pub segment : ℕ → ℕ → ℕ → BackfillSegment
segment id current last = record {
  id = id;
  from_block = current;
  to_block = last;
  status = pending;
  events_processed = 0;
  duration = none;
  error = none;
}

-- The `while` loop, for `fuel` rounds at most; `none` if that is not enough.
unfoldable pub segments_from : ℕ → BackfillConfig → ℕ → ℕ → Option (List BackfillSegment)
unfolding range_end segment
segments_from zero c current id = none
segments_from (suc fuel) c current id = elim (leb current c.to_block) [
  | false ↦ some []
  | true ↦
      let last = range_end current c.segment_size c.to_block in
      elim (checked_add last 1) [
        | none ↦ some (segment id current last ∷ [])
        | some next ↦ elim (segments_from fuel c next (id + 1)) [
          | none ↦ none
          | some rest ↦ some (segment id current last ∷ rest)
        ]
      ]
]

-- `segments`, with the rounds that its loop may take.
unfoldable pub segments : ℕ → BackfillConfig → Option (List BackfillSegment)
unfolding segments_from
segments fuel c =
    if ltb c.to_block c.from_block then some [] else segments_from fuel c c.from_block 0

-- `process_segment`: the batches of a segment, each asked of the provider, up to the first error.
module _ {J : Type 0} (get_events : ℕ → ℕ → Result (List (DecodedEvent J)) IndexerError) where
  unfoldable pub process_from : ℕ → ℕ → ℕ → ℕ → Option (Result (List (DecodedEvent J)) IndexerError)
  unfolding range_end
  process_from zero batch_size to_block batch_from = none
  process_from (suc fuel) batch_size to_block batch_from = elim (leb batch_from to_block) [
    | false ↦ some (ok [])
    | true ↦
        let batch_to = range_end batch_from batch_size to_block in
        elim (get_events batch_from batch_to) [
          | err e ↦ some (err e)
          | ok events ↦ elim (checked_add batch_to 1) [
            | none ↦ some (ok (events ++ []))
            | some next ↦ elim (process_from fuel batch_size to_block next) [
              | none ↦ none
              | some (err e) ↦ some (err e)
              | some (ok rest) ↦ some (ok (events ++ rest))
            ]
          ]
        ]
  ]
