-- ===== src/Index/Stream.antt =====
-- chainindex-core/src/streaming.rs: the buffer of events that consumers read in batches, each from a
-- cursor of its own. The text of an error is built by `display`, the formatting of a number.
pub mod Position
pub mod Batches
pub mod Invalidation
use chainkit.Prelude.{
  Bool, List, Option, Result, String, [], back, concat, count, err, filter, if◌then◌else◌, leb,
  length, ltb, map, none, not, ok, pop_front, some, u64, ℕ, ◌&&◌, ◌++◌, ◌+◌, ◌-◌, ◌==◌, ◌||◌, ◌∷◌,
  nat_eq, string_eq, pair_eq,
}
use chainkit.HashMap
use chainkit.HashMap.{HashMap}
use chainkit.Index.Error.{IndexerError, other}
use chainkit.Index.Event.{DecodedEvent}

pub record StreamCursor : Type 0 where
  pub block_number : ℕ
  pub log_index : ℕ
  pub version : ℕ

abbrev pub initial : StreamCursor
initial = record { block_number = 0; log_index = 0; version = 0 }

-- the derived `==`
abbrev pub same_cursor : StreamCursor → StreamCursor → Bool
same_cursor c d =
    c.block_number == d.block_number && c.log_index == d.log_index && c.version == d.version

pub record EventBatch (J : Type 0) : Type 0 where
  pub events : List (DecodedEvent J)
  pub cursor : StreamCursor
  pub has_more : Bool

pub record StreamConfig : Type 0 where
  pub buffer_size : ℕ
  pub batch_size : ℕ
  pub consumer_id : String

abbrev pub default_config : StreamConfig
default_config = record { buffer_size = 10_000; batch_size = 100; consumer_id = "" }

pub record EventStream (J : Type 0) : Type 0 where
  pub buffer : List (DecodedEvent J)
  pub buffer_size : ℕ
  pub consumers : HashMap String StreamCursor
  pub version : ℕ

-- the clamp of a consumer's cursor, for one that stands at or above the block
unfoldable pub rewind_cursor : ℕ → ℕ → StreamCursor → StreamCursor
rewind_cursor block_number version c =
    if leb block_number c.block_number
    then record { block_number = block_number - 1; log_index = 0; version = version }
    else record c { version = version }

module _ {J : Type 0} where
  -- `StreamCursor::is_before`
  unfoldable pub is_before : StreamCursor → DecodedEvent J → Bool
  is_before c event =
      ltb c.block_number event.block_number
      || c.block_number == event.block_number && ltb c.log_index event.log_index

  unfoldable pub new : ℕ → EventStream J
  new buffer_size = record { buffer = []; buffer_size = buffer_size; consumers = []; version = 0 }

  unfoldable pub push : EventStream J → DecodedEvent J → EventStream J
  push s event =
      let kept = if leb s.buffer_size (length s.buffer) then pop_front s.buffer else s.buffer in
      record s { buffer = kept ++ event ∷ [] }

  -- Whether the batch of a cursor takes the event; the initial cursor takes all.
  unfoldable pub wanted : StreamCursor → DecodedEvent J → Bool
  wanted c event = same_cursor c initial || is_before c event

  -- The loop over the buffer. Once the limit is reached no further event is added, as after `break`.
  unfoldable pub gather :
      ℕ → StreamCursor → List (DecodedEvent J) → List (DecodedEvent J) → List (DecodedEvent J)
  unfolding wanted
  gather limit c events [] = events
  gather limit c events (event ∷ buffer) =
      let taken =
        if leb limit (length events)
        then events
        else if wanted c event
        then events ++ event ∷ []
        else events in
      gather limit c taken buffer

  unfoldable pub cursor_after : ℕ → StreamCursor → List (DecodedEvent J) → StreamCursor
  cursor_after version c events = elim (back events) [
    | none ↦ record c { version = version }
    | some last ↦ record {
      block_number = last.block_number;
      log_index = last.log_index;
      version = version;
    }
  ]

  unfoldable pub next_batch :
      (ℕ → String) → EventStream J → StreamCursor → ℕ → Result (EventBatch J) IndexerError
  unfolding gather cursor_after wanted
  next_batch display s c limit =
      let events = gather limit c [] s.buffer in
      if not (c.version == s.version) && not (same_cursor c initial)
      then err (
          other (
            concat "cursor version " (
              concat (display c.version) (
                concat " does not match stream version "
                  (concat (display s.version) " (reorg occurred)")))))
      else ok (record {
        events = events;
        cursor = cursor_after s.version c events;
        has_more = ltb (length events) (count (wanted c) s.buffer);
      })

  unfoldable pub register_consumer : EventStream J → String → EventStream J
  register_consumer s id = record s {
    consumers = HashMap.insert s.consumers id (record initial { version = s.version });
  }

  unfoldable pub get_consumer_cursor : EventStream J → String → Option StreamCursor
  get_consumer_cursor s id = HashMap.get s.consumers id

  unfoldable pub update_consumer_cursor : EventStream J → String → StreamCursor → EventStream J
  update_consumer_cursor s id cursor =
      if HashMap.contains_key s.consumers id
      then record s { consumers = HashMap.insert s.consumers id cursor }
      else s

  unfoldable pub invalidate_after : EventStream J → ℕ → EventStream J
  unfolding rewind_cursor
  invalidate_after s block_number =
      let version = u64 (s.version + 1) in
      record s {
        buffer = filter (λ e. ltb e.block_number block_number) s.buffer;
        version = version;
        consumers = map (λ b. (b.0, rewind_cursor block_number version b.1)) s.consumers;
      }

  unfoldable pub len : EventStream J → ℕ
  len s = length s.buffer

  unfoldable pub is_empty : EventStream J → Bool
  is_empty s = length s.buffer == 0
