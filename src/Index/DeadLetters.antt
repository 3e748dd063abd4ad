-- ===== src/Index/DeadLetters.antt =====
-- chainindex-core/src/dlq.rs: the queue of events whose handler failed. What stands behind the two
-- locks is one record. A reading of the clock, `now` in seconds, is an argument; so are the
-- formatting of numbers and the backoff in seconds of an attempt, which the source computes in `f64`.
pub mod Entries
pub mod Accounts
pub mod Sequences
pub mod Retries
use chainkit.Prelude.{
  Bool, List, Option, String, [], concat, count, filter, find?, if◌then◌else◌, leb, length, ltb,
  map, none, not, some, u32, u64, ℕ, ◌&&◌, ◌++◌, ◌+◌, ◌-◌, ◌==◌, ◌∷◌, nat_eq, string_eq, pair_eq,
}
use chainkit.Prelude.Int.{ℤ, pos, i64, leb_ℤ, ◌+ℤ◌}
use chainkit.Index.Event.{DecodedEvent}

pub data DlqStatus : Type 0 where
  pending retrying failed : DlqStatus

pub record DlqEntry (J : Type 0) : Type 0 where
  pub id : String
  pub event : DecodedEvent J
  pub handler_name : String
  pub error_message : String
  pub attempt_count : ℕ
  pub max_attempts : ℕ
  pub first_failed_at : ℤ
  pub last_failed_at : ℤ
  pub next_retry_at : ℤ
  pub status : DlqStatus

-- The other two fields, `max_backoff` and `backoff_multiplier`, are only read by the backoff.
pub record DlqConfig : Type 0 where
  pub max_retries : ℕ
  pub initial_backoff : ℕ

pub record DlqStats : Type 0 where
  pub total_added : ℕ
  pub pending_count : ℕ
  pub failed_count : ℕ
  pub retried_success : ℕ

pub record DeadLetterQueue (J : Type 0) : Type 0 where
  pub config : DlqConfig
  pub entries : List (DlqEntry J)
  pub stats : DlqStats

-- What the queue takes from other libraries.
pub record Library : Type 0 where
  pub display : ℕ → String
  pub display_i64 : ℤ → String
  pub backoff : ℕ → ℕ

abbrev pub status_code : DlqStatus → ℕ
status_code pending = 0
status_code retrying = 1
status_code failed = 2

-- the derived `==` of the status
abbrev pub has_status : {J : Type 0} → DlqStatus → DlqEntry J → Bool
has_status s e = status_code e.status == status_code s

module _ {J : Type 0} where
  unfoldable pub new : DlqConfig → DeadLetterQueue J
  new config = record {
    config = config;
    entries = [];
    stats = record { total_added = 0; pending_count = 0; failed_count = 0; retried_success = 0 };
  }

  unfoldable pub entry_of : Library → DlqConfig → DecodedEvent J → String → String → ℤ → DlqEntry J
  entry_of lib config event handler_name error_message now = record {
    id = concat "dlq-" (
        concat event.tx_hash
          (concat "-" (concat (lib.display event.log_index) (concat "-" (lib.display_i64 now)))));
    event = event;
    handler_name = handler_name;
    error_message = error_message;
    attempt_count = 1;
    max_attempts = config.max_retries;
    first_failed_at = now;
    last_failed_at = now;
    next_retry_at = i64 (now +ℤ i64 (pos config.initial_backoff));
    status = pending;
  }

  unfoldable pub push :
      Library → DeadLetterQueue J → DecodedEvent J → String → String → ℤ → DeadLetterQueue J
  unfolding entry_of
  push lib q event handler_name error_message now =
      let entry = entry_of lib q.config event handler_name error_message now in
      record q {
        entries = q.entries ++ entry ∷ [];
        stats = record q.stats {
          total_added = u64 (q.stats.total_added + 1);
          pending_count = u64 (q.stats.pending_count + 1);
        };
      }

  unfoldable pub is_due : ℤ → DlqEntry J → Bool
  is_due now e = has_status pending e && leb_ℤ e.next_retry_at now

  abbrev pub retried : DlqEntry J → DlqEntry J
  retried e = record e { status = retrying }

  -- The loop marks each entry that is due, and pushes a copy.
  unfoldable pub pop_ready : DeadLetterQueue J → ℤ → List (DlqEntry J) × DeadLetterQueue J
  unfolding is_due
  pop_ready q now = (
    map retried (filter (is_due now) q.entries),
    record q { entries = map (λ e. if is_due now e then retried e else e) q.entries },
  )

  unfoldable pub mark_success : DeadLetterQueue J → String → DeadLetterQueue J
  mark_success q id =
      let left = filter (λ e. not (e.id == id)) q.entries in
      if ltb (length left) (length q.entries)
      then record q {
        entries = left;
        stats = record q.stats {
          pending_count = q.stats.pending_count - 1;
          retried_success = u64 (q.stats.retried_success + 1);
        };
      }
      else record q { entries = left }

  -- the first entry with the id, in place
  unfoldable pub replace_first : String → DlqEntry J → List (DlqEntry J) → List (DlqEntry J)
  replace_first id new_entry [] = []
  replace_first id new_entry (e ∷ es) =
      if e.id == id then new_entry ∷ es else e ∷ replace_first id new_entry es

  unfoldable pub failed_again : Library → DlqEntry J → String → ℤ → DlqEntry J
  failed_again lib e error_message now =
      let attempts = u32 (e.attempt_count + 1) in
      let bumped : DlqEntry J = record e {
        attempt_count = attempts;
        last_failed_at = now;
        error_message = error_message;
      } in
      if leb e.max_attempts attempts then record bumped { status = failed } else record bumped {
        next_retry_at = i64 (now +ℤ i64 (pos (lib.backoff attempts)));
        status = pending;
      }

  unfoldable pub mark_failed : Library → DeadLetterQueue J → String → String → ℤ → DeadLetterQueue J
  unfolding replace_first failed_again
  mark_failed lib q id error_message now = elim (find? (λ e. e.id == id) q.entries) [
    | none ↦ q
    | some e ↦
        let e' = failed_again lib e error_message now in
        record q {
          entries = replace_first id e' q.entries;
          stats =
              if leb e.max_attempts (u32 (e.attempt_count + 1))
              then record q.stats {
                pending_count = q.stats.pending_count - 1;
                failed_count = u64 (q.stats.failed_count + 1);
              }
              else q.stats;
        }
  ]

  unfoldable pub get_by_status : DeadLetterQueue J → DlqStatus → List (DlqEntry J)
  get_by_status q status = filter (has_status status) q.entries

  unfoldable pub get : DeadLetterQueue J → String → Option (DlqEntry J)
  get q id = find? (λ e. e.id == id) q.entries

  unfoldable pub len : DeadLetterQueue J → ℕ
  len q = length q.entries

  unfoldable pub is_empty : DeadLetterQueue J → Bool
  is_empty q = length q.entries == 0

  unfoldable pub purge_before : DeadLetterQueue J → ℤ → ℕ × DeadLetterQueue J
  purge_before q timestamp =
      let left = filter (λ e. leb_ℤ timestamp e.last_failed_at) q.entries in
      let removed = length q.entries - length left in
      (
        removed,
        if ltb 0 removed
            then record q {
              entries = left;
              stats = record q.stats { pending_count = q.stats.pending_count - removed };
            }
            else record q { entries = left },
      )

  abbrev pub revived : ℤ → DlqEntry J → DlqEntry J
  revived now e =
      if has_status failed e
      then record e { status = pending; attempt_count = 0; next_retry_at = now }
      else e

  unfoldable pub retry_all_failed : DeadLetterQueue J → ℤ → ℕ × DeadLetterQueue J
  retry_all_failed q now =
      let revivals = count (has_status failed) q.entries in
      (
        revivals,
        if ltb 0 revivals
            then record q {
              entries = map (revived now) q.entries;
              stats = record q.stats {
                failed_count = q.stats.failed_count - revivals;
                pending_count = u64 (q.stats.pending_count + revivals);
              };
            }
            else record q { entries = map (revived now) q.entries },
      )
