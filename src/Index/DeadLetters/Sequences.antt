-- ===== src/Index/DeadLetters/Sequences.antt =====
-- The statistics of the queue against its entries, after any sequence of calls.
use chainkit.Prelude.{String, arith, false, none, refl, some, u64_max, ◌<◌, ◌≡◌}
use chainkit.Prelude.Int.{ℤ}
use chainkit.Index.Event.{DecodedEvent}
use chainkit.Index.DeadLetters.{
  DlqEntry, DlqConfig, DeadLetterQueue, Library, new, entry_of, push, pop_ready, mark_success,
  mark_failed, get, retry_all_failed,
}
use chainkit.Index.DeadLetters.Accounts.{
  is_failed, Accounts, push-Accounts, pop_ready-Accounts, mark_success-Accounts,
  mark_failed-Accounts, retry_all_failed-Accounts,
}

module _ {J : Type 0} where
  -- The calls: an event is pushed under an id that is not in the queue, and a retry is reported for
  -- an entry that has not failed for good.
  pub data Step (lib : Library) : DeadLetterQueue J → DeadLetterQueue J → Type 0 where
    pushes :
        (q : DeadLetterQueue J) (event : DecodedEvent J) (handler message : String) (now : ℤ)
        → get q (entry_of lib q.config event handler message now).id ≡ none
        → q.stats.total_added < u64_max
        → Step lib q (push lib q event handler message now)
    pops : (q : DeadLetterQueue J) (now : ℤ) → Step lib q (pop_ready q now).1
    succeeds :
        (q : DeadLetterQueue J) (id : String) (e : DlqEntry J)
        → get q id ≡ some e
        → is_failed e ≡ false
        → q.stats.total_added < u64_max
        → Step lib q (mark_success q id)
    fails :
        (q : DeadLetterQueue J) (id message : String) (now : ℤ) (e : DlqEntry J)
        → get q id ≡ some e
        → is_failed e ≡ false
        → q.stats.total_added < u64_max
        → Step lib q (mark_failed lib q id message now)
    revives :
        (q : DeadLetterQueue J) (now : ℤ)
        → q.stats.total_added < u64_max
        → Step lib q (retry_all_failed q now).1

  -- What is reached from a new queue.
  pub data Reachable (lib : Library) (config : DlqConfig) : DeadLetterQueue J → Type 0 where
    start : Reachable lib config (new config)
    after :
        {q r : DeadLetterQueue J} → Reachable lib config q → Step lib q r → Reachable lib config r

  Step-Accounts : (lib : Library) {q r : DeadLetterQueue J} → Step lib q r → Accounts q → Accounts r
  Step-Accounts lib (pushes q event handler message now fresh h) a =
      push-Accounts lib q event handler message now fresh h a
  Step-Accounts lib (pops q now) a = pop_ready-Accounts q now a
  Step-Accounts lib (succeeds q id e g f h) a = mark_success-Accounts q id e g f h a
  Step-Accounts lib (fails q id message now e g f h) a =
      mark_failed-Accounts lib q id message now e g f h a
  Step-Accounts lib (revives q now h) a = retry_all_failed-Accounts q now h a

  -- In every queue that is reached by pushes under new ids, retries, their reports for entries that
  -- have not failed for good, and revivals: the pending count is the number of the entries that are
  -- pending or being retried, and not of the pending ones alone, the failed count is the number of those
  -- that have failed for good, all that were added are there or were retried with success, and the ids are
  -- distinct.
  pub Reachable-Accounts :
      (lib : Library) (config : DlqConfig) {q : DeadLetterQueue J}
      → Reachable lib config q
      → Accounts q
  unfolding new
  Reachable-Accounts lib config start = record {
    active = refl;
    given_up = refl;
    added = omega arith;
    distinct = tt;
  }
  Reachable-Accounts lib config (after r s) = Step-Accounts lib s (Reachable-Accounts lib config r)
