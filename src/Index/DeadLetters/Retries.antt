-- ===== src/Index/DeadLetters/Retries.antt =====
-- What is handed out for a retry, and a report that comes after an entry was given up.
use chainkit.Prelude.{
  All, Bool-cases, List, String, [], ap, arith, count, false, filter, if◌then◌else◌, inl, inr, leb,
  map, refl, some, true, u32, u64, ◌+◌, ◌-◌, ◌<◌, ◌∷◌, ◌≡◌, ◌≤◌,
}
use chainkit.Prelude.Int.{ℤ, leb_ℤ}
use chainkit.Index.DeadLetters.{
  DlqEntry, DeadLetterQueue, Library, retrying, has_status, is_due, pop_ready, retried,
  failed_again, mark_failed, get,
}
use chainkit.Index.DeadLetters.Entries.{count-replace_first}
use chainkit.Index.DeadLetters.Accounts.{is_failed, failed_again_lem}

module _ {J : Type 0} where
  mark : ℤ → DlqEntry J → DlqEntry J
  mark now e = if is_due now e then retried e else e

  not_due_again :
      (now later : ℤ) (e : DlqEntry J) → leb_ℤ later now ≡ true → is_due later (mark now e) ≡ false
  unfolding is_due mark
  not_due_again now later e h = ground (arith, h)

  nothing_due :
      (now later : ℤ) (es : List (DlqEntry J))
      → leb_ℤ later now ≡ true
      → filter (is_due later) (map (mark now) es) ≡ []
  nothing_due now later [] h = refl
  nothing_due now later (e ∷ es) h = rw (not_due_again now later e h) (nothing_due now later es h)

  handed_out :
      (now : ℤ) (es : List (DlqEntry J))
      → All
          (λ e. (has_status retrying e ≡ true) × (leb_ℤ e.next_retry_at now ≡ true))
          (map retried (filter (is_due now) es))
  unfolding is_due
  handed_out now [] = tt
  handed_out now (e ∷ es) = elim (Bool-cases (is_due now e)) [
    | inl x ↦ rw (x, is_due) ((refl, ground (arith, x)), handed_out now es)
    | inr x ↦ rw (x, is_due) (handed_out now es)
  ]

  -- What is handed out is due and marked as being retried, and is not handed out again: the next
  -- call, if its time is not later, hands out nothing.
  pub pop_ready_once :
      (q : DeadLetterQueue J) (now later : ℤ)
      → leb_ℤ later now ≡ true
      → All
          (λ (e : DlqEntry J). (has_status retrying e ≡ true) × (leb_ℤ e.next_retry_at now ≡ true))
          (pop_ready q now).0
        × ((pop_ready (pop_ready q now).1 later).0 ≡ [])
  unfolding pop_ready mark
  pop_ready_once q now later h =
      (handed_out now q.entries, ap (map retried) (nothing_due now later q.entries h))

  -- A failure that is reported for an entry that was given up already, with all its attempts
  -- used and their count below the largest `u32`, is counted a second time: the failed count grows and the pending count falls, while
  -- as many entries as before have failed.
  pub mark_failed_twice :
      (lib : Library) (q : DeadLetterQueue J) (id message : String) (now : ℤ) (e : DlqEntry J)
      → get q id ≡ some e
      → is_failed e ≡ true
      → e.max_attempts ≤ e.attempt_count
      → e.attempt_count < 4294967295
      → let q' = mark_failed lib q id message now in
        (count is_failed q'.entries ≡ count is_failed q.entries)
        × (q'.stats.failed_count ≡ u64 (q.stats.failed_count + 1))
        × (q'.stats.pending_count ≡ q.stats.pending_count - 1)
  unfolding mark_failed get
  mark_failed_twice lib q id message now e g f m w =
      let e' = failed_again lib e message now in
      let spent = (failed_again_lem lib e message now).1 in
      let last : leb e.max_attempts (u32 (e.attempt_count + 1)) ≡ true = ground (arith, m, w) in
      let same = count-replace_first is_failed id e e' q.entries g in
      rw (g, mark_failed, last) (ground (arith, same, f, spent, last), refl, refl)
