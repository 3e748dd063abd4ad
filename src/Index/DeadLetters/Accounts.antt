-- ===== src/Index/DeadLetters/Accounts.antt =====
-- The statistics of the queue against its entries, call by call.
use chainkit.Prelude.{
  Bool, Bool-cases, List, String, [], ap, arith, count, count-append, false, filter, find?,
  if◌then◌else◌, inl, inr, leb, length, length-append, ltb, lt→ltb, map, none, not, refl, some, suc,
  sym, true, u32, u64_max, ◌+◌, ◌<◌, ◌==◌, ◌∙◌, ◌∷◌, ◌≡◌, nat_eq, string_eq, pair_eq,
}
use chainkit.Prelude.Int.{ℤ}
use chainkit.Index.Event.{DecodedEvent}
use chainkit.Index.DeadLetters.{
  DlqEntry, DeadLetterQueue, Library, failed, has_status, entry_of, push, is_due, pop_ready,
  retried, mark_success, replace_first, failed_again, mark_failed, get, revived, retry_all_failed,
}
use chainkit.Index.DeadLetters.Entries.{
  Distinct, Distinct-snoc, ids, ids-append, ids-map, ids-replace_first, absent, Distinct-filter,
  count-map, count-replace_first, count-filter_id,
}

module _ {J : Type 0} where
  abbrev pub is_failed : DlqEntry J → Bool
  is_failed e = has_status failed e

  abbrev pub is_active : DlqEntry J → Bool
  is_active e = not (is_failed e)

  -- The statistics say how many entries are pending or being retried, how many have failed, and how many
  -- were added.
  pub record Accounts (q : DeadLetterQueue J) : Type 0 where
    pub active : q.stats.pending_count ≡ count is_active q.entries
    pub given_up : q.stats.failed_count ≡ count is_failed q.entries
    pub added : q.stats.total_added ≡ length q.entries + q.stats.retried_success
    pub distinct : Distinct (ids q.entries)

  pub split : (es : List (DlqEntry J)) → count is_active es + count is_failed es ≡ length es
  split [] = refl
  split (e ∷ es) = ground (arith, split es)

  pub push-Accounts :
      (lib : Library) (q : DeadLetterQueue J) (event : DecodedEvent J) (handler message : String)
      (now : ℤ)
      → get q (entry_of lib q.config event handler message now).id ≡ none
      → q.stats.total_added < u64_max
      → Accounts q
      → Accounts (push lib q event handler message now)
  unfolding push entry_of get
  push-Accounts lib q event handler message now fresh h a =
      let e = entry_of lib q.config event handler message now in
      record {
        active = ground (
          arith,
          a.active,
          a.added,
          split q.entries,
          count-append is_active q.entries (e ∷ []),
          h,
        );
        given_up = ground (arith, a.given_up, count-append is_failed q.entries (e ∷ []));
        added = omega (arith, a.added, length-append q.entries (e ∷ []), h);
        distinct =
            rw (ids-append q.entries e)
              (Distinct-snoc (ids q.entries) e.id (absent e.id q.entries fresh) a.distinct);
      }

  length-map :
      (f : DlqEntry J → DlqEntry J) (es : List (DlqEntry J)) → length (map f es) ≡ length es
  length-map f [] = refl
  length-map f (e ∷ es) = ap suc (length-map f es)

  pub pop_ready-Accounts :
      (q : DeadLetterQueue J) (now : ℤ) → Accounts q → Accounts (pop_ready q now).1
  unfolding pop_ready is_due
  pop_ready-Accounts q now a =
      let f = λ (e : DlqEntry J). if is_due now e then retried e else e in
      record {
        active = a.active ∙ sym (count-map is_active f q.entries (λ e. ground arith));
        given_up = a.given_up ∙ sym (count-map is_failed f q.entries (λ e. ground arith));
        added = omega (arith, a.added, length-map f q.entries);
        distinct = rw (ids-map f q.entries (λ e. ground arith)) a.distinct;
      }

  pub mark_success-Accounts :
      (q : DeadLetterQueue J) (id : String) (e : DlqEntry J)
      → get q id ≡ some e
      → is_failed e ≡ false
      → q.stats.total_added < u64_max
      → Accounts q
      → Accounts (mark_success q id)
  unfolding mark_success get
  mark_success-Accounts q id e g f h a =
      let left = filter (λ x. not (x.id == id)) q.entries in
      let actives : count is_active left + 1 ≡ count is_active q.entries =
        ground (arith, f, count-filter_id is_active id e q.entries a.distinct g) in
      let faileds : count is_failed left ≡ count is_failed q.entries =
        ground (arith, f, count-filter_id is_failed id e q.entries a.distinct g) in
      let shorter : length left + 1 ≡ length q.entries =
        omega (arith, actives, faileds, split left, split q.entries) in
      let removed : ltb (length left) (length q.entries) ≡ true =
        lt→ltb _ _ (omega (arith, shorter)) in
      rw removed (record {
        active = omega (arith, a.active, actives);
        given_up = omega (arith, a.given_up, faileds);
        added = omega (arith, a.added, shorter, h);
        distinct = Distinct-filter (λ x. not (x.id == id)) q.entries a.distinct;
      })

  find-id :
      (id : String) (es : List (DlqEntry J)) (e : DlqEntry J)
      → find? (λ x. x.id == id) es ≡ some e
      → e.id ≡ id
  find-id id [] e h = absurd cc
  find-id id (x ∷ es) e h = elim (Bool-cases (x.id == id)) [
    | inl y ↦
        let same : x ≡ e = ground (arith, h, y) in
        ap (λ (z : DlqEntry J). z.id) (sym same) ∙ (string_eq.same_iff x.id id).0 y
    | inr y ↦ find-id id es e (ground (arith, h, y))
  ]

  pub failed_again_lem :
      (lib : Library) (e : DlqEntry J) (message : String) (now : ℤ)
      → let e' = failed_again lib e message now in
        (e'.id ≡ e.id) × (is_failed e' ≡ leb e.max_attempts (u32 (e.attempt_count + 1)))
  unfolding failed_again
  failed_again_lem lib e message now =
      elim (Bool-cases (leb e.max_attempts (u32 (e.attempt_count + 1)))) [
        | inl x ↦ rw x (refl, refl)
        | inr x ↦ rw x (refl, refl)
      ]

  length-replace_first :
      (id : String) (e e' : DlqEntry J) (es : List (DlqEntry J))
      → find? (λ x. x.id == id) es ≡ some e
      → length (replace_first id e' es) ≡ length es
  length-replace_first id e e' es h = ground (
    arith,
    split es,
    split (replace_first id e' es),
    count-replace_first is_active id e e' es h,
    count-replace_first is_failed id e e' es h,
  )

  pub mark_failed-Accounts :
      (lib : Library) (q : DeadLetterQueue J) (id message : String) (now : ℤ) (e : DlqEntry J)
      → get q id ≡ some e
      → is_failed e ≡ false
      → q.stats.total_added < u64_max
      → Accounts q
      → Accounts (mark_failed lib q id message now)
  unfolding mark_failed get
  mark_failed-Accounts lib q id message now e g f h a =
      let e' = failed_again lib e message now in
      let (kept, spent) = failed_again_lem lib e message now in
      let actives = count-replace_first is_active id e e' q.entries g in
      let faileds = count-replace_first is_failed id e e' q.entries g in
      rw (g, mark_failed)
        (record {
          active = ground (arith, a.active, actives, f, spent);
          given_up = ground (arith, a.given_up, faileds, f, spent, h, a.added, split q.entries);
          added = ground (arith, a.added, length-replace_first id e e' q.entries g);
          distinct =
              rw (ids-replace_first id e' q.entries (kept ∙ find-id id q.entries e g)) a.distinct;
        })

  revived-active : (now : ℤ) (e : DlqEntry J) → is_failed (revived now e) ≡ false
  revived-active now e = ground arith

  all_active :
      (now : ℤ) (es : List (DlqEntry J))
      → (count is_failed (map (revived now) es) ≡ 0)
        × (count is_active (map (revived now) es) ≡ length es)
  all_active now [] = (refl, refl)
  all_active now (e ∷ es) =
      let (none_failed, active) = all_active now es in
      rw (revived-active now e) (none_failed, ap suc active)

  pub retry_all_failed-Accounts :
      (q : DeadLetterQueue J) (now : ℤ)
      → q.stats.total_added < u64_max
      → Accounts q
      → Accounts (retry_all_failed q now).1
  unfolding retry_all_failed
  retry_all_failed-Accounts q now h a =
      let (none_failed, active) = all_active now q.entries in
      let long = length-map (revived now) q.entries in
      let same_ids = ids-map (revived now) q.entries (λ e. ground arith) in
      elim (Bool-cases (ltb 0 (count is_failed q.entries))) [
        | inl x ↦ rw x (record {
          active = omega (arith, a.active, active, split q.entries, a.added, h);
          given_up = omega (arith, a.given_up, none_failed);
          added = omega (arith, a.added, long);
          distinct = rw same_ids a.distinct;
        })
        | inr x ↦ rw x (record {
          active = ground (arith, x, a.active, active, split q.entries);
          given_up = ground (arith, x, a.given_up, none_failed);
          added = omega (arith, a.added, long);
          distinct = rw same_ids a.distinct;
        })
      ]
