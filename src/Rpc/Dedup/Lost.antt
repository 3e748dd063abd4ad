-- ===== src/Rpc/Dedup/Lost.antt =====
-- What is left of a call whose future is dropped while it asks the inner transport.
use chainkit.Prelude.{
  Bool, Bool-cases, List, Result, [], ap, arith, count, count-append, count-set, count_none, false,
  get_elem?, get_elem?-append_left, get_elem?-set_other, get_elem?-set_self, get_elem?-snoc, inl,
  inr, length, length-append, lt_of-get_elem?, none, refl, set, some, ℕ, ◌++◌, ◌<◌, ◌==◌, ◌∙◌, ◌∷◌,
  ◌≡◌, ◌≤◌, nat_eq, string_eq, pair_eq,
}
use chainkit.HashMap
use chainkit.HashMap.Laws.{get-insert, get-remove}
use chainkit.Rpc.Request.{JsonRpcResponse}
use chainkit.Rpc.Error.{TransportError}
use chainkit.Rpc.Dedup.{
  DedupTransport, Task, looked, asking, answered, waiting, returned, gone, empty, closed, Outside,
  no_sender, Step, looks, wakes, drops, step, run, new, look, wake, answer, clean, drop_asking,
  sender_dropped,
}
use chainkit.Rpc.Dedup.Steps.{Quiet, asks, Kept, run-Kept}
use chainkit.Rpc.Dedup.Single.{holds, Held, Quiet-holds, empty_Held}
use chainkit.Rpc.Dedup.Entries.{HeldEntered, HeldEntered-Kept}
use chainkit.Rpc.Dedup.Senders.{asks_on, Sending, Sending-Kept, Quiet-asks_on}

module _ {J : Type 0} where
  -- A key whose entry is a closed channel, and which no task is to take away.
  abbrev pub Lost : ℕ → ℕ → DedupTransport J → Type 0
  Lost key c d =
      (HashMap.get d.pending key ≡ some c)
      × (get_elem? d.channels c ≡ some closed)
      × (count (holds key) d.tasks ≡ 0)
      × (count (asks_on c) d.tasks ≡ 0)

  still_none :
      (p : Task J → Bool) (ts : List (Task J)) (i : ℕ) (t u : Task J)
      → get_elem? ts i ≡ some t
      → p u ≡ false
      → count p ts ≡ 0
      → count p (set ts i u) ≡ 0
  still_none p ts i t u e n z = ground (arith, count-set p ts i t u e, n, z)

module _ {J : Type 0} (key c : ℕ) where
  -- a task that neither holds the key nor has the sender of the channel takes the place of another one
  stays :
      (d : DedupTransport J) (i : ℕ) (t u : Task J)
      → get_elem? d.tasks i ≡ some t
      → holds key u ≡ false
      → asks_on c u ≡ false
      → Lost key c d
      → Lost key c (record d { tasks = set d.tasks i u })
  stays d i t u e n m (p, q, y, z) =
      (p, q, still_none (holds key) d.tasks i t u e n y, still_none (asks_on c) d.tasks i t u e m z)

  joins-Lost :
      (d : DedupTransport J) (u : Task J)
      → Quiet u
      → Lost key c d
      → Lost key c (record d { tasks = d.tasks ++ u ∷ [] })
  joins-Lost d u q (p, w, y, z) = (
    p,
    w,
    ground (arith, count-append (holds key) d.tasks (u ∷ []), Quiet-holds key u q),
    ground (arith, count-append (asks_on c) d.tasks (u ∷ []), Quiet-asks_on c u q),
  )

  asks-Lost :
      (d : DedupTransport J) (i k : ℕ)
      → get_elem? d.tasks i ≡ some (looked k)
      → HashMap.get d.pending k ≡ none
      → Lost key c d
      → Lost key c (asks d i k)
  asks-Lost d i k t e (p, q, y, z) =
      let apart : (k == key) ≡ false = elim (Bool-cases (k == key)) [
        | inr x ↦ x
        | inl x ↦ cc (e, p, ap (HashMap.get d.pending) ((nat_eq.same_iff k key).0 x))
      ] in
      let there = lt_of-get_elem? d.channels c closed q in
      let new_one : (length d.channels == c) ≡ false = ground arith in
      (
        get-insert d.pending k key (length d.channels) ∙ rw apart p,
        get_elem?-append_left d.channels (empty ∷ []) c there ∙ q,
        still_none (holds key) d.tasks i (looked k) _ t apart y,
        still_none (asks_on c) d.tasks i (looked k) _ t new_one z,
      )

  answer-Lost :
      (outside : Outside J) (d : DedupTransport J) (i k b : ℕ)
      (result : Result (JsonRpcResponse J) (TransportError J))
      → get_elem? d.tasks i ≡ some (asking k b)
      → Lost key c d
      → Lost key c (answer outside d i k b result)
  unfolding answer
  answer-Lost outside d i k b result e (p, q, y, z) = (
    p,
    get_elem?-set_other d.channels b c _ (count_none (asks_on c) d.tasks i _ z e) ∙ q,
    still_none (holds key) d.tasks i _ (answered k result) e
        (count_none (holds key) d.tasks i (asking k b) y e) y,
    still_none (asks_on c) d.tasks i _ (answered k result) e refl z,
  )

  clean-Lost :
      (d : DedupTransport J) (i k : ℕ) (result : Result (JsonRpcResponse J) (TransportError J))
      → get_elem? d.tasks i ≡ some (answered k result)
      → Lost key c d
      → Lost key c (clean d i k result)
  unfolding clean
  clean-Lost d i k result e (p, q, y, z) =
      let kept = get-remove d.pending k key in
      let other = count_none (holds key) d.tasks i (answered k result) y e in
      let (a, b, f, g) = stays d i _ (returned result) e refl refl (p, q, y, z) in
      (kept ∙ rw other p, b, f, g)

  drops-Lost :
      (d : DedupTransport J) (i k b : ℕ)
      → get_elem? d.tasks i ≡ some (asking k b)
      → Lost key c d
      → Lost key c (drop_asking d i b)
  unfolding drop_asking
  drops-Lost d i k b e (p, q, y, z) = (
    p,
    get_elem?-set_other d.channels b c _ (count_none (asks_on c) d.tasks i _ z e) ∙ q,
    still_none (holds key) d.tasks i _ gone e refl y,
    still_none (asks_on c) d.tasks i _ gone e refl z,
  )

  Lost-Kept : Kept {J = J} (Lost key c)
  Lost-Kept = record {
    joins = joins-Lost;
    replaces = λ d i t u e q. stays d i t u e (Quiet-holds key u q) (Quiet-asks_on c u q);
    asking_begins = asks-Lost;
    answer_comes = answer-Lost;
    entry_goes = clean-Lost;
    asking_dropped = drops-Lost;
  }

module _ {J : Type 0} (outside : Outside J) (finds : outside.read closed ≡ no_sender) where
  -- The future of the one task that asks for a key is dropped.
  drop-Lost :
      (d : DedupTransport J) (i key c : ℕ)
      → Held d
      → Sending d
      → get_elem? d.tasks i ≡ some (asking key c)
      → HashMap.get d.pending key ≡ some c
      → Lost key c (step outside d (drops i))
  unfolding step drop_asking
  drop-Lost d i key c h s t p =
      let n = count-set (holds key) d.tasks i (asking key c) gone t in
      let m = count-set (asks_on c) d.tasks i (asking key c) gone t in
      let one : count (holds key) d.tasks ≤ 1 = ground (arith, h key) in
      let one_sender : count (asks_on c) d.tasks ≤ 1 = ground (arith, s c) in
      let there : c < length d.channels = ground (arith, m, s c) in
      rw (step, t, drop_asking)
        (
          p,
          get_elem?-set_self d.channels c closed there,
          ground (arith, n, one),
          ground (arith, m, one_sender),
        )

  -- a call that comes when the key is lost
  call-Lost :
      (key c : ℕ) (d : DedupTransport J)
      → Lost key c d
      → get_elem? (run outside d (looks key ∷ wakes (length d.tasks) ∷ [])).tasks (length d.tasks)
        ≡ some (returned sender_dropped)
  unfolding step look wake
  call-Lost key c d (p, q, y, z) =
      let here = get_elem?-snoc d.tasks (waiting c) in
      let longer = length-append d.tasks (waiting c ∷ []) in
      rw (look, p, step, here, wake, q, finds, p)
        (get_elem?-set_self (d.tasks ++ waiting c ∷ []) (length d.tasks) (returned sender_dropped)
          (omega (arith, longer)))

  -- Where a call is dropped while it asks the inner transport, after any interleaving of calls, its key is
  -- lost: whatever steps follow, its entry stays, and every later call with that key returns the error
  -- that the sender was dropped, without the inner transport being asked, where a receiver finds that the
  -- sender of a channel is dropped once it was dropped before it had sent.
  pub dropped_for_good :
      (ss later : List (Step J)) (i key c : ℕ)
      → get_elem? (run outside new ss).tasks i ≡ some (asking key c)
      → let d = run outside (step outside (run outside new ss) (drops i)) later in
        (HashMap.get d.pending key ≡ some c)
        × (count (holds key) d.tasks ≡ 0)
        × (get_elem?
              (run outside d (looks key ∷ wakes (length d.tasks) ∷ [])).tasks
              (length d.tasks)
            ≡ some (returned sender_dropped))
  dropped_for_good ss later i key c t =
      let empty_Sending : Sending {J = J} new = λ b. ground arith in
      let d = run outside new ss in
      let (held, entered) =
        run-Kept HeldEntered HeldEntered-Kept outside new ss (empty_Held J, λ j k b e. cc) in
      let sending = run-Kept Sending Sending-Kept outside new ss empty_Sending in
      let dropped = drop-Lost d i key c held sending t (entered i key c t) in
      let lost =
        run-Kept (Lost key c) (Lost-Kept key c) outside (step outside d (drops i)) later dropped in
      (lost.0, lost.2, call-Lost key c (run outside (step outside d (drops i)) later) lost)
