-- ===== src/Rpc/Dedup/Steps.antt =====
-- What is kept by the few ways in which the tasks change the shared state is kept by every step.
use chainkit.Prelude.{
  List, Option, Option-cases, Result, [], get_elem?, inl, inr, length, none, refl, set, some, ℕ,
  ◌++◌, ◌∷◌, ◌≡◌, nat_eq, string_eq, pair_eq,
}
use chainkit.HashMap
use chainkit.Rpc.Request.{JsonRpcResponse}
use chainkit.Rpc.Error.{TransportError}
use chainkit.Rpc.Dedup.{
  Outside, Channel, Found, DedupTransport, Task, looked, asking, answered, waiting, returned, gone,
  empty, no_change, no_sender, a_result, Step, looks, enters, wakes, cleans, drops, answers, step,
  run, look, enter, wake, answer, clean, drop_asking,
}

module _ {J : Type 0} where
  -- a task with no request of its own under way
  abbrev pub Quiet : Task J → Type 0
  Quiet (asking key c) = ⊥
  Quiet (answered key result) = ⊥
  Quiet _ = Unit

  -- the task i asks for a key that has no entry
  abbrev pub asks : DedupTransport J → ℕ → ℕ → DedupTransport J
  asks d i key = record d {
    pending = HashMap.insert d.pending key (length d.channels);
    channels = d.channels ++ empty ∷ [];
    tasks = set d.tasks i (asking key (length d.channels));
  }

  pub record Kept (P : DedupTransport J → Type 0) : Type 0 where
    pub joins :
        (d : DedupTransport J) (u : Task J)
        → Quiet u
        → P d
        → P (record d { tasks = d.tasks ++ u ∷ [] })
    pub replaces :
        (d : DedupTransport J) (i : ℕ) (t u : Task J)
        → get_elem? d.tasks i ≡ some t
        → Quiet u
        → P d
        → P (record d { tasks = set d.tasks i u })
    pub asking_begins :
        (d : DedupTransport J) (i key : ℕ)
        → get_elem? d.tasks i ≡ some (looked key)
        → HashMap.get d.pending key ≡ none
        → P d
        → P (asks d i key)
    pub answer_comes :
        (outside : Outside J) (d : DedupTransport J) (i key c : ℕ)
        (result : Result (JsonRpcResponse J) (TransportError J))
        → get_elem? d.tasks i ≡ some (asking key c)
        → P d
        → P (answer outside d i key c result)
    pub entry_goes :
        (d : DedupTransport J) (i key : ℕ) (result : Result (JsonRpcResponse J) (TransportError J))
        → get_elem? d.tasks i ≡ some (answered key result)
        → P d
        → P (clean d i key result)
    pub asking_dropped :
        (d : DedupTransport J) (i key c : ℕ)
        → get_elem? d.tasks i ≡ some (asking key c)
        → P d
        → P (drop_asking d i c)

  module _ (P : DedupTransport J → Type 0) (k : Kept P) where
    look-Kept : (d : DedupTransport J) (key : ℕ) → P d → P (look d key)
    unfolding look
    look-Kept d key h = elim (Option-cases (HashMap.get d.pending key)) [
      | inl e ↦ rw (look, e) (k.joins d (looked key) tt h)
      | inr (c, e) ↦ rw (look, e) (k.joins d (waiting c) tt h)
    ]

    enter-Kept :
        (d : DedupTransport J) (i key : ℕ)
        → get_elem? d.tasks i ≡ some (looked key)
        → P d
        → P (enter d i key)
    unfolding enter
    enter-Kept d i key t h = elim (Option-cases (HashMap.get d.pending key)) [
      | inl e ↦ rw (enter, e) (k.asking_begins d i key t e h)
      | inr (c, e) ↦ rw (enter, e) (k.replaces d i (looked key) (waiting c) t tt h)
    ]

    found-Kept :
        (outside : Outside J) (d : DedupTransport J) (i c : ℕ) (channel : Channel J)
        (found : Found J)
        → get_elem? d.tasks i ≡ some (waiting c)
        → get_elem? d.channels c ≡ some channel
        → outside.read channel ≡ found
        → P d
        → P (wake outside d i c)
    unfolding wake
    found-Kept outside d i c channel no_change t e r h = rw (wake, e, r) h
    found-Kept outside d i c channel no_sender t e r h =
        rw (wake, e, r) (k.replaces d i (waiting c) (returned _) t tt h)
    found-Kept outside d i c channel (a_result result) t e r h =
        rw (wake, e, r) (k.replaces d i (waiting c) (returned _) t tt h)

    wake-Kept :
        (outside : Outside J) (d : DedupTransport J) (i c : ℕ)
        → get_elem? d.tasks i ≡ some (waiting c)
        → P d
        → P (wake outside d i c)
    unfolding wake
    wake-Kept outside d i c t h = elim (Option-cases (get_elem? d.channels c)) [
      | inl e ↦ rw (wake, e) h
      | inr (channel, e) ↦ found-Kept outside d i c channel (outside.read channel) t e refl h
    ]

    module _ (outside : Outside J) (d : DedupTransport J) (i : ℕ) (h : P d) where
      enters-Kept : (o : Option (Task J)) → get_elem? d.tasks i ≡ o → P (step outside d (enters i))
      unfolding step
      enters-Kept (some (looked key)) e = rw (step, e) (enter-Kept d i key e h)
      enters-Kept _ e = rw (step, e) h

      answers-Kept :
          (result : Result (JsonRpcResponse J) (TransportError J)) (o : Option (Task J))
          → get_elem? d.tasks i ≡ o
          → P (step outside d (answers i result))
      unfolding step
      answers-Kept result (some (asking key c)) e =
          rw (step, e) (k.answer_comes outside d i key c result e h)
      answers-Kept result _ e = rw (step, e) h

      cleans-Kept : (o : Option (Task J)) → get_elem? d.tasks i ≡ o → P (step outside d (cleans i))
      unfolding step
      cleans-Kept (some (answered key result)) e = rw (step, e) (k.entry_goes d i key result e h)
      cleans-Kept _ e = rw (step, e) h

      wakes-Kept : (o : Option (Task J)) → get_elem? d.tasks i ≡ o → P (step outside d (wakes i))
      unfolding step
      wakes-Kept (some (waiting c)) e = rw (step, e) (wake-Kept outside d i c e h)
      wakes-Kept _ e = rw (step, e) h

      drops-Kept : (o : Option (Task J)) → get_elem? d.tasks i ≡ o → P (step outside d (drops i))
      unfolding step
      drops-Kept (some (looked key)) e = rw (step, e) (k.replaces d i (looked key) gone e tt h)
      drops-Kept (some (asking key c)) e = rw (step, e) (k.asking_dropped d i key c e h)
      drops-Kept (some (waiting c)) e = rw (step, e) (k.replaces d i (waiting c) gone e tt h)
      drops-Kept _ e = rw (step, e) h

    step-Kept :
        (outside : Outside J) (d : DedupTransport J) (s : Step J) → P d → P (step outside d s)
    unfolding step
    step-Kept outside d (looks key) h = look-Kept d key h
    step-Kept outside d (enters i) h = enters-Kept outside d i h (get_elem? d.tasks i) refl
    step-Kept outside d (answers i result) h =
        answers-Kept outside d i h result (get_elem? d.tasks i) refl
    step-Kept outside d (cleans i) h = cleans-Kept outside d i h (get_elem? d.tasks i) refl
    step-Kept outside d (wakes i) h = wakes-Kept outside d i h (get_elem? d.tasks i) refl
    step-Kept outside d (drops i) h = drops-Kept outside d i h (get_elem? d.tasks i) refl

    pub run-Kept :
        (outside : Outside J) (d : DedupTransport J) (ss : List (Step J))
        → P d
        → P (run outside d ss)
    run-Kept outside d [] h = h
    run-Kept outside d (s ∷ ss) h = run-Kept outside (step outside d s) ss (step-Kept outside d s h)
