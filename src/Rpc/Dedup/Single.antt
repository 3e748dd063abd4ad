-- ===== src/Rpc/Dedup/Single.antt =====
-- At most one task at a time asks for a key.
use chainkit.Prelude.{
  Bool, Bool-cases, List, Option-cases, Result, [], arith, count, count-append, count-set, false,
  get_elem?, inl, inr, length, none, refl, set, some, ℕ, ◌==◌, ◌∷◌, ◌≡◌, ◌≤◌, nat_eq, string_eq,
  pair_eq,
}
use mathlib.Core.Path.{subst}
use chainkit.HashMap
use chainkit.HashMap.Laws.{get-insert, get-remove}
use chainkit.Rpc.Request.{JsonRpcResponse}
use chainkit.Rpc.Error.{TransportError}
use chainkit.Rpc.Dedup.{
  Outside, DedupTransport, Task, looked, asking, answered, waiting, returned, gone, Step, run, new,
  answer, clean, drop_asking,
}
use chainkit.Rpc.Dedup.Steps.{Quiet, asks, Kept, run-Kept}

module _ {J : Type 0} where
  -- a task that is to take the entry of the key away again
  abbrev pub holds : ℕ → Task J → Bool
  holds key (looked k) = false
  holds key (asking k c) = k == key
  holds key (answered k result) = k == key
  holds key (waiting c) = false
  holds key (returned result) = false
  holds key gone = false

  -- one for a key that has an entry, else none
  abbrev pub entries : DedupTransport J → ℕ → ℕ
  entries d key = elim (HashMap.get d.pending key) [ none ↦ 0 | some c ↦ 1 ]

  abbrev pub Held : DedupTransport J → Type 0
  Held d = (key : ℕ) → count (holds key) d.tasks ≤ entries d key

  pub Quiet-holds : (key : ℕ) (u : Task J) → Quiet u → holds key u ≡ false
  Quiet-holds key (looked k) q = refl
  Quiet-holds key (asking k c) q = absurd q
  Quiet-holds key (answered k result) q = absurd q
  Quiet-holds key (waiting c) q = refl
  Quiet-holds key (returned result) q = refl
  Quiet-holds key gone q = refl

  -- A task that comes to hold nothing.
  lets_go :
      (d : DedupTransport J) (i k : ℕ) (t u : Task J)
      → get_elem? d.tasks i ≡ some t
      → holds k u ≡ false
      → Held d
      → count (holds k) (set d.tasks i u) ≤ entries d k
  lets_go d i k t u e n h = ground (arith, count-set (holds k) d.tasks i t u e, n, h k)

  asks-Held :
      (d : DedupTransport J) (i key : ℕ)
      → get_elem? d.tasks i ≡ some (looked key)
      → HashMap.get d.pending key ≡ none
      → Held d
      → Held (asks d i key)
  asks-Held d i key t e h k =
      let n = count-set (holds k) d.tasks i (looked key) (asking key (length d.channels)) t in
      elim (Bool-cases (key == k)) [
        | inr x ↦ rw (entries, get-insert, x) (ground (arith, n, x, h k))
        | inl x ↦
            let none_held : count (holds k) d.tasks ≤ 0 =
              subst (λ j. count (holds j) d.tasks ≤ 0) ((nat_eq.same_iff key k).0 x)
                (rw (e, entries) at (h key)) in
            rw (entries, get-insert, x) (ground (arith, n, x, none_held))
      ]

  clean-Held :
      (d : DedupTransport J) (i key : ℕ) (result : Result (JsonRpcResponse J) (TransportError J))
      → get_elem? d.tasks i ≡ some (answered key result)
      → Held d
      → Held (clean d i key result)
  unfolding clean
  clean-Held d i key result t h k =
      let n = count-set (holds k) d.tasks i (answered key result) (returned result) t in
      elim (Bool-cases (key == k)) [
        | inr x ↦ rw (clean, entries, get-remove, x) (ground (arith, n, x, h k))
        | inl x ↦ rw (clean, entries, get-remove, x) (ground (arith, n, x, h k))
      ]

  pub Held-Kept : Kept Held
  unfolding answer drop_asking
  Held-Kept = record {
    joins = λ d u q h k.
        ground (arith, count-append (holds k) d.tasks (u ∷ []), Quiet-holds k u q, h k);
    replaces = λ d i t u e q h k. lets_go d i k t u e (Quiet-holds k u q) h;
    asking_begins = asks-Held;
    answer_comes = λ outside d i key c result e h k.
        ground (arith, count-set (holds k) d.tasks i (asking key c) (answered key result) e, h k);
    entry_goes = clean-Held;
    asking_dropped = λ d i key c e h k. lets_go d i k (asking key c) gone e refl h;
  }

pub empty_Held : (J : Type 0) → Held {J = J} new
empty_Held J k = unfold HashMap.get in omega arith

module _ {J : Type 0} where
  -- However the calls of any tasks interleave, answered, failing and dropped ones among them, at most one
  -- of them at a time asks the inner transport for a key or has its entry still to take away, and only
  -- while the key has an entry.
  pub asked_once :
      (outside : Outside J) (ss : List (Step J)) (key : ℕ)
      → (count (holds key) (run outside new ss).tasks ≤ 1)
        × (HashMap.get (run outside new ss).pending key ≡ none
            → count (holds key) (run outside new ss).tasks ≡ 0)
  asked_once outside ss key =
      let h = run-Kept Held Held-Kept outside new ss (empty_Held J) key in
      elim (Option-cases (HashMap.get (run outside new ss).pending key)) [
        | inl e ↦ ground (arith, h, e)
        | inr (c, e) ↦ ground (arith, h, e)
      ]
