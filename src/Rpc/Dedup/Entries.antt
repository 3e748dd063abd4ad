-- ===== src/Rpc/Dedup/Entries.antt =====
-- The entry of the key that a task asks for is the channel that the task has the sender of.
use chainkit.Prelude.{
  Bool-cases, Result, [], arith, beq_refl, count, count-set, count_none, get_elem?, inl, inr,
  length, none, set, set-cases, snoc-cases, some, sym, ℕ, ◌++◌, ◌==◌, ◌∙◌, ◌∷◌, ◌≡◌, ◌≤◌, nat_eq,
  string_eq, pair_eq,
}
use mathlib.Core.Path.{subst}
use chainkit.HashMap
use chainkit.HashMap.Laws.{get-insert, get-remove}
use chainkit.Rpc.Request.{JsonRpcResponse}
use chainkit.Rpc.Error.{TransportError}
use chainkit.Rpc.Dedup.{
  Outside, DedupTransport, Task, asking, answered, returned, gone, answer, clean, drop_asking,
}
use chainkit.Rpc.Dedup.Steps.{Quiet, asks, Kept}
use chainkit.Rpc.Dedup.Single.{holds, Held, Held-Kept}

module _ {J : Type 0} where
  abbrev pub Entered : DedupTransport J → Type 0
  Entered d =
      (j key c : ℕ) → get_elem? d.tasks j ≡ some (asking key c) → HashMap.get d.pending key ≡ some c

  -- A task that asks for nothing takes the place of another one.
  no_entry :
      (d : DedupTransport J) (i : ℕ) (u : Task J)
      → Quiet u
      → Entered d
      → (j key c : ℕ) → get_elem? (set d.tasks i u) j ≡ some (asking key c)
      → HashMap.get d.pending key ≡ some c
  no_entry d i u q h j key c e = elim (set-cases d.tasks i j u (asking key c) e) [
    | inl p ↦ absurd (subst Quiet (sym p) q)
    | inr p ↦ h j key c p
  ]

  joins-Entered :
      (d : DedupTransport J) (u : Task J)
      → Quiet u
      → Entered d
      → Entered (record d { tasks = d.tasks ++ u ∷ [] })
  joins-Entered d u q h j key c e = elim (snoc-cases d.tasks j u (asking key c) e) [
    | inl p ↦ absurd (subst Quiet (sym p) q)
    | inr p ↦ h j key c p
  ]

  asks-Entered :
      (d : DedupTransport J) (i k : ℕ)
      → HashMap.get d.pending k ≡ none
      → Entered d
      → Entered (asks d i k)
  asks-Entered d i k q h j key c e = elim (set-cases d.tasks i j _ (asking key c) e) [
    | inl p ↦ ground (arith, get-insert d.pending k key (length d.channels))
    | inr p ↦ ground (arith, get-insert d.pending k key (length d.channels), h j key c p)
  ]

  answers-Entered :
      (outside : Outside J) (d : DedupTransport J) (i k b : ℕ)
      (result : Result (JsonRpcResponse J) (TransportError J))
      → Entered d
      → Entered (answer outside d i k b result)
  unfolding answer
  answers-Entered outside d i k b result h j key c e =
      elim (set-cases d.tasks i j (answered k result) (asking key c) e) [
        | inl p ↦ cc
        | inr p ↦ h j key c p
      ]

  clean-Entered :
      (d : DedupTransport J) (i k : ℕ) (result : Result (JsonRpcResponse J) (TransportError J))
      → get_elem? d.tasks i ≡ some (answered k result)
      → Held d
      → Entered d
      → Entered (clean d i k result)
  unfolding clean
  clean-Entered d i k result t held h j key c e =
      let kept = no_entry d i (returned result) tt h j key c e in
      elim (Bool-cases (k == key)) [
        | inr x ↦ get-remove d.pending k key ∙ rw x kept
        | inl x ↦
            let n = count-set (holds key) d.tasks i (answered k result) (returned result) t in
            let most : count (holds key) d.tasks ≤ 1 = ground (arith, held key) in
            let free : count (holds key) (set d.tasks i (returned result)) ≡ 0 =
              ground (arith, n, x, most) in
            let no_match =
              count_none (holds key) (set d.tasks i (returned result)) j (asking key c) free e in
            cc (no_match, beq_refl key)
      ]

  -- both, as the second one needs the first
  abbrev pub HeldEntered : DedupTransport J → Type 0
  HeldEntered d = Held d × Entered d

  pub HeldEntered-Kept : Kept HeldEntered
  unfolding drop_asking
  HeldEntered-Kept = record {
    joins = λ d u q (h, n). (Held-Kept.joins d u q h, joins-Entered d u q n);
    replaces = λ d i t u e q (h, n). (Held-Kept.replaces d i t u e q h, no_entry d i u q n);
    asking_begins =
        λ d i key t e (h, n). (Held-Kept.asking_begins d i key t e h, asks-Entered d i key e n);
    answer_comes = λ outside d i key c result e (h, n). (
      Held-Kept.answer_comes outside d i key c result e h,
      answers-Entered outside d i key c result n,
    );
    entry_goes = λ d i key result e (h, n).
        (Held-Kept.entry_goes d i key result e h, clean-Entered d i key result e h n);
    asking_dropped =
        λ d i key c e (h, n). (Held-Kept.asking_dropped d i key c e h, no_entry d i gone tt n);
  }
