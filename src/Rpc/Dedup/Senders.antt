-- ===== src/Rpc/Dedup/Senders.antt =====
-- Which tasks have the sender of a channel.
use chainkit.Prelude.{
  Bool, [], arith, count, count-append, count-set, false, get_elem?, if◌then◌else◌, length,
  length-append, length-set, ltb, refl, set, some, ℕ, ◌==◌, ◌∷◌, ◌≡◌, ◌≤◌, nat_eq, string_eq,
  pair_eq,
}
use chainkit.Rpc.Dedup.{
  DedupTransport, Task, looked, asking, answered, waiting, returned, gone, empty, answer, clean,
  drop_asking,
}
use chainkit.Rpc.Dedup.Steps.{Quiet, Kept}

module _ {J : Type 0} where
  -- a task that has the sender of the channel
  abbrev pub asks_on : ℕ → Task J → Bool
  asks_on c (looked k) = false
  asks_on c (asking k b) = b == c
  asks_on c (answered k result) = false
  asks_on c (waiting b) = false
  asks_on c (returned result) = false
  asks_on c gone = false

  -- at most one task for each channel that there is
  abbrev pub Sending : DedupTransport J → Type 0
  Sending d = (c : ℕ) → count (asks_on c) d.tasks ≤ (if ltb c (length d.channels) then 1 else 0)

  -- A task that is replaced by one that has no sender.
  sends_less :
      (d : DedupTransport J) (i c : ℕ) (t u : Task J)
      → get_elem? d.tasks i ≡ some t
      → asks_on c u ≡ false
      → Sending d
      → count (asks_on c) (set d.tasks i u) ≤ (if ltb c (length d.channels) then 1 else 0)
  sends_less d i c t u e n h = ground (arith, count-set (asks_on c) d.tasks i t u e, n, h c)

  pub Quiet-asks_on : (c : ℕ) (u : Task J) → Quiet u → asks_on c u ≡ false
  Quiet-asks_on c (looked k) q = refl
  Quiet-asks_on c (asking k b) q = absurd q
  Quiet-asks_on c (answered k result) q = absurd q
  Quiet-asks_on c (waiting b) q = refl
  Quiet-asks_on c (returned result) q = refl
  Quiet-asks_on c gone q = refl

  pub Sending-Kept : Kept Sending
  unfolding answer clean drop_asking
  Sending-Kept = record {
    joins = λ d u q h c.
        ground (arith, count-append (asks_on c) d.tasks (u ∷ []), Quiet-asks_on c u q, h c);
    replaces = λ d i t u e q h c. sends_less d i c t u e (Quiet-asks_on c u q) h;
    asking_begins = λ d i key t e h c. ground (
      arith,
      count-set (asks_on c) d.tasks i (looked key) (asking key (length d.channels)) t,
      length-append d.channels (empty ∷ []),
      h c,
    );
    answer_comes = λ outside d i key b result e h c. rw length-set (sends_less d i c _ _ e refl h);
    entry_goes = λ d i key result e h c. sends_less d i c _ _ e refl h;
    asking_dropped = λ d i key b e h c. rw length-set (sends_less d i c _ gone e refl h);
  }
