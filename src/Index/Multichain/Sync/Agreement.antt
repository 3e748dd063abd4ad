-- ===== src/Index/Multichain/Sync/Agreement.antt =====
-- What the tests of `ChainSyncStatus` say, and how they agree with those of the coordinator.
use chainkit.Prelude.{
  All, Bool, Bool-cases, String, [], arith, false, inl, inr, leb, length, none, not, or_zero, refl,
  true, ℕ, ◌&&◌, ◌-◌, ◌==◌, ◌↔◌, ◌∙◌, ◌∷◌, ◌≡◌, ◌≢◌, ◌≤◌, ◌⊎◌, nat_eq, string_eq, pair_eq,
}
use text.Mathlib.TextEquality.{eq_iff}
use chainkit.HashMap
use chainkit.HashMap.{HashMap, DistinctKeys}
use chainkit.HashMap.Laws.{get-insert}
use chainkit.Index.Multichain.{ChainInstance, MultiChainCoordinator}
use chainkit.Index.Multichain.Coordinator
use chainkit.Index.Multichain.Coordinator.{all}
use chainkit.Index.Multichain.Sync.{
  ChainSyncStatus, new, update, update_all, from_coordinator, all_past_block, within, all_caught_up,
  head_of,
}

-- The lag of a chain is at most a threshold, where the head of an unknown chain counts as 0.
abbrev pub Near : ChainSyncStatus → ℕ → String × ℕ → Type 0
Near s threshold b = b.1 - or_zero (head_of s b.0) ≤ threshold

within-Near :
    (s : ChainSyncStatus) (threshold : ℕ) (m : HashMap String ℕ)
    → (within s threshold m ≡ true) ↔ All (Near s threshold) m
unfolding within head_of
within-Near s threshold [] = ((λ h. tt), λ h. refl)
within-Near s threshold (b ∷ m) =
    let (to, from) = within-Near s threshold m in
    (
      (λ h. (ground (arith, h), to (ground (arith, h)))),
      λ h. let rest = from h.1 in ground (arith, h.0, rest),
    )

emptiness :
    (m : HashMap String ℕ)
    → (((length m == 0) ≡ true) × (m ≡ [])) ⊎ (((length m == 0) ≡ false) × (m ≢ []))
emptiness [] = inl (refl, refl)
emptiness (b ∷ m) = inr (ground arith, λ e. cc)

-- All chains count as caught up exactly where some tip is known and every chain with a known tip is
-- at most the threshold behind it, at head 0 if it was never updated.
pub all_caught_up-Near :
    (s : ChainSyncStatus) (threshold : ℕ)
    → (all_caught_up s threshold ≡ true) ↔ ((s.tips ≢ []) × All (Near s threshold) s.tips)
unfolding all_caught_up
all_caught_up-Near s threshold = elim (emptiness s.tips) [
  | inl (z, e) ↦ ((λ h. absurd (ground (arith, h, z))), λ h. absurd (h.0 e))
  | inr (z, other) ↦
      let (to, from) = within-Near s threshold s.tips in
      (
        (λ h. (other, to (ground (arith, h, z)))),
        λ h. let near = from h.1 in ground (arith, z, near),
      )
]

-- A binding that a map gains.
all-insert :
    (p : String × ℕ → Bool) (m : HashMap String ℕ) (k : String) (v : ℕ)
    → HashMap.get m k ≡ none
    → all p (HashMap.insert m k v) ≡ (all p m && p (k, v))
unfolding HashMap.get HashMap.insert
all-insert p [] k v h = ground arith
all-insert p ((j, w) ∷ m) k v h = elim (Bool-cases (j == k)) [
  | inl x ↦ absurd (ground (arith, x, h))
  | inr x ↦
      let rest : HashMap.get m k ≡ none = ground (arith, x, h) in
      rw x (ground (arith, all-insert p m k v rest))
]

-- no binding of one map has its key in another
abbrev Apart : HashMap String ℕ → HashMap String ChainInstance → Type 0
Apart m l = All (λ b. HashMap.get m b.0 ≡ none) l

Apart-insert :
    (m : HashMap String ℕ) (k : String) (v : ℕ) (l : HashMap String ChainInstance)
    → All (λ (b : String × ChainInstance). b.0 ≡ k → ⊥) l
    → Apart m l
    → Apart (HashMap.insert m k v) l
Apart-insert m k v [] h a = tt
Apart-insert m k v (b ∷ l) h a =
    (ground (arith, h.0, a.0, eq_iff k b.0, get-insert m k b.0 v), Apart-insert m k v l h.1 a.1)

update_all-all :
    (p : String × ℕ → Bool) (s : ChainSyncStatus) (l : HashMap String ChainInstance)
    → DistinctKeys l
    → Apart s.chains l
    → all p (update_all s l).chains ≡ (all p s.chains && all (λ b. p (b.0, b.1.head_block)) l)
unfolding update_all update
update_all-all p s [] d a = ground arith
update_all-all p s (b ∷ l) d a =
    update_all-all p (update s b.0 b.1.head_block) l d.1
      (Apart-insert s.chains b.0 b.1.head_block l d.0 a.1)
    ∙ rw (all-insert p s.chains b.0 b.1.head_block a.0) (ground arith)

snapshot-all :
    (p : String × ℕ → Bool) (c : MultiChainCoordinator)
    → DistinctKeys c.instances
    → all p (from_coordinator c).chains ≡ all (λ b. p (b.0, b.1.head_block)) c.instances
unfolding from_coordinator HashMap.get
snapshot-all p c d = update_all-all p new c.instances d (apart_from_nothing c.instances)
  where
    apart_from_nothing : (l : HashMap String ChainInstance) → Apart [] l
    apart_from_nothing [] = tt
    apart_from_nothing (b ∷ l) = (refl, apart_from_nothing l)

empty-all : {V : Type 0} (m : HashMap String V) → (length m == 0) ≡ all (λ b. false) m
empty-all [] = refl
empty-all (b ∷ m) = ground arith

-- A snapshot of a coordinator, in which no chain is registered twice, says that every chain is past a
-- block exactly where the coordinator says it, but for a coordinator with no chain: that counts as
-- past any block, its snapshot as past none.
from_coordinator-all_past_block :
    (c : MultiChainCoordinator) (chain : String) (block : ℕ)
    → DistinctKeys c.instances
    → all_past_block (from_coordinator c) chain block
      ≡ (not (length c.instances == 0) && Coordinator.all_past_block c block)
unfolding all_past_block Coordinator.all_past_block
from_coordinator-all_past_block c chain block d =
    rw
      (
        empty-all (from_coordinator c).chains,
        snapshot-all (λ b. false) c d,
        snapshot-all (λ b. leb block b.1) c d,
        empty-all c.instances,
      )
      (ground arith)
