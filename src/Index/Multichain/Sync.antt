-- ===== src/Index/Multichain/Sync.antt =====
-- chainindex-core/src/multichain.rs, `ChainSyncStatus`: the heads of the chains against their tips.
pub mod Agreement
use chainkit.Prelude.{
  Bool, Option, String, [], false, if◌then◌else◌, leb, length, ltb, none, or_zero, some, true, ℕ,
  ◌-◌, ◌==◌, ◌∷◌, nat_eq, string_eq, pair_eq,
}
use chainkit.Prelude.Int.{ℤ, leb_ℤ}
use chainkit.HashMap
use chainkit.HashMap.{HashMap, DistinctKeys}
use chainkit.Index.Multichain.{ChainInstance, MultiChainCoordinator}
use chainkit.Index.Multichain.Coordinator.{all}

pub record ChainSyncStatus : Type 0 where
  pub chains : HashMap String ℕ
  pub tips : HashMap String ℕ
  pub timestamps : HashMap String ℤ

abbrev pub new : ChainSyncStatus
new = record { chains = []; tips = []; timestamps = [] }

unfoldable pub update : ChainSyncStatus → String → ℕ → ChainSyncStatus
update s chain head = record s { chains = HashMap.insert s.chains chain head }

unfoldable pub update_with_timestamp : ChainSyncStatus → String → ℕ → ℤ → ChainSyncStatus
update_with_timestamp s chain head timestamp = record s {
  chains = HashMap.insert s.chains chain head;
  timestamps = HashMap.insert s.timestamps chain timestamp;
}

unfoldable pub update_tip : ChainSyncStatus → String → ℕ → ChainSyncStatus
update_tip s chain tip = record s { tips = HashMap.insert s.tips chain tip }

abbrev fold : (ℤ → ℤ → ℤ) → ℤ → HashMap String ℤ → ℤ
fold f z [] = z
fold f z (b ∷ m) = fold f (f z b.1) m

-- `values().copied().reduce(..)`
abbrev reduce : (ℤ → ℤ → ℤ) → HashMap String ℤ → Option ℤ
reduce f [] = none
reduce f (b ∷ m) = some (fold f b.1 m)

unfoldable pub min_timestamp : ChainSyncStatus → Option ℤ
min_timestamp s = reduce (λ a b. if leb_ℤ a b then a else b) s.timestamps

unfoldable pub max_timestamp : ChainSyncStatus → Option ℤ
max_timestamp s = reduce (λ a b. if leb_ℤ a b then b else a) s.timestamps

unfoldable pub all_past_block : ChainSyncStatus → String → ℕ → Bool
all_past_block s chain block =
    if length s.chains == 0 then false else all (λ b. leb block b.1) s.chains

unfoldable pub head_of : ChainSyncStatus → String → Option ℕ
head_of s chain = HashMap.get s.chains chain

-- `unwrap_or(0)`
-- the loop over the tips, up to the first chain that is behind
unfoldable pub within : ChainSyncStatus → ℕ → HashMap String ℕ → Bool
within s threshold [] = true
within s threshold (b ∷ m) =
    if ltb threshold (b.1 - or_zero (HashMap.get s.chains b.0)) then false else within s threshold m

unfoldable pub all_caught_up : ChainSyncStatus → ℕ → Bool
unfolding within
all_caught_up s threshold = if length s.tips == 0 then false else within s threshold s.tips

unfoldable pub lag_of : ChainSyncStatus → String → Option ℕ
lag_of s chain = elim (HashMap.get s.chains chain) [
  | none ↦ none
  | some head ↦ elim (HashMap.get s.tips chain) [ none ↦ none | some tip ↦ some (tip - head) ]
]

unfoldable pub len : ChainSyncStatus → ℕ
len s = length s.chains

unfoldable pub is_empty : ChainSyncStatus → Bool
is_empty s = length s.chains == 0

-- the loop of `from_coordinator`
unfoldable pub update_all : ChainSyncStatus → HashMap String ChainInstance → ChainSyncStatus
unfolding update
update_all s [] = s
update_all s (b ∷ m) = update_all (update s b.0 b.1.head_block) m

unfoldable pub from_coordinator : MultiChainCoordinator → ChainSyncStatus
unfolding update_all
from_coordinator c = update_all new c.instances
