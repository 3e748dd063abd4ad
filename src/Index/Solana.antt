-- ===== src/Index/Solana.antt =====
-- chainindex-solana/src/lib.rs: the slots and the window of them. A `BTreeMap` of slots by their numbers
-- is the list of them in ascending order; the formatting of a number is an argument, `display`.
pub mod Window
pub mod Summaries
use chainkit.Prelude.{
  Bool, List, Option, Result, String, [], concat, err, false, filter, if◌then◌else◌, leb, length,
  ltb, none, not, ok, some, suc, true, u64, zero, ℕ, ◌+◌, ◌-◌, ◌==◌, ◌∷◌, nat_eq, string_eq,
  pair_eq,
}
use chainkit.Prelude.Int.{ℤ, pos}
use chainkit.Index.Block.{Block}
use chainkit.Index.Error.{IndexerError, other}

pub data RewardType : Type 0 where
  fee rent voting staking : RewardType

pub record SlotReward : Type 0 where
  pub pubkey : String
  pub lamports : ℤ
  pub reward_type : RewardType

pub record SolanaSlot : Type 0 where
  pub slot : ℕ
  pub parent_slot : ℕ
  pub block_time : Option ℤ
  pub block_hash : String
  pub tx_count : ℕ
  pub leader : Option String
  pub rewards : List SlotReward

pub record SlotTracker : Type 0 where
  pub slots : List SolanaSlot
  pub window_size : ℕ

unfoldable pub new : ℕ → SlotTracker
new window_size = record { slots = []; window_size = window_size }

unfoldable pub contains_key : List SolanaSlot → ℕ → Bool
contains_key [] n = false
contains_key (s ∷ ss) n = if s.slot == n then true else contains_key ss n

-- `BTreeMap::insert` of a key that is not there
unfoldable pub insert : List SolanaSlot → SolanaSlot → List SolanaSlot
insert [] s = s ∷ []
insert (x ∷ xs) s = if ltb s.slot x.slot then s ∷ x ∷ xs else x ∷ insert xs s

-- the loop that evicts the oldest slot while there are too many
unfoldable pub evict : ℕ → List SolanaSlot → List SolanaSlot
evict window_size [] = []
evict window_size (s ∷ ss) =
    let rest = evict window_size ss in if ltb window_size (suc (length ss)) then rest else s ∷ ss

unfoldable pub push_slot :
    (ℕ → String) → SlotTracker → SolanaSlot → Result (Unit {0}) IndexerError × SlotTracker
unfolding contains_key insert evict
push_slot display t s =
    if contains_key t.slots s.slot
    then (err (other (concat "slot " (concat (display s.slot) " already tracked"))), t)
    else (ok tt, record t { slots = evict t.window_size (insert t.slots s) })

-- `keys().next_back()`
unfoldable pub last_key : List SolanaSlot → Option ℕ
last_key [] = none
last_key (s ∷ ss) = elim (last_key ss) [ none ↦ some s.slot | some n ↦ some n ]

unfoldable pub head_slot : SlotTracker → Option ℕ
unfolding last_key
head_slot t = last_key t.slots

-- `range(n..).next()`
unfoldable pub first_from : ℕ → List SolanaSlot → Option ℕ
first_from n [] = none
first_from n (s ∷ ss) = if leb n s.slot then some s.slot else first_from n ss

unfoldable pub is_slot_skipped : SlotTracker → ℕ → Bool
unfolding contains_key last_key first_from
is_slot_skipped t slot =
    if contains_key t.slots slot
    then false
    else elim (last_key (filter (λ s. ltb s.slot slot) t.slots)) [
      | none ↦ false
      | some a ↦ elim (first_from (u64 (slot + 1)) t.slots) [
        | none ↦ false
        | some b ↦ ltb (u64 (a + 1)) b
      ]
    ]

-- the numbers from `from` on, `n` of them
numbers : ℕ → ℕ → List ℕ
numbers from zero = []
numbers from (suc n) = from ∷ numbers (from + 1) n

unfoldable pub skipped_slots_in_range : SlotTracker → ℕ → ℕ → List ℕ
unfolding contains_key numbers
skipped_slots_in_range t from to =
    filter (λ n. not (contains_key t.slots n)) (numbers from (to + 1 - from))

unfoldable pub len : SlotTracker → ℕ
len t = length t.slots

unfoldable pub is_empty : SlotTracker → Bool
is_empty t = length t.slots == 0

-- `SolanaSlot::to_block_summary`
unfoldable pub to_block_summary : (ℕ → String) → SolanaSlot → Block
to_block_summary display s = record {
  number = s.slot;
  hash = s.block_hash;
  parent_hash = concat "parent:" (display s.parent_slot);
  timestamp = elim s.block_time [ none ↦ pos 0 | some time ↦ time ];
  tx_count = s.tx_count;
}
