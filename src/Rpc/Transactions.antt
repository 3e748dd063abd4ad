-- ===== src/Rpc/Transactions.antt =====
-- chainrpc-core/src/tx.rs: the tracker of submitted transactions. Each locked map is a field.
pub mod Capacity
use chainkit.Prelude.{
  List, Option, String, [], filter, if◌then◌else◌, leb, length, ltb, map, none, some, u64, ℕ, ◌&&◌,
  ◌+◌, ◌-◌, ◌==◌, nat_eq, string_eq, pair_eq,
}
use chainkit.HashMap
use chainkit.HashMap.{HashMap}

pub data TxStatus : Type 0 where
  pending : TxStatus
  included : ℕ → String → TxStatus
  confirmed : ℕ → ℕ → TxStatus
  dropped : TxStatus
  replaced : String → TxStatus
  failed : String → TxStatus

pub record TrackedTx : Type 0 where
  pub tx_hash : String
  pub sender : String
  pub nonce : ℕ
  pub submitted_at : ℕ
  pub status : TxStatus
  pub gas_price : Option ℕ
  pub max_fee : Option ℕ
  pub max_priority_fee : Option ℕ
  pub last_checked : ℕ

pub record TxTrackerConfig : Type 0 where
  pub confirmation_depth : ℕ
  pub stuck_timeout_secs : ℕ
  pub poll_interval_secs : ℕ
  pub max_tracked : ℕ

abbrev pub default_config : TxTrackerConfig
default_config = record {
  confirmation_depth = 12;
  stuck_timeout_secs = 300;
  poll_interval_secs = 3;
  max_tracked = 1000;
}

pub record TxTracker : Type 0 where
  pub config : TxTrackerConfig
  pub transactions : HashMap String TrackedTx
  pub nonce_tracker : HashMap String ℕ

unfoldable pub new : TxTrackerConfig → TxTracker
new config = record { config = config; transactions = []; nonce_tracker = [] }

unfoldable pub track : TxTracker → TrackedTx → TxTracker
track t tx =
    if leb t.config.max_tracked (length t.transactions)
    then t
    else record t { transactions = HashMap.insert t.transactions tx.tx_hash tx }

unfoldable pub untrack : TxTracker → String → TxTracker
untrack t tx_hash = record t { transactions = HashMap.remove t.transactions tx_hash }

unfoldable pub update_status : TxTracker → String → TxStatus → TxTracker
update_status t tx_hash status = elim (HashMap.get t.transactions tx_hash) [
  | none ↦ t
  | some tx ↦ record t {
    transactions = HashMap.insert t.transactions tx_hash (record tx { status = status });
  }
]

-- `std::mem::discriminant`
abbrev pub discriminant : TxStatus → ℕ
discriminant pending = 0
discriminant (included block_number block_hash) = 1
discriminant (confirmed block_number confirmations) = 2
discriminant dropped = 3
discriminant (replaced replacement_hash) = 4
discriminant (failed reason) = 5

values : HashMap String TrackedTx → List TrackedTx
values m = map (λ b. b.1) m

unfoldable pub by_status : TxTracker → TxStatus → List TrackedTx
unfolding values
by_status t status_match =
    filter (λ tx. discriminant tx.status == discriminant status_match) (values t.transactions)

unfoldable pub pending_txs : TxTracker → List TrackedTx
unfolding by_status
pending_txs t = by_status t pending

-- `tx.status == TxStatus::Pending`, of a variant with no fields, is a test of the variant.
unfoldable pub stuck : TxTracker → ℕ → List TrackedTx
unfolding values
stuck t current_time =
    filter
      (λ tx.
        discriminant tx.status == discriminant pending
        && ltb t.config.stuck_timeout_secs (current_time - tx.submitted_at))
      (values t.transactions)

unfoldable pub next_nonce : TxTracker → String → Option ℕ
next_nonce t address = elim (HashMap.get t.nonce_tracker address) [
  | none ↦ none
  | some n ↦ some (u64 (n + 1))
]

unfoldable pub set_nonce : TxTracker → String → ℕ → TxTracker
set_nonce t address nonce = record t {
  nonce_tracker = HashMap.insert t.nonce_tracker address nonce;
}

unfoldable pub tx_count : TxTracker → ℕ
tx_count t = length t.transactions

unfoldable pub get : TxTracker → String → Option TrackedTx
get t tx_hash = HashMap.get t.transactions tx_hash
