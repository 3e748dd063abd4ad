-- ===== src/Rpc/PendingPool.antt =====
-- chainrpc-core/src/pending_pool.rs. The watched set is a list without repetition. A JSON value is one of
-- `J`, and the transport answers a method for a hash; `block_hex` is `get("blockNumber")` as a text.
pub mod Watching
use chainkit.Prelude.{
  Bool, List, Option, Result, String, [], contains, err, false, filter, if◌then◌else◌, leb, length,
  none, not, ok, or_zero, some, true, ℕ, ◌==◌, ◌∷◌, nat_eq, string_eq, pair_eq,
}
use chainkit.Prelude.Hex.{codes, trim_0x, from_str_radix_16}
use chainkit.Rpc.Error.{TransportError, rpc}
use chainkit.Rpc.Request.{Value, JsonRpcResponse, JsonRpcError, into_result}

pub record PendingPoolConfig : Type 0 where
  pub poll_interval : ℕ
  pub max_monitored : ℕ

-- in milliseconds
abbrev pub default_config : PendingPoolConfig
default_config = record { poll_interval = 2000; max_monitored = 256 }

pub data PendingTxStatus : Type 0 where
  pending not_found : PendingTxStatus
  included : ℕ → PendingTxStatus

pub record PendingPoolMonitor : Type 0 where
  pub config : PendingPoolConfig
  pub watched : List String

unfoldable pub new : PendingPoolConfig → PendingPoolMonitor
new config = record { config = config; watched = [] }

-- `HashSet::insert`, with whether the hash is new
unfoldable pub watch : PendingPoolMonitor → String → Bool × PendingPoolMonitor
watch m tx_hash =
    if leb m.config.max_monitored (length m.watched)
    then (false, m)
    else if contains m.watched tx_hash
    then (false, m)
    else (true, record m { watched = tx_hash ∷ m.watched })

unfoldable pub unwatch : PendingPoolMonitor → String → PendingPoolMonitor
unwatch m tx_hash = record m { watched = filter (λ j. not (j == tx_hash)) m.watched }

unfoldable pub tx_count : PendingPoolMonitor → ℕ
tx_count m = length m.watched

module _ {J : Type 0} (ops : Value J) (is_null : J → Bool) (block_hex : J → Option String)
    (send : String → String → Result (JsonRpcResponse J) (TransportError J)) where
  -- one request, with the error of the transport or of the node
  unfoldable pub ask : String → String → Result J (TransportError J)
  unfolding into_result
  ask method tx_hash = elim (send method tx_hash) [
    | err e ↦ err e
    | ok response ↦ elim (into_result ops response) [ err e ↦ err (rpc e) | ok v ↦ ok v ]
  ]

  -- `unwrap_or(0)`
  unfoldable pub block_of : J → ℕ
  unfolding trim_0x from_str_radix_16
  block_of receipt = elim (block_hex receipt) [
    | none ↦ 0
    | some hex ↦ or_zero (from_str_radix_16 (trim_0x (codes hex)))
  ]

  -- what the transaction itself says, where there is no receipt
  by_hash : Result J (TransportError J) → Result PendingTxStatus (TransportError J)
  by_hash (err e) = err e
  by_hash (ok tx) = ok (if is_null tx then not_found else pending)

  unfoldable pub check_status : String → Result PendingTxStatus (TransportError J)
  unfolding ask block_of by_hash
  check_status tx_hash = elim (ask "eth_getTransactionReceipt" tx_hash) [
    | err e ↦ err e
    | ok receipt ↦
        if is_null receipt
        then by_hash (ask "eth_getTransactionByHash" tx_hash)
        else ok (included (block_of receipt))
  ]
