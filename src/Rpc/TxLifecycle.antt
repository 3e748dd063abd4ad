-- ===== src/Rpc/TxLifecycle.antt =====
-- chainrpc-core/src/tx_lifecycle.rs, with the poller of tx.rs. The answers of the node are arguments: to
-- the polls for a receipt by their number, to a count of transactions by the sender. `block_hex` and
-- `block_hash` are the texts at "blockNumber" and "blockHash", and the delays, which are computed in
-- floating point, are an argument.
pub mod Polls
pub mod Senders
use chainkit.Prelude.{
  Bool, List, Option, Result, String, [], contains, err, false, if◌then◌else◌, leb, ltb, none, not,
  ok, some, suc, true, u32, unwrap_or, zero, ℕ, ◌+◌, ◌∷◌, string_eq,
}
use chainkit.Prelude.Hex.{codes, trim_0x, from_str_radix_16}
use chainkit.Rpc.Error.{TransportError, other, rpc}
use chainkit.Rpc.Request.{Value, JsonRpcResponse, into_result}
use chainkit.Rpc.Transactions
use chainkit.Rpc.Transactions.{
  TxTracker, TrackedTx, TxStatus, pending, included, track, update_status, set_nonce, stuck,
}

-- `ReceiptPoller`: how many attempts there are, and the delay before each
pub record ReceiptPoller : Type 0 where
  pub max_attempts : ℕ
  pub delay : ℕ → ℕ

unfoldable pub delay_for_attempt : ReceiptPoller → ℕ → Option ℕ
delay_for_attempt p attempt = if ltb p.max_attempts attempt then none else some (p.delay attempt)

unfoldable pub should_continue : ReceiptPoller → ℕ → Bool
should_continue p attempt = leb attempt p.max_attempts

unfoldable pub parse_hex : String → Option ℕ
unfolding trim_0x from_str_radix_16
parse_hex hex = from_str_radix_16 (trim_0x (codes hex))

module _ {J : Type 0} (ops : Value J) where
  -- `send(..).await?` and `into_result()`
  unfoldable pub value_of :
      Result (JsonRpcResponse J) (TransportError J) → Result J (TransportError J)
  value_of (err e) = err e
  value_of (ok response) = elim (into_result ops response) [ err e ↦ err (rpc e) | ok v ↦ ok v ]

  -- `none` says that the fuel is used up; the result is a receipt, none where the attempts are used up
  unfoldable pub poll_receipt :
      (J → Bool)
      → ReceiptPoller
      → (ℕ → Result (JsonRpcResponse J) (TransportError J))
      → ℕ
      → ℕ
      → Option (Result (Option J) (TransportError J))
  unfolding delay_for_attempt value_of
  poll_receipt is_null p reply zero attempt = none
  poll_receipt is_null p reply (suc fuel) attempt = elim (delay_for_attempt p attempt) [
    | none ↦ some (ok none)
    | some d ↦ elim (value_of (reply attempt)) [
      | err e ↦ some (err e)
      | ok v ↦ elim (is_null v) [
        | false ↦ some (ok (some v))
        | true ↦ poll_receipt is_null p reply fuel (u32 (attempt + 1))
      ]
    ]
  ]

  unfoldable pub send_and_track :
      (String → Result (JsonRpcResponse J) (TransportError J))
      → ℕ
      → TxTracker
      → String
      → String
      → ℕ
      → Result String (TransportError J) × TxTracker
  unfolding value_of
  send_and_track submit now t raw_tx sender nonce = elim (value_of (submit raw_tx)) [
    | err e ↦ (err e, t)
    | ok v ↦ elim (ops.as_str v) [
      | none ↦ (err (other "eth_sendRawTransaction did not return a string hash"), t)
      | some tx_hash ↦ (
        ok tx_hash,
        track t (record {
          tx_hash = tx_hash;
          sender = sender;
          nonce = nonce;
          submitted_at = now;
          status = pending;
          gas_price = none;
          max_fee = none;
          max_priority_fee = none;
          last_checked = now;
        }),
      )
    ]
  ]

  unfoldable pub status_of : (J → Bool) → (J → Option String) → (J → Option String) → J → TxStatus
  unfolding parse_hex
  status_of is_null block_hex block_hash v =
      if is_null v
      then pending
      else included (unwrap_or (elim (block_hex v) [ none ↦ none | some hex ↦ parse_hex hex ]) 0)
          (unwrap_or (block_hash v) "0x0")

  unfoldable pub refresh_status :
      (J → Bool)
      → (J → Option String)
      → (J → Option String)
      → Result (JsonRpcResponse J) (TransportError J)
      → TxTracker
      → String
      → Result TxStatus (TransportError J) × TxTracker
  unfolding value_of status_of
  refresh_status is_null block_hex block_hash reply t tx_hash = elim (value_of reply) [
    | err e ↦ (err e, t)
    | ok v ↦
        let status = status_of is_null block_hex block_hash v in
        (ok status, update_status t tx_hash status)
  ]

  -- the count in an answer, where it has one
  unfoldable pub count_of : Result (JsonRpcResponse J) (TransportError J) → Option ℕ
  unfolding value_of parse_hex
  count_of reply = elim (value_of reply) [
    | err e ↦ none
    | ok v ↦ elim (ops.as_str v) [ none ↦ none | some hex ↦ parse_hex hex ]
  ]

  -- the loop over the stuck transactions, with the senders that were seen
  unfoldable pub refresh_senders :
      (String → Result (JsonRpcResponse J) (TransportError J))
      → List TrackedTx
      → List String
      → TxTracker
      → TxTracker
  unfolding count_of
  refresh_senders reply [] seen t = t
  refresh_senders reply (tx ∷ txs) seen t = elim (contains seen tx.sender) [
    | true ↦ refresh_senders reply txs seen t
    | false ↦ elim (count_of (reply tx.sender)) [
      | none ↦ refresh_senders reply txs (tx.sender ∷ seen) t
      | some nonce ↦ refresh_senders reply txs (tx.sender ∷ seen) (set_nonce t tx.sender nonce)
    ]
  ]

  unfoldable pub detect_stuck :
      (String → Result (JsonRpcResponse J) (TransportError J))
      → TxTracker
      → ℕ
      → List TrackedTx × TxTracker
  unfolding refresh_senders
  detect_stuck reply t current_time =
      (stuck t current_time, refresh_senders reply (stuck t current_time) [] t)
