-- ===== src/Rpc/GasBumper.antt =====
-- chainrpc-core/src/gas_bumper.rs. The texts of numbers and of a strategy are arguments, and so are the
-- signing of a transaction, the answer of the node to it, and the time.
pub mod Fees
pub mod Replacement
use Prim.Native.Nat.{max}
use chainkit.Prelude.{
  List, Option, Result, String, [], concat, err, if◌then◌else◌, leb, ltb, none, not, ok, some, u32,
  u64, unwrap_or, ℕ, ◌*◌, ◌+◌, ◌/◌, ◌==◌, nat_eq, string_eq, pair_eq,
}
use chainkit.Rpc.Error.{TransportError, other, rpc}
use chainkit.Rpc.Request.{Value, JsonRpcResponse, into_result}
use chainkit.Rpc.Gas.{
  Floats, GasSpeed, slow, standard, fast, urgent, GasEstimate, compute_gas_recommendation,
}
use chainkit.Rpc.Transactions
use chainkit.Rpc.Transactions.{
  TxTracker, TrackedTx, pending, replaced, discriminant, track, update_status,
}

pub data BumpStrategy : Type 0 where
  percentage : ℕ → BumpStrategy
  speed_tier : GasSpeed → BumpStrategy
  fixed : ℕ → ℕ → BumpStrategy
  double cancel : BumpStrategy

abbrev pub default_strategy : BumpStrategy
default_strategy = percentage 1_200

pub record BumpConfig : Type 0 where
  pub min_bump_bps : ℕ
  pub max_gas_price : ℕ
  pub max_bumps : ℕ

abbrev pub default_config : BumpConfig
default_config = record { min_bump_bps = 1_000; max_gas_price = 500_000_000_000; max_bumps = 5 }

pub record BumpResult : Type 0 where
  pub original_hash : String
  pub new_max_fee : ℕ
  pub new_max_priority_fee : ℕ
  pub new_gas_price : Option ℕ
  pub bump_count : ℕ
  pub strategy_used : String

pub record Texts : Type 0 where
  pub display : ℕ → String
  pub strategy_text : BumpStrategy → String

-- `fee * (10000 + bps as u64) / 10000`
unfoldable pub raised : ℕ → ℕ → ℕ
raised bps fee = u64 (fee * (10_000 + bps)) / 10_000

unfoldable pub current_max_fee : TrackedTx → ℕ
current_max_fee tx = unwrap_or tx.max_fee (unwrap_or tx.gas_price 0)

unfoldable pub current_priority : TrackedTx → ℕ
current_priority tx = unwrap_or tx.max_priority_fee 0

unfoldable pub replacement : TrackedTx → BumpResult → String → ℕ → TrackedTx
replacement tx bump h now = record {
  tx_hash = h;
  sender = tx.sender;
  nonce = tx.nonce;
  submitted_at = now;
  status = pending;
  gas_price = bump.new_gas_price;
  max_fee = some bump.new_max_fee;
  max_priority_fee = some bump.new_max_priority_fee;
  last_checked = now;
}

-- the hash in the answer of the node to `eth_sendRawTransaction`
unfoldable pub new_hash :
    {J : Type 0}
    → Value J
    → Result (JsonRpcResponse J) (TransportError J)
    → Result String (TransportError J)
unfolding into_result
new_hash ops (err e) = err e
new_hash ops (ok response) = elim (into_result ops response) [
  | err e ↦ err (rpc e)
  | ok v ↦ elim (ops.as_str v) [
    | none ↦ err (other "eth_sendRawTransaction did not return a hash")
    | some h ↦ ok h
  ]
]

module _ (floats : Floats) (texts : Texts) where
  unfoldable pub tier_estimate : GasSpeed → ℕ → List ℕ → GasEstimate
  tier_estimate speed base_fee samples =
      let r = compute_gas_recommendation floats base_fee samples 0 in
      elim speed [
        | slow ↦ r.slow_tier
        | standard ↦ r.standard_tier
        | fast ↦ r.fast_tier
        | urgent ↦ r.urgent_tier
      ]

  -- the new fee and the new priority fee of a strategy
  unfoldable pub bumped_fees : BumpStrategy → BumpConfig → Option ℕ → List ℕ → ℕ → ℕ → ℕ × ℕ
  unfolding raised tier_estimate
  bumped_fees (percentage bps) config base samples fee tip =
      let effective_bps = max bps config.min_bump_bps in
      (raised effective_bps fee, raised effective_bps tip)
  bumped_fees double config base samples fee tip = (u64 (fee * 2), u64 (tip * 2))
  bumped_fees (fixed max_fee max_priority_fee) config base samples fee tip = (
    max max_fee (raised config.min_bump_bps fee),
    max max_priority_fee (raised config.min_bump_bps tip),
  )
  bumped_fees (speed_tier speed) config (some base) samples fee tip =
      let estimate = tier_estimate speed base samples in
      (
        max (u64 estimate.max_fee_per_gas) (raised config.min_bump_bps fee),
        max (u64 estimate.max_priority_fee_per_gas) (raised config.min_bump_bps tip),
      )
  bumped_fees (speed_tier speed) config none samples fee tip =
      (raised config.min_bump_bps fee, raised config.min_bump_bps tip)
  bumped_fees cancel config base samples fee tip =
      (raised config.min_bump_bps fee, raised config.min_bump_bps tip)

  module _ {J : Type 0} where
    unfoldable pub compute_bump :
        TrackedTx
        → BumpStrategy
        → BumpConfig
        → ℕ
        → Option ℕ
        → List ℕ
        → Result BumpResult (TransportError J)
    unfolding bumped_fees current_max_fee current_priority
    compute_bump tx strategy config bump_count base samples =
        let (new_max_fee, priority) =
          bumped_fees strategy config base samples (current_max_fee tx) (current_priority tx) in
        if not (discriminant tx.status == discriminant pending)
        then err (other "can only bump pending transactions")
        else if leb config.max_bumps bump_count
        then err
            (other (concat "max bumps (" (concat (texts.display config.max_bumps) ") exceeded")))
        else if ltb config.max_gas_price new_max_fee
        then err (
            other (
              concat "bumped gas " (
                concat (texts.display new_max_fee)
                  (concat " exceeds cap " (texts.display config.max_gas_price)))))
        else ok (record {
          original_hash = tx.tx_hash;
          new_max_fee = new_max_fee;
          new_max_priority_fee = if priority == 0 then 1_000_000_000 else priority;
          new_gas_price = elim tx.gas_price [ none ↦ none | some p ↦ some new_max_fee ];
          bump_count = u32 (bump_count + 1);
          strategy_used = texts.strategy_text strategy;
        })

    unfoldable pub compute_cancel :
        TrackedTx → BumpConfig → ℕ → Result BumpResult (TransportError J)
    unfolding compute_bump
    compute_cancel tx config bump_count = compute_bump tx cancel config bump_count none []

    unfoldable pub bump_and_send :
        Value J
        → (String → Result (JsonRpcResponse J) (TransportError J))
        → (ℕ → ℕ → ℕ → String)
        → ℕ
        → TxTracker
        → String
        → BumpStrategy
        → BumpConfig
        → ℕ
        → Option ℕ
        → List ℕ
        → Result BumpResult (TransportError J) × TxTracker
    unfolding compute_bump new_hash replacement
    bump_and_send ops submit raw_tx_builder now t tx_hash strategy config bump_count base samples =
        elim (Transactions.get t tx_hash) [
          | none ↦ (err (other (concat "transaction " (concat tx_hash " not tracked"))), t)
          | some tx ↦ elim (compute_bump tx strategy config bump_count base samples) [
            | err e ↦ (err e, t)
            | ok bump ↦
                elim (new_hash ops
                  (submit (raw_tx_builder tx.nonce bump.new_max_fee bump.new_max_priority_fee))) [
                    | err e ↦ (err e, t)
                    | ok h ↦ (
                      ok bump,
                      track (update_status t tx_hash (replaced h)) (replacement tx bump h now),
                    )
                  ]
          ]
        ]
