-- ===== src/Rpc/Tests/Stuck.antt =====
-- A stuck transaction of Alice, its replacement, and the polls for its receipt.
use chainkit.Prelude.{
  Result, String, [], arith, err, false, if◌then◌else◌, none, not, ok, refl, some, u64, ◌&&◌, ◌*◌,
  ◌+◌, ◌-◌, ◌/◌, ◌<◌, ◌==◌, ◌∷◌, ◌≡◌, ◌≤◌, ◌⊎◌, nat_eq, string_eq, pair_eq,
}
use chainkit.Rpc.Error.{TransportError}
use chainkit.Rpc.Request.{Value, JsonRpcResponse, number}
use chainkit.Rpc.Gas.{Floats}
use chainkit.Rpc.Transactions
use chainkit.Rpc.Transactions.{
  TxTracker, TrackedTx, pending, replaced, discriminant, stuck, next_nonce,
}
use chainkit.Rpc.GasBumper
use chainkit.Rpc.GasBumper.{
  BumpResult, BumpStrategy, Texts, default_strategy, double, raised, current_max_fee,
  current_priority, bumped_fees, compute_bump, replacement, bump_and_send,
}
use chainkit.Rpc.GasBumper.Fees.{RaisedBy, compute_bump_bounds}
use chainkit.Rpc.GasBumper.Replacement.{IsReplacement, Answers, Fails, sends, bump_and_send_lem}
use chainkit.Rpc.TxLifecycle.{ReceiptPoller, poll_receipt, count_of, detect_stuck}
use chainkit.Rpc.TxLifecycle.Polls.{first_answer, poll_receipt-Ends}
use chainkit.Rpc.TxLifecycle.Senders.{detect_stuck_lem}
use chainkit.Rpc.TxLifecycle.Senders

abbrev floats : Floats
floats = record {
  percentile_index = λ pct n. pct * (n - 1) / 100;
  scale = λ thousandths base. thousandths * base / 1_000;
}

abbrev texts : Texts
texts = record { display = λ n. "n"; strategy_text = λ s. "s" }

abbrev tx : TrackedTx
tx = record {
  tx_hash = "0xabc";
  sender = "0xAlice";
  nonce = 7;
  submitted_at = 1_000;
  status = pending;
  gas_price = none;
  max_fee = some 100_000_000_000;
  max_priority_fee = some 2_000_000_000;
  last_checked = 1_000;
}

abbrev bump : BumpResult
bump = record {
  original_hash = "0xabc";
  new_max_fee = 112_000_000_000;
  new_max_priority_fee = 2_240_000_000;
  new_gas_price = none;
  bump_count = 1;
  strategy_used = "s";
}

twelve_percent :
    compute_bump floats texts {J = String} tx default_strategy GasBumper.default_config 0 none []
    ≡ ok bump
unfolding compute_bump
twelve_percent = refl

compute_bump_bounds_example :
    (discriminant pending ≡ discriminant pending)
    × (0 < 5)
    × (bump.new_max_fee ≤ 500_000_000_000)
    × (0 < bump.new_max_priority_fee)
    × RaisedBy 1_000 (current_max_fee tx) bump.new_max_fee
    × RaisedBy 1_000 (current_priority tx) bump.new_max_priority_fee
compute_bump_bounds_example =
    compute_bump_bounds floats texts String tx default_strategy GasBumper.default_config 0 none []
      bump twelve_percent (omega arith) (unfold current_max_fee in omega arith)
      (unfold current_priority in omega arith)

abbrev ops : Value String
ops = record { as_str = λ v. some v; is_number = λ v. false; null = "null" }

abbrev answer : String → Result (JsonRpcResponse String) (TransportError String)
answer v = ok (record { jsonrpc = "2.0"; id = number 1; result = some v; error = none })

abbrev tracker : TxTracker
tracker = record {
  config = Transactions.default_config;
  transactions = ("0xabc", tx) ∷ [];
  nonce_tracker = [];
}

bump_and_send_lem_example :
    let sent =
      sends floats texts ops
        (λ raw. answer "0xdef")
        (λ n f p. "raw")
        2_000
        tracker
        "0xabc"
        default_strategy
        GasBumper.default_config
        0
        none
        [] in
    ((e : TransportError String) × (sent.0 ≡ err e)
      × (sent.1 ≡ tracker)
      × Fails floats texts ops
          (λ raw. answer "0xdef")
          (λ n f p. "raw")
          2_000
          tracker
          "0xabc"
          default_strategy
          GasBumper.default_config
          0
          none
          []
          e)
    ⊎ ((old : TrackedTx) × (b : BumpResult) × (h : String) × (new : TrackedTx) × (Transactions.get
            tracker "0xabc"
          ≡ some old)
        × (compute_bump floats texts {J = String} old default_strategy GasBumper.default_config 0
              none []
            ≡ ok b)
        × Answers ops (answer "0xdef") h
        × IsReplacement old b new
        × (sent.0 ≡ ok b)
        × (Transactions.get sent.1 "0xdef" ≡ (
            if not false && h == "0xdef"
            then some new
            else if false
            then some (record old { status = replaced h })
            else Transactions.get tracker "0xdef")))
bump_and_send_lem_example =
    bump_and_send_lem floats texts ops (λ raw. answer "0xdef") (λ n f p. "raw") 2_000 tracker
      "0xabc" default_strategy GasBumper.default_config 0 none [] "0xdef"

abbrev poller : ReceiptPoller
poller = record { max_attempts = 3; delay = λ n. n }

poll_receipt-Ends_example :
    poll_receipt ops
      (λ v. v == "null")
      poller
      (λ n. answer (if n == 3 then "receipt" else "null"))
      4
      1
    ≡ some (
        first_answer ops
          (λ v. v == "null")
          poller
          (λ n. answer (if n == 3 then "receipt" else "null"))
          3
          1)
poll_receipt-Ends_example =
    poll_receipt-Ends ops (λ v. v == "null") poller
      (λ n. answer (if n == 3 then "receipt" else "null")) (omega arith)

detect_stuck_lem_example :
    let found = detect_stuck ops (λ sender. answer "0x8") tracker 5_000 in
    (found.0 ≡ stuck tracker 5_000)
    × (found.1.transactions ≡ tracker.transactions)
    × (next_nonce found.1 "0xAlice" ≡ (
        if Senders.sends "0xAlice" (stuck tracker 5_000)
        then elim (count_of ops (answer "0x8")) [
          | none ↦ next_nonce tracker "0xAlice"
          | some n ↦ some (u64 (n + 1))
        ]
        else next_nonce tracker "0xAlice"))
detect_stuck_lem_example = detect_stuck_lem ops (λ sender. answer "0x8") tracker 5_000 "0xAlice"
