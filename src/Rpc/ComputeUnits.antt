-- ===== src/Rpc/ComputeUnits.antt =====
-- chainrpc-core/src/cu_tracker.rs. A fraction is one of `F`, and `Fractions` has what the code uses of
-- `f64`. A task counts a call by an atomic addition and a step under a lock: the model takes the two
-- together.
pub mod Usage
use chainkit.Prelude.{
  Bool, List, String, [], false, if◌then◌else◌, leb, ltb, none, or_zero, some, u64, u64_max, ℕ,
  ◌&&◌, ◌+◌, ◌-◌, ◌==◌, ◌∷◌, nat_eq, string_eq, pair_eq,
}
use chainkit.HashMap
use chainkit.HashMap.{HashMap}

pub record Fractions (F : Type 0) : Type 0 where
  pub zero_fraction : F
  pub divide : ℕ → ℕ → F
  pub at_least : F → F → Bool
  pub four_fifths : F

pub record CuCostTable : Type 0 where
  pub costs : HashMap String ℕ
  pub default_cost : ℕ

abbrev pub new_table : ℕ → CuCostTable
new_table default_cost = record { costs = []; default_cost = default_cost }

unfoldable pub set_cost : CuCostTable → String → ℕ → CuCostTable
set_cost t method cost = record t { costs = HashMap.insert t.costs method cost }

abbrev defaults : List (String × ℕ)
defaults =
    ("eth_blockNumber", 10)
    ∷ ("eth_getBalance", 19)
    ∷ ("eth_getTransactionCount", 26)
    ∷ ("eth_call", 26)
    ∷ ("eth_estimateGas", 87)
    ∷ ("eth_sendRawTransaction", 250)
    ∷ ("eth_getTransactionReceipt", 15)
    ∷ ("eth_getBlockByNumber", 16)
    ∷ ("eth_getLogs", 75)
    ∷ ("eth_subscribe", 10)
    ∷ ("eth_getCode", 19)
    ∷ ("eth_getStorageAt", 17)
    ∷ ("eth_gasPrice", 19)
    ∷ ("eth_feeHistory", 10)
    ∷ ("eth_maxPriorityFeePerGas", 10)
    ∷ ("eth_getTransactionByHash", 17)
    ∷ ("debug_traceTransaction", 309)
    ∷ ("trace_block", 500)
    ∷ ("trace_transaction", 309)
    ∷ []

unfoldable pub set_all : CuCostTable → List (String × ℕ) → CuCostTable
unfolding set_cost
set_all t [] = t
set_all t ((method, cost) ∷ rest) = set_all (set_cost t method cost) rest

unfoldable pub alchemy_defaults : CuCostTable
unfolding set_all
alchemy_defaults = set_all (new_table 50) defaults

unfoldable pub cost_for : CuCostTable → String → ℕ
cost_for t method = elim (HashMap.get t.costs method) [ none ↦ t.default_cost | some cost ↦ cost ]

pub record CuBudgetConfig (F : Type 0) : Type 0 where
  pub monthly_budget : ℕ
  pub alert_threshold : F
  pub throttle_near_limit : Bool

pub record CuTracker (F : Type 0) : Type 0 where
  pub url : String
  pub cost_table : CuCostTable
  pub config : CuBudgetConfig F
  pub consumed : ℕ
  pub per_method : HashMap String ℕ

pub record CuSnapshot (F : Type 0) : Type 0 where
  pub url : String
  pub consumed : ℕ
  pub budget : ℕ
  pub usage_fraction : F
  pub alert : Bool
  pub exhausted : Bool
  pub per_method : HashMap String ℕ

-- `or_insert(0)`
module _ {F : Type 0} where
  unfoldable pub new : String → CuCostTable → CuBudgetConfig F → CuTracker F
  new url cost_table config = record {
    url = url;
    cost_table = cost_table;
    config = config;
    consumed = 0;
    per_method = [];
  }

  unfoldable pub record_call : CuTracker F → String → CuTracker F
  unfolding cost_for
  record_call t method =
      let cost = cost_for t.cost_table method in
      record t {
        consumed = u64 (t.consumed + cost);
        per_method =
            HashMap.insert t.per_method method
              (u64 (or_zero (HashMap.get t.per_method method) + cost));
      }

  unfoldable pub remaining : CuTracker F → ℕ
  remaining t =
      if t.config.monthly_budget == 0 then u64_max else t.config.monthly_budget - t.consumed

  unfoldable pub is_exhausted : CuTracker F → Bool
  is_exhausted t = ltb 0 t.config.monthly_budget && leb t.config.monthly_budget t.consumed

  unfoldable pub reset : CuTracker F → CuTracker F
  reset t = record t { consumed = 0; per_method = [] }

module _ {F : Type 0} (ops : Fractions F) where
  -- `CuBudgetConfig::default`
  abbrev pub default_config : CuBudgetConfig F
  default_config = record {
    monthly_budget = 0;
    alert_threshold = ops.four_fifths;
    throttle_near_limit = false;
  }

  unfoldable pub usage_fraction : CuTracker F → F
  usage_fraction t =
      if t.config.monthly_budget == 0
      then ops.zero_fraction
      else ops.divide t.consumed t.config.monthly_budget

  unfoldable pub is_alert : CuTracker F → Bool
  unfolding usage_fraction
  is_alert t =
      ltb 0 t.config.monthly_budget && ops.at_least (usage_fraction t) t.config.alert_threshold

  unfoldable pub should_throttle : CuTracker F → Bool
  unfolding is_alert
  should_throttle t = t.config.throttle_near_limit && is_alert t

  unfoldable pub snapshot : CuTracker F → CuSnapshot F
  unfolding usage_fraction is_alert is_exhausted
  snapshot t = record {
    url = t.url;
    consumed = t.consumed;
    budget = t.config.monthly_budget;
    usage_fraction = usage_fraction t;
    alert = is_alert t;
    exhausted = is_exhausted t;
    per_method = t.per_method;
  }
