-- ===== src/Rpc/Tests/Budget.antt =====
-- The compute units of three calls, and a status read from a receipt.
use chainkit.Prelude.{
  List, String, [], false, none, ok, refl, some, ◌==◌, ◌∷◌, ◌≡◌, nat_eq, string_eq, pair_eq,
}
use chainkit.Rpc.Request.{Value, JsonRpcResponse, number}
use chainkit.HashMap
use chainkit.Rpc.ComputeUnits
use chainkit.Rpc.ComputeUnits.{CuBudgetConfig, CuTracker, alchemy_defaults, remaining, is_exhausted}
use chainkit.Rpc.ComputeUnits.Usage.{total_cost}
use chainkit.Rpc.PendingPool.{check_status, included}

abbrev calls : List String
calls = "eth_call" ∷ "eth_getLogs" ∷ "eth_call" ∷ []

cost_of_calls : total_cost alchemy_defaults calls ≡ 127
unfolding alchemy_defaults ComputeUnits.cost_for HashMap.get HashMap.insert
cost_of_calls = refl

abbrev receipt : JsonRpcResponse String
receipt = record { jsonrpc = "2.0"; id = number 1; result = some "0x0x1f"; error = none }

abbrev ops : Value String
ops = record { as_str = λ v. some v; is_number = λ v. false; null = "null" }

is_included :
    check_status ops (λ v. v == "null") (λ v. some v) (λ method h. ok receipt) "0xab"
    ≡ ok (included 31)
unfolding check_status
is_included = refl
