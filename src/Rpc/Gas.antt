-- ===== src/Rpc/Gas.antt =====
-- chainrpc-core/src/gas.rs. What it computes in floating point is an argument: the place of a percentile
-- among a number of samples, and a base fee that is scaled by some thousandths.
pub mod Tiers
use Prim.Native.Nat.{min}
use chainkit.Prelude.{
  List, Option, get_or, if◌then◌else◌, length, some, u128, ℕ, ◌+◌, ◌-◌, ◌==◌, nat_eq, string_eq,
  pair_eq,
}

pub record Floats : Type 0 where
  pub percentile_index : ℕ → ℕ → ℕ
  pub scale : ℕ → ℕ → ℕ

pub data GasSpeed : Type 0 where
  slow standard fast urgent : GasSpeed

-- The time is in seconds.
pub record GasEstimate : Type 0 where
  pub max_fee_per_gas : ℕ
  pub max_priority_fee_per_gas : ℕ
  pub estimated_time : Option ℕ
  pub speed : GasSpeed

pub record GasRecommendation : Type 0 where
  pub base_fee : ℕ
  pub slow_tier : GasEstimate
  pub standard_tier : GasEstimate
  pub fast_tier : GasEstimate
  pub urgent_tier : GasEstimate
  pub block_number : ℕ

module _ (floats : Floats) where
  unfoldable pub percentile : List ℕ → ℕ → ℕ
  percentile priority_fees pct =
      if length priority_fees == 0
      then 1_000_000_000
      else get_or priority_fees
          (min (floats.percentile_index pct (length priority_fees)) (length priority_fees - 1)) 0

  unfoldable pub make_estimate : ℕ → ℕ → ℕ → GasSpeed → ℕ → GasEstimate
  make_estimate base_fee tip thousandths speed seconds = record {
    max_fee_per_gas = u128 (floats.scale thousandths base_fee + tip);
    max_priority_fee_per_gas = tip;
    estimated_time = some seconds;
    speed = speed;
  }

  unfoldable pub compute_gas_recommendation : ℕ → List ℕ → ℕ → GasRecommendation
  unfolding percentile make_estimate
  compute_gas_recommendation base_fee priority_fees block_number = record {
    base_fee = base_fee;
    slow_tier = make_estimate base_fee (percentile priority_fees 10) 1_000 slow 120;
    standard_tier = make_estimate base_fee (percentile priority_fees 50) 1_125 standard 30;
    fast_tier = make_estimate base_fee (percentile priority_fees 90) 1_250 fast 15;
    urgent_tier = make_estimate base_fee (percentile priority_fees 99) 1_500 urgent 6;
    block_number = block_number;
  }
