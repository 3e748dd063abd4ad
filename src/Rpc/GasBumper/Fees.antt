-- ===== src/Rpc/GasBumper/Fees.antt =====
-- The fees of a replacement.
use chainkit.Prelude.{List, Option, arith, none, ok, some, u64, u64_max, ℕ, ◌*◌, ◌+◌, ◌<◌, ◌≡◌, ◌≤◌}
use Prim.Native.Nat.{max}
use native.Mathlib.Nat.{mul-le-mul_left}
use chainkit.Rpc.Gas.{Floats}
use chainkit.Rpc.Transactions.{TrackedTx, pending, discriminant}
use chainkit.Rpc.GasBumper.{
  BumpStrategy, percentage, speed_tier, fixed, double, cancel, BumpConfig, BumpResult, Texts,
  raised, current_max_fee, current_priority, bumped_fees, compute_bump,
}

-- the basis points by which a strategy multiplies
abbrev pub rate : BumpStrategy → BumpConfig → ℕ
rate (percentage bps) config = max bps config.min_bump_bps
rate double config = 10_000
rate (fixed max_fee max_priority_fee) config = config.min_bump_bps
rate (speed_tier speed) config = config.min_bump_bps
rate cancel config = config.min_bump_bps

-- At most one wei short of a share of the old fee.
abbrev pub RaisedBy : ℕ → ℕ → ℕ → Type 0
RaisedBy bps old new = old * (10_000 + bps) ≤ new * 10_000 + 9_999

raised-RaisedBy :
    (bps least fee : ℕ)
    → least ≤ bps
    → fee * (10_000 + bps) ≤ u64_max
    → RaisedBy least fee (raised bps fee)
unfolding raised
raised-RaisedBy bps least fee h fits =
    let more : fee * (10_000 + least) ≤ fee * (10_000 + bps) = mul-le-mul_left fee (omega arith) in
    omega (arith, more, fits)

doubled-RaisedBy :
    (least fee : ℕ)
    → least ≤ 10_000
    → fee * (10_000 + 10_000) ≤ u64_max
    → RaisedBy least fee (u64 (fee * 2))
doubled-RaisedBy least fee h fits =
    let more : fee * (10_000 + least) ≤ fee * (10_000 + 10_000) =
      mul-le-mul_left fee (omega arith) in
    omega (arith, more, fits)

max-RaisedBy : (least fee a new : ℕ) → RaisedBy least fee new → RaisedBy least fee (max a new)
max-RaisedBy least fee a new h = omega (arith, h)

module _ (floats : Floats) (texts : Texts) where
  bumped_fees-RaisedBy :
      (strategy : BumpStrategy) (config : BumpConfig) (base : Option ℕ) (samples : List ℕ)
      (fee tip : ℕ)
      → config.min_bump_bps ≤ 10_000
      → fee * (10_000 + rate strategy config) ≤ u64_max
      → tip * (10_000 + rate strategy config) ≤ u64_max
      → RaisedBy config.min_bump_bps fee
          (bumped_fees floats texts strategy config base samples fee tip).0
        × RaisedBy config.min_bump_bps tip
            (bumped_fees floats texts strategy config base samples fee tip).1
  unfolding bumped_fees
  bumped_fees-RaisedBy (percentage bps) config base samples fee tip m f g = (
    raised-RaisedBy (max bps config.min_bump_bps) config.min_bump_bps fee (omega arith) f,
    raised-RaisedBy (max bps config.min_bump_bps) config.min_bump_bps tip (omega arith) g,
  )
  bumped_fees-RaisedBy double config base samples fee tip m f g =
      (doubled-RaisedBy config.min_bump_bps fee m f, doubled-RaisedBy config.min_bump_bps tip m g)
  bumped_fees-RaisedBy (fixed a b) config base samples fee tip m f g = (
    max-RaisedBy config.min_bump_bps fee a _ (raised-RaisedBy _ _ fee (omega arith) f),
    max-RaisedBy config.min_bump_bps tip b _ (raised-RaisedBy _ _ tip (omega arith) g),
  )
  bumped_fees-RaisedBy (speed_tier speed) config (some base) samples fee tip m f g = (
    max-RaisedBy config.min_bump_bps fee _ _ (raised-RaisedBy _ _ fee (omega arith) f),
    max-RaisedBy config.min_bump_bps tip _ _ (raised-RaisedBy _ _ tip (omega arith) g),
  )
  bumped_fees-RaisedBy (speed_tier speed) config none samples fee tip m f g = (
    raised-RaisedBy config.min_bump_bps _ fee (omega arith) f,
    raised-RaisedBy config.min_bump_bps _ tip (omega arith) g,
  )
  bumped_fees-RaisedBy cancel config base samples fee tip m f g = (
    raised-RaisedBy config.min_bump_bps _ fee (omega arith) f,
    raised-RaisedBy config.min_bump_bps _ tip (omega arith) g,
  )

  module _ (J : Type 0) where
    -- Where the required raise is at most the fee itself, and the products of the fees fit a word: a bump
    -- that is computed is of a pending transaction that has bumps left, keeps the cap of the fee, tips at
    -- least one wei, and raises the fee and the tip by the required share, up to a fraction of a wei.
    pub compute_bump_bounds :
        (tx : TrackedTx) (strategy : BumpStrategy) (config : BumpConfig) (bump_count : ℕ)
        (base : Option ℕ) (samples : List ℕ) (bump : BumpResult)
        → compute_bump floats texts {J = J} tx strategy config bump_count base samples ≡ ok bump
        → config.min_bump_bps ≤ 10_000
        → current_max_fee tx * (10_000 + rate strategy config) ≤ u64_max
        → current_priority tx * (10_000 + rate strategy config) ≤ u64_max
        → (discriminant tx.status ≡ discriminant pending)
          × (bump_count < config.max_bumps)
          × (bump.new_max_fee ≤ config.max_gas_price)
          × (0 < bump.new_max_priority_fee)
          × RaisedBy config.min_bump_bps (current_max_fee tx) bump.new_max_fee
          × RaisedBy config.min_bump_bps (current_priority tx) bump.new_max_priority_fee
    unfolding compute_bump
    compute_bump_bounds tx strategy config bump_count base samples bump e m f g =
        let r =
          bumped_fees-RaisedBy strategy config base samples (current_max_fee tx)
            (current_priority tx) m f g in
        ground (arith, r.0, r.1)
