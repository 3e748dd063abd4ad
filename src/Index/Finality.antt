-- ===== src/Index/Finality.antt =====
-- chainindex-core/src/finality.rs: when a block of a chain counts as safe and as final.
pub mod Chains
pub mod Depths
use chainkit.Prelude.{
  Bool, List, Option, String, [], false, map, none, some, true, u32, ℕ, ◌*◌, ◌∷◌, nat_eq, string_eq,
  pair_eq,
}
use chainkit.HashMap
use chainkit.HashMap.{HashMap}
use chainkit.Index.Finality.Chains.{
  FinalityConfig, ethereum, polygon, arbitrum, optimism, base, bsc, avalanche, solana, fantom,
  scroll, zksync, linea, cosmoshub, osmosis, polkadot, kusama, bitcoin, aptos, sui,
}

-- The count of confirmations is cast to `u32`.
unfoldable pub safe_time : FinalityConfig → ℕ
safe_time c = c.block_time * u32 c.safe_confirmations

unfoldable pub finalized_time : FinalityConfig → ℕ
finalized_time c = c.block_time * u32 c.finalized_confirmations

pub record FinalityRegistry : Type 0 where
  pub configs : HashMap String FinalityConfig

unfoldable pub register : FinalityRegistry → FinalityConfig → FinalityRegistry
register r config = record { configs = HashMap.insert r.configs config.chain config }

-- The insertions of `new`, in their order.
abbrev pub built_in : List FinalityConfig
built_in =
    ethereum ∷ polygon ∷ arbitrum ∷ optimism ∷ base ∷ bsc ∷ avalanche ∷ solana ∷ fantom ∷ scroll
    ∷ zksync ∷ linea ∷ cosmoshub ∷ osmosis ∷ polkadot ∷ kusama ∷ bitcoin ∷ aptos ∷ sui ∷ []

unfoldable pub register_all : FinalityRegistry → List FinalityConfig → FinalityRegistry
unfolding register
register_all r [] = r
register_all r (c ∷ cs) = register_all (register r c) cs

unfoldable pub new : FinalityRegistry
unfolding register_all
new = register_all (record { configs = [] }) built_in

unfoldable pub get : FinalityRegistry → String → Option FinalityConfig
get r chain = HashMap.get r.configs chain

unfoldable pub chains : FinalityRegistry → List String
chains r = map (λ b. b.0) r.configs

unfoldable pub confirmation_depth : FinalityRegistry → String → ℕ
confirmation_depth r chain = elim (HashMap.get r.configs chain) [
  | none ↦ 12
  | some c ↦ c.finalized_confirmations
]

unfoldable pub reorg_window : FinalityRegistry → String → ℕ
reorg_window r chain = elim (HashMap.get r.configs chain) [ none ↦ 128 | some c ↦ c.reorg_window ]

unfoldable pub is_l2 : FinalityRegistry → String → Bool
is_l2 r chain = elim (HashMap.get r.configs chain) [
  | none ↦ false
  | some c ↦ elim c.settlement_chain [ none ↦ false | some s ↦ true ]
]
