-- ===== src/Index/Finality/Depths.antt =====
-- The depths of a registry against its windows.
use chainkit.Prelude.{
  All, Bool-cases, List, Option-cases, String, [], ap, arith, if◌then◌else◌, inl, inr, none, some,
  sym, true, ◌==◌, ◌∙◌, ◌∷◌, ◌≡◌, ◌≢◌, ◌≤◌, nat_eq, string_eq, pair_eq,
}
use mathlib.Core.Path.{subst}
use chainkit.HashMap
use chainkit.HashMap.Laws.{get-insert}
use chainkit.Index.Finality.Chains.{FinalityConfig}
use chainkit.Index.Finality.{
  FinalityRegistry, register, register_all, built_in, new, get, confirmation_depth, reorg_window,
}

-- A block is safe before it is final, and is final while a reorg that reaches it is still seen; a
-- chain with a sequencer settles on another chain.
pub record IsSound (c : FinalityConfig) : Type 0 where
  pub safe_first : c.safe_confirmations ≤ c.finalized_confirmations
  pub final_within : c.finalized_confirmations ≤ c.reorg_window
  pub settles : c.has_sequencer ≡ true → c.settlement_chain ≢ none

built_in-IsSound : All IsSound built_in
built_in-IsSound = ground arith

-- What a registration makes of a lookup.
get-register :
    (r : FinalityRegistry) (c : FinalityConfig) (chain : String)
    → get (register r c) chain ≡ (if c.chain == chain then some c else get r chain)
unfolding get register
get-register r c chain = get-insert r.configs c.chain chain c

-- The registry that a lookup of a chain finds.
abbrev Finds : (FinalityConfig → Type 0) → FinalityRegistry → Type 0
Finds P r = (chain : String) (c : FinalityConfig) → get r chain ≡ some c → P c × (c.chain ≡ chain)

empty-Finds : Finds IsSound (record { configs = [] })
unfolding get HashMap.get
empty-Finds chain c e = absurd (ground (arith, e))

register_all-Finds :
    (P : FinalityConfig → Type 0) (r : FinalityRegistry) (cs : List FinalityConfig)
    → All P cs
    → Finds P r
    → Finds P (register_all r cs)
unfolding register_all
register_all-Finds P r [] h f = f
register_all-Finds P r (c ∷ cs) h f = register_all-Finds P (register r c) cs h.1 (λ chain d e.
    elim (Bool-cases (c.chain == chain)) [
      | inl x ↦
          let same : c ≡ d = ground (arith, get-register r c chain, e, x) in
          (
            subst P same h.0,
            ap (λ (k : FinalityConfig). k.chain) (sym same)
                ∙ (string_eq.same_iff c.chain chain).0 x,
          )
      | inr x ↦ f chain d (ground (arith, get-register r c chain, e, x))
    ])

registered-Finds : (cs : List FinalityConfig) → All IsSound cs → Finds IsSound (register_all new cs)
unfolding new
registered-Finds cs h =
    register_all-Finds IsSound new cs h
      (register_all-Finds IsSound (record { configs = [] }) built_in built_in-IsSound empty-Finds)

-- Whatever sound configurations are registered after the built-in ones, a chain's confirmation depth
-- lies within its reorg window, for an unknown chain too, and every configuration is found under the
-- name of its chain.
depth-le-window :
    (cs : List FinalityConfig) (chain : String)
    → All IsSound cs
    → let r = register_all new cs in
      (confirmation_depth r chain ≤ reorg_window r chain)
      × ((c : FinalityConfig) → get r chain ≡ some c → c.chain ≡ chain)
unfolding confirmation_depth reorg_window get
depth-le-window cs chain h =
    let found = registered-Finds cs h chain in
    (
      elim (Option-cases (HashMap.get (register_all new cs).configs chain)) [
        | inl e ↦ rw (e, confirmation_depth, reorg_window) (omega arith)
        | inr (c, e) ↦ rw (e, confirmation_depth, reorg_window) ((found c e).0.final_within)
      ],
      λ c e. (found c e).1,
    )
