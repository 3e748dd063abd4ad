-- ===== src/Rpc/Cache/Tier.antt =====
-- chainrpc-core/src/cache.rs: the class of a request, and the block number that its parameters name.
use chainkit.Prelude.{
  Bool, List, Option, String, [], contains, false, if◌then◌else◌, none, some, true, ℕ, ◌&&◌, ◌==◌,
  ◌∷◌, nat_eq, string_eq, pair_eq,
}
use chainkit.Prelude.Hex.{codes, from_str_radix_16}
use chainkit.Rpc.Request.{Value}

pub data CacheTier : Type 0 where
  immutable semi_stable volatile never_cache : CacheTier

-- in nanoseconds
unfoldable pub default_ttl : CacheTier → Option ℕ
default_ttl immutable = some 3600_000_000_000
default_ttl semi_stable = some 300_000_000_000
default_ttl volatile = some 2_000_000_000
default_ttl never_cache = none

-- `strip_prefix` of two characters
unfoldable pub strip_prefix : ℕ → ℕ → List ℕ → Option (List ℕ)
strip_prefix a b [] = none
strip_prefix a b (c ∷ []) = none
strip_prefix a b (c ∷ d ∷ s) = if c == a && d == b then some s else none

-- The text behind `0x` or `0X`
unfoldable pub strip_0x : List ℕ → Option (List ℕ)
unfolding strip_prefix
strip_0x s = elim (strip_prefix 48 120 s) [ none ↦ strip_prefix 48 88 s | some hex ↦ some hex ]

abbrev tags : List String
tags = "latest" ∷ "pending" ∷ "earliest" ∷ "safe" ∷ "finalized" ∷ []

-- methods whose results change infrequently
abbrev semi_stable_methods : List String
semi_stable_methods =
    "eth_chainId" ∷ "net_version" ∷ "eth_getCode" ∷ "net_listening" ∷ "web3_clientVersion"
    ∷ "eth_protocolVersion" ∷ "eth_accounts" ∷ []

-- methods whose results change frequently
abbrev volatile_methods : List String
volatile_methods =
    "eth_blockNumber" ∷ "eth_gasPrice" ∷ "eth_estimateGas" ∷ "eth_getBalance"
    ∷ "eth_getTransactionCount" ∷ "eth_call" ∷ "eth_feeHistory" ∷ "eth_maxPriorityFeePerGas"
    ∷ "eth_getStorageAt" ∷ []

module _ {J : Type 0} (ops : Value J) where
  unfoldable pub is_concrete_block_number : J → Bool
  unfolding strip_0x
  is_concrete_block_number value = elim (ops.as_str value) [
    | none ↦ ops.is_number value
    | some s ↦
        if contains tags s
        then false
        else elim (strip_0x (codes s)) [ none ↦ false | some hex ↦ true ]
  ]

  unfoldable pub parse_hex_block : J → Option ℕ
  unfolding strip_0x from_str_radix_16
  parse_hex_block value = elim (ops.as_str value) [
    | none ↦ none
    | some s ↦ elim (strip_0x (codes s)) [ none ↦ none | some hex ↦ from_str_radix_16 hex ]
  ]

  -- `params.first().and_then(parse_hex_block)`
  unfoldable pub first_block : List J → Option ℕ
  unfolding parse_hex_block
  first_block [] = none
  first_block (p ∷ ps) = parse_hex_block p

  unfoldable pub extract_block_ref : String → List J → Option ℕ
  unfolding first_block
  extract_block_ref method params =
      if contains ("eth_getBlockByNumber" ∷ "eth_getTransactionByBlockNumberAndIndex" ∷ []) method
      then first_block params
      else none

  -- the class of `eth_getBlockByNumber`, by its first parameter
  unfoldable pub block_tier : List J → CacheTier
  unfolding is_concrete_block_number
  block_tier [] = volatile
  block_tier (p ∷ ps) = if is_concrete_block_number p then immutable else volatile

  unfoldable pub tier_for : String → List J → CacheTier
  unfolding block_tier
  tier_for method params =
      if contains ("eth_getTransactionByHash" ∷ "eth_getTransactionReceipt" ∷ []) method
      then immutable
      else if "eth_getBlockByNumber" == method
      then block_tier params
      else if "eth_getBlockByHash" == method
      then immutable
      else if contains semi_stable_methods method
      then semi_stable
      else if contains volatile_methods method
      then volatile
      else never_cache
