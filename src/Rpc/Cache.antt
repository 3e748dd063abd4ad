-- ===== src/Rpc/Cache.antt =====
-- chainrpc-core/src/cache.rs: the responses that the transport keeps. The lock is taken once to look
-- a request up and once to keep its response, so `send` is two steps of the state, with the request
-- to the inner transport in between. A clock reading `now` is in nanoseconds, and `elapsed` stops at
-- 0; `cache_key`, a hash of the method and the parameters, is a parameter.
pub mod Tier
pub mod Eviction
pub mod Hits
pub mod Kept
pub mod Reach
use chainkit.Prelude.{
  Bool, List, Option, Result, String, [], contains, err, false, filter, if◌then◌else◌, leb, length,
  ltb, none, not, ok, some, suc, true, u64, zero, ℕ, ◌+◌, ◌-◌, ◌==◌, ◌∷◌, nat_eq, string_eq,
  pair_eq,
}
use chainkit.HashMap.{HashMap, get, insert, remove}
use chainkit.Rpc.Request.{Value, JsonRpcRequest, JsonRpcResponse, is_ok}
use chainkit.Rpc.Cache.Tier.{
  CacheTier, immutable, semi_stable, volatile, never_cache, default_ttl, tier_for,
  extract_block_ref,
}

-- `tier_resolver` says whether there is a resolver, which has no state.
pub record CacheConfig : Type 0 where
  pub ttl : ℕ
  pub max_entries : ℕ
  pub cacheable_methods : List String
  pub tier_resolver : Bool

-- `CacheConfig::default`: 60 s
abbrev pub default_config : CacheConfig
default_config = record {
  ttl = 60_000_000_000;
  max_entries = 1024;
  cacheable_methods = "eth_chainId" ∷ "eth_getBlockByNumber" ∷ "eth_getCode" ∷ "net_version" ∷ [];
  tier_resolver = false;
}

pub record CacheEntry (J : Type 0) : Type 0 where
  pub method : String
  pub response : JsonRpcResponse J
  pub inserted_at : ℕ
  pub tier : CacheTier
  pub block_ref : Option ℕ
  pub ttl : ℕ

pub record CacheStats : Type 0 where
  pub hits : ℕ
  pub misses : ℕ
  pub size : ℕ

pub record CacheInner (J : Type 0) : Type 0 where
  pub entries : HashMap ℕ (CacheEntry J)
  pub hits : ℕ
  pub misses : ℕ

module _ {J : Type 0} where
  -- `CacheTransport::new`
  abbrev pub empty : CacheInner J
  empty = record { entries = []; hits = 0; misses = 0 }

  unfoldable pub fresh : ℕ → CacheEntry J → Bool
  fresh now e = ltb (now - e.inserted_at) e.ttl

  unfoldable pub evict_expired : ℕ → CacheInner J → CacheInner J
  unfolding fresh
  evict_expired now s = record s { entries = filter (λ b. fresh now b.1) s.entries }

  -- `min_by_key` of the time: the first of the oldest entries, in the order of iteration, among
  -- those to come and `best`
  unfoldable pub oldest : ℕ × CacheEntry J → HashMap ℕ (CacheEntry J) → ℕ × CacheEntry J
  oldest best [] = best
  oldest best (b ∷ m) = oldest (if ltb b.1.inserted_at best.1.inserted_at then b else best) m

  unfoldable pub evict_oldest : HashMap ℕ (CacheEntry J) → HashMap ℕ (CacheEntry J)
  unfolding oldest
  evict_oldest [] = []
  evict_oldest (b ∷ m) = remove (b ∷ m) (oldest b m).0

  -- the `while` loop of `send`; `none` says that the fuel is used up
  unfoldable pub evict_while : ℕ → ℕ → HashMap ℕ (CacheEntry J) → Option (HashMap ℕ (CacheEntry J))
  unfolding evict_oldest
  evict_while zero max_entries m = none
  evict_while (suc fuel) max_entries m =
      let rest = evict_while fuel max_entries (evict_oldest m) in
      if leb max_entries (length m) then rest else some m

  -- an entry that the look-up may return
  unfoldable pub if_fresh : ℕ → Option (CacheEntry J) → Option (JsonRpcResponse J)
  unfolding fresh
  if_fresh now none = none
  if_fresh now (some e) = if fresh now e then some e.response else none

  -- the first part of `send` that holds the lock
  unfoldable pub probe : ℕ → ℕ → CacheInner J → Option (JsonRpcResponse J) × CacheInner J
  unfolding evict_expired if_fresh get remove
  probe key now s =
      let kept = evict_expired now s in
      elim (if_fresh now (get kept.entries key)) [
        | some response ↦ (some response, record kept { hits = u64 (s.hits + 1) })
        | none ↦
            (none, record kept { entries = remove kept.entries key; misses = u64 (s.misses + 1) })
      ]

  unfoldable pub invalidate : CacheInner J → CacheInner J
  invalidate s = record s { entries = [] }

  unfoldable pub invalidate_method : String → CacheInner J → CacheInner J
  invalidate_method method s = record s {
    entries = filter (λ b. not (b.1.method == method)) s.entries;
  }

  -- the entries that a reorg from a block leaves
  unfoldable pub below : ℕ → CacheEntry J → Bool
  below from_block e = elim e.block_ref [ none ↦ true | some block ↦ ltb block from_block ]

  unfoldable pub invalidate_for_reorg : ℕ → CacheInner J → CacheInner J
  unfolding below
  invalidate_for_reorg from_block s = record s {
    entries = filter (λ b. below from_block b.1) s.entries;
  }

  unfoldable pub stats : CacheInner J → CacheStats
  stats s = record { hits = s.hits; misses = s.misses; size = length s.entries }

module _ {J : Type 0} (ops : Value J) (config : CacheConfig) where
  -- `tier.default_ttl().unwrap_or(default_ttl)`
  ttl_of : CacheTier → ℕ
  unfolding default_ttl
  ttl_of tier = elim (default_ttl tier) [ none ↦ config.ttl | some t ↦ t ]

  -- whether the request is cacheable, its class, and its time to live
  unfoldable pub resolve_cacheability : JsonRpcRequest J → Bool × CacheTier × ℕ
  unfolding ttl_of tier_for
  resolve_cacheability req =
      if config.tier_resolver
      then elim (tier_for ops req.method req.params) [
        | never_cache ↦ (false, never_cache, 0)
        | immutable ↦ (true, immutable, ttl_of immutable)
        | semi_stable ↦ (true, semi_stable, ttl_of semi_stable)
        | volatile ↦ (true, volatile, ttl_of volatile)
      ]
      else (contains config.cacheable_methods req.method, semi_stable, config.ttl)

module _ {J : Type 0} (ops : Value J) (cache_key : String → List J → ℕ) (config : CacheConfig) where
  -- the second part: the response of the inner transport is kept
  unfoldable pub fill :
      JsonRpcRequest J → ℕ → JsonRpcResponse J → CacheInner J → Option (CacheInner J)
  unfolding resolve_cacheability is_ok evict_while insert extract_block_ref
  fill req now response s =
      let (_, tier, ttl) = resolve_cacheability ops config req in
      if is_ok response
      then elim (evict_while (length s.entries + 1) config.max_entries s.entries) [
        | none ↦ none
        | some left ↦ some (record s {
          entries = insert left (cache_key req.method req.params) (record {
            method = req.method;
            response = response;
            inserted_at = now;
            tier = tier;
            block_ref = extract_block_ref ops req.method req.params;
            ttl = ttl;
          });
        })
      ]
      else some s

  -- `send` with no other task in between: `answer` is the inner transport's, which comes at `later`.
  -- `none` says that the call does not return.
  unfoldable pub send {κ} :
      {E : Type κ}
      → JsonRpcRequest J
      → ℕ
      → ℕ
      → Result (JsonRpcResponse J) E
      → CacheInner J
      → Option (Result (JsonRpcResponse J) E × CacheInner J)
  unfolding resolve_cacheability probe fill
  send req now later answer s =
      if (resolve_cacheability ops config req).0
      then (let (cached, t) = probe (cache_key req.method req.params) now s in
          elim cached [
            | some response ↦ some (ok response, t)
            | none ↦ elim answer [
              | err e ↦ some (err e, t)
              | ok response ↦ elim (fill req later response t) [
                | none ↦ none
                | some u ↦ some (ok response, u)
              ]
            ]
          ])
      else some (answer, s)
