-- ===== src/Rpc/Tests/Cached.antt =====
-- A cache with two entries, of which one is at a block. A JSON value is a text here.
use chainkit.Prelude.{
  List, Result, String, [], arith, false, if◌then◌else◌, length, ltb, none, ok, refl, some, true, ℕ,
  ◌-◌, ◌==◌, ◌∷◌, ◌≡◌, nat_eq, string_eq, pair_eq,
}
use chainkit.HashMap.{DistinctKeys}
use chainkit.Rpc.Request.{Value, JsonRpcRequest, JsonRpcResponse, number, is_ok}
use chainkit.Rpc.Cache.Tier.{immutable, semi_stable, extract_block_ref, parse_hex_block, tier_for}
use chainkit.Rpc.Cache.{
  CacheConfig, CacheEntry, CacheInner, empty, probe, fill, send, evict_while, invalidate_for_reorg,
  resolve_cacheability,
}
use chainkit.Rpc.Cache.Eviction.{Entries, Survivors, room, evict_while-Survivors}
use chainkit.Rpc.Cache.Kept.{spared, fill-invalidate_for_reorg, send_twice}
use chainkit.Rpc.Cache.Reach.{start, looked_up, filled, IsSound, Reachable-IsSound}

abbrev ops : Value String
ops = record { as_str = λ v. some v; is_number = λ v. false; null = "null" }

abbrev key : String → List String → ℕ
key method [] = 1
key method (p ∷ ps) = if p == "0x10" then 2 else 3

abbrev config : CacheConfig
config = record { ttl = 60; max_entries = 2; cacheable_methods = []; tier_resolver = true }

abbrev request : JsonRpcRequest String
request = record {
  jsonrpc = "2.0";
  method = "eth_getBlockByNumber";
  params = "0x10" ∷ "false" ∷ [];
  id = number 4;
}

abbrev response : JsonRpcResponse String
response = record { jsonrpc = "2.0"; id = number 4; result = some "block"; error = none }

abbrev entry : ℕ → CacheEntry String
entry at = record {
  method = "eth_chainId";
  response = response;
  inserted_at = at;
  tier = semi_stable;
  block_ref = none;
  ttl = 300_000_000_000;
}

abbrev entries : Entries String
entries = (1, entry 5) ∷ (3, entry 4) ∷ []

entries-DistinctKeys : DistinctKeys entries
entries-DistinctKeys = (((λ p. omega (arith, p)), tt), (tt, tt))

abbrev cache : CacheInner String
cache = record { entries = entries; hits = 0; misses = 2 }

block_of_request : extract_block_ref ops "eth_getBlockByNumber" ("0x10" ∷ "false" ∷ []) ≡ some 16
unfolding extract_block_ref
block_of_request = refl

sign_is_read : parse_hex_block ops "0x+fF" ≡ some 255
unfolding parse_hex_block
sign_is_read = refl

overflow_is_refused : parse_hex_block ops "0x10000000000000000" ≡ none
unfolding parse_hex_block
overflow_is_refused = refl

-- The class of a block request does not ask whether its number fits a word.
overflow_is_immutable : tier_for ops "eth_getBlockByNumber" ("0x10000000000000000" ∷ []) ≡ immutable
unfolding tier_for
overflow_is_immutable = refl

evict_while-Survivors_example :
    (e : Entries String) × (evict_while 3 2 entries ≡ some e)
    × (length e ≡ room 2 2)
    × Survivors entries e
evict_while-Survivors_example = evict_while-Survivors 2 entries (omega arith) entries-DistinctKeys

success : is_ok response ≡ true
unfolding is_ok
success = refl

cacheable : (resolve_cacheability ops config request).0 ≡ true
unfolding resolve_cacheability
cacheable = refl

misses : (probe 2 6 cache).0 ≡ none
unfolding probe
misses = refl

fill-invalidate_for_reorg_example :
    (t : CacheInner String) × (fill ops key config request 7 response cache ≡ some t)
    × ((from_block later : ℕ)
        → (probe 2 later (invalidate_for_reorg from_block t)).0 ≡ (
            if spared from_block
              (extract_block_ref ops "eth_getBlockByNumber" ("0x10" ∷ "false" ∷ []))
            then (probe 2 later t).0
            else none))
fill-invalidate_for_reorg_example =
    fill-invalidate_for_reorg ops key config request 7 response cache (omega arith)
      entries-DistinctKeys success

abbrev again : JsonRpcRequest String
again = record request { id = number 9 }

send_twice_example :
    (t : CacheInner String) × (send ops key config {E = ℕ} request 6 7 (ok response) cache
      ≡ some (ok response, t))
    × ((later at : ℕ) (answer : Result (JsonRpcResponse String) ℕ)
        → ltb (later - 7) (resolve_cacheability ops config request).2 ≡ true
        → (u : CacheInner String) × (send ops key config again later at answer t
            ≡ some (ok response, u)))
send_twice_example =
    send_twice ops key config {E = ℕ} request again 6 7 response cache (omega arith)
      entries-DistinctKeys success cacheable misses (refl, refl)

kept :
    (t : CacheInner String) × (fill ops key config request 7 response (probe 2 6 empty).1 ≡ some t)
unfolding fill probe
kept = (_, refl)

Reachable-IsSound_example : IsSound ops key config 1 (kept.0)
Reachable-IsSound_example =
    Reachable-IsSound ops key config
      (filled request 7 response cacheable (looked_up request 6 start) kept.1)
