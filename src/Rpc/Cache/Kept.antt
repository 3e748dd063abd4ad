-- ===== src/Rpc/Cache/Kept.antt =====
-- chainrpc-core/src/cache.rs: the response that `send` keeps, and what later look-ups make of it.
use chainkit.Prelude.{
  Bool, List, Option, Option-cases, Result, String, ap, arith, if◌then◌else◌, inl, inr, length, ltb,
  none, ok, refl, some, true, ℕ, ◌-◌, ◌<◌, ◌==◌, ◌∙◌, ◌≡◌, ◌≢◌, ◌⊎◌, nat_eq, string_eq, pair_eq,
}
use chainkit.HashMap.{get, insert, DistinctKeys}
use chainkit.HashMap.Laws.{get-insert}
use chainkit.HashMap.Distinct.{DistinctKeys-insert}
use chainkit.Rpc.Request.{Value, JsonRpcRequest, JsonRpcResponse, is_ok}
use chainkit.Rpc.Cache.Tier.{extract_block_ref}
use chainkit.Rpc.Cache.{
  CacheConfig, CacheEntry, CacheInner, fresh, below, if_fresh, probe, fill, invalidate_for_reorg,
  resolve_cacheability, send,
}
use chainkit.Rpc.Cache.Eviction.{Entries, Survivors, evict_while-Survivors}
use chainkit.Rpc.Cache.Hits.{probe-answer, probe-DistinctKeys, probe-invalidate_for_reorg}

-- whether a reorg leaves what names a block, or none
abbrev pub spared : ℕ → Option ℕ → Bool
spared from_block none = true
spared from_block (some n) = ltb n from_block

module _ {J : Type 0} (ops : Value J) (cache_key : String → List J → ℕ) (config : CacheConfig) where
  abbrev key_of : JsonRpcRequest J → ℕ
  key_of req = cache_key req.method req.params

  abbrev ttl_for : JsonRpcRequest J → ℕ
  ttl_for req = (resolve_cacheability ops config req).2

  -- the entry of a response
  abbrev pub entry_of : JsonRpcRequest J → ℕ → JsonRpcResponse J → CacheEntry J
  entry_of req now response = record {
    method = req.method;
    response = response;
    inserted_at = now;
    tier = (resolve_cacheability ops config req).1;
    block_ref = extract_block_ref ops req.method req.params;
    ttl = ttl_for req;
  }

  -- What `fill` makes of the entries, where the response is a success.
  pub fill_lem :
      (req : JsonRpcRequest J) (now : ℕ) (response : JsonRpcResponse J) (s : CacheInner J)
      → 0 < config.max_entries
      → DistinctKeys s.entries
      → is_ok response ≡ true
      → (left : Entries J) × (fill ops cache_key config req now response s
          ≡ some (record s { entries = insert left (key_of req) (entry_of req now response) }))
        × (length left < config.max_entries)
        × Survivors s.entries left
  unfolding fill
  fill_lem req now response s h d good =
      let (left, q, n, live) = evict_while-Survivors config.max_entries s.entries h d in
      (left, rw (good, q) refl, ground (arith, n, h), live)

  -- The cache after a success is kept.
  abbrev after : JsonRpcRequest J → ℕ → JsonRpcResponse J → CacheInner J → Entries J → CacheInner J
  after req now response s left = record s {
    entries = insert left (key_of req) (entry_of req now response);
  }

  after-probe :
      (req : JsonRpcRequest J) (now : ℕ) (response : JsonRpcResponse J) (s : CacheInner J)
      (left : Entries J) (k later : ℕ)
      → DistinctKeys left
      → (probe k later (after req now response s left)).0
        ≡ if_fresh later (if key_of req == k then some (entry_of req now response) else get left k)
  after-probe req now response s left k later d =
      probe-answer k later _ (DistinctKeys-insert left (key_of req) _ d)
      ∙ ap (if_fresh later) (get-insert left (key_of req) k (entry_of req now response))

  -- Where the configuration has room for an entry and no key is bound twice, the response of a
  -- success is kept: a later look-up of its key answers with it while less than the request's time to
  -- live has passed, and with nothing from then on; a look-up of another key answers as it did
  -- before, or with nothing, where its entry was evicted.
  pub fill-probe :
      (req : JsonRpcRequest J) (now : ℕ) (response : JsonRpcResponse J) (s : CacheInner J)
      → 0 < config.max_entries
      → DistinctKeys s.entries
      → is_ok response ≡ true
      → (t : CacheInner J) × (fill ops cache_key config req now response s ≡ some t)
        × ((later : ℕ)
            → (probe (key_of req) later t).0
              ≡ (if ltb (later - now) (ttl_for req) then some response else none))
        × ((k later : ℕ)
            → k ≢ key_of req
            → ((probe k later t).0 ≡ none) ⊎ ((probe k later t).0 ≡ (probe k later s).0))
  unfolding if_fresh fresh
  fill-probe req now response s h d good =
      let (left, q, n, live) = fill_lem req now response s h d good in
      (
        after req now response s left,
        q,
        (λ later. ground (arith, after-probe req now response s left (key_of req) later live.0)),
        λ k later other. elim (Option-cases (get left k)) [
          | inl x ↦
              inl (ground (arith, x, other, after-probe req now response s left k later live.0))
          | inr (e, x) ↦ inr (
              ground (
                arith,
                x,
                other,
                live.1 k e x,
                after-probe req now response s left k later live.0,
                probe-answer k later s d,
              ))
        ],
      )

  -- Where the configuration has room for an entry and no key is bound twice, a reorg from a block
  -- right after takes the answer of a kept response, if `extract_block_ref` finds a block at or above it
  -- for the request, and leaves the answer otherwise, also where `extract_block_ref` finds no block.
  pub fill-invalidate_for_reorg :
      (req : JsonRpcRequest J) (now : ℕ) (response : JsonRpcResponse J) (s : CacheInner J)
      → 0 < config.max_entries
      → DistinctKeys s.entries
      → is_ok response ≡ true
      → (t : CacheInner J) × (fill ops cache_key config req now response s ≡ some t)
        × ((from_block later : ℕ)
            → (probe (key_of req) later (invalidate_for_reorg from_block t)).0 ≡ (
                if spared from_block (extract_block_ref ops req.method req.params)
                then (probe (key_of req) later t).0
                else none))
  unfolding below
  fill-invalidate_for_reorg req now response s h d good =
      let (left, q, n, live) = fill_lem req now response s h d good in
      let e = entry_of req now response in
      (
        after req now response s left,
        q,
        λ from_block later.
            let found : get (insert left (key_of req) e) (key_of req) ≡ some e =
              ground (arith, get-insert left (key_of req) (key_of req) e) in
            let all =
              probe-invalidate_for_reorg from_block (key_of req) later
                (after req now response s left) (DistinctKeys-insert left (key_of req) e live.0) in
            elim (Option-cases (extract_block_ref ops req.method req.params)) [
              | inl x ↦ ground (arith, x, found, all)
              | inr (b, x) ↦ ground (arith, x, found, all)
            ],
      )

  -- where the look-up has no answer
  send_misses {κ} :
      {E : Type κ} (req : JsonRpcRequest J) (now at : ℕ) (response : JsonRpcResponse J)
      (s t : CacheInner J)
      → (resolve_cacheability ops config req).0 ≡ true
      → (probe (key_of req) now s).0 ≡ none
      → fill ops cache_key config req at response (probe (key_of req) now s).1 ≡ some t
      → send ops cache_key config {E = E} req now at (ok response) s ≡ some (ok response, t)
  unfolding send
  send_misses req now at response s t c miss q = rw (c, miss, q) refl

  send_hits {κ} :
      {E : Type κ} (req : JsonRpcRequest J) (now at : ℕ) (answer : Result (JsonRpcResponse J) E)
      (response : JsonRpcResponse J) (s : CacheInner J)
      → (resolve_cacheability ops config req).0 ≡ true
      → (probe (key_of req) now s).0 ≡ some response
      → send ops cache_key config req now at answer s
        ≡ some (ok response, (probe (key_of req) now s).1)
  unfolding send
  send_hits req now at answer response s c hit = rw (c, hit) refl

  same_class :
      (a b : JsonRpcRequest J)
      → (a.method ≡ b.method) × (a.params ≡ b.params)
      → resolve_cacheability ops config a ≡ resolve_cacheability ops config b
  unfolding resolve_cacheability
  same_class a b same = rw (same.0, same.1) refl

  -- Let a cacheable request with no answer in the cache be sent, in a configuration with room for an
  -- entry and no key bound twice, and let the inner transport answer with a success. Then `send` returns
  -- that response; and where the next call of the cache is `send` with a request of the same method and
  -- parameters, before the time to live of the first one has passed since the answer, it returns this
  -- response again, whatever the inner transport would have answered.
  pub send_twice {κ} :
      {E : Type κ} (req again : JsonRpcRequest J) (now at : ℕ) (response : JsonRpcResponse J)
      (s : CacheInner J)
      → 0 < config.max_entries
      → DistinctKeys s.entries
      → is_ok response ≡ true
      → (resolve_cacheability ops config req).0 ≡ true
      → (probe (key_of req) now s).0 ≡ none
      → (again.method ≡ req.method) × (again.params ≡ req.params)
      → (t : CacheInner J) × (send ops cache_key config {E = E} req now at (ok response) s
          ≡ some (ok response, t))
        × ((later at' : ℕ) (answer : Result (JsonRpcResponse J) E)
            → ltb (later - at) (ttl_for req) ≡ true
            → (u : CacheInner J) × (send ops cache_key config again later at' answer t
                ≡ some (ok response, u)))
  send_twice req again now at response s h d good c miss same =
      let past = (probe (key_of req) now s).1 in
      let dp = probe-DistinctKeys (key_of req) now s d in
      let (t, q, hit, _) = fill-probe req at response past h dp good in
      let key : key_of again ≡ key_of req = rw (same.0, same.1) refl in
      (
        t,
        send_misses req now at response s t c miss q,
        λ later at' answer young.
            let found : (probe (key_of again) later t).0 ≡ some response =
              rw key (hit later ∙ rw young refl) in
            let cacheable = ap (λ r. r.0) (same_class again req same) ∙ c in
            (
              (probe (key_of again) later t).1,
              send_hits again later at' answer response t cacheable found,
            ),
      )
