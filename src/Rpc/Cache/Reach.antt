-- ===== src/Rpc/Cache/Reach.antt =====
-- chainrpc-core/src/cache.rs: the states that the tasks which share the cache can bring about. A task
-- holds the lock for one step, so that the look-ups and the fills of several calls of `send`, and the
-- invalidations, come in any order.
use chainkit.Prelude.{
  All, Bool, Bool-cases, List, String, [], arith, count-le-length, false, filter, inl, inr, length,
  length-filter, ltb, refl, some, sym, true, u64, ℕ, ◌+◌, ◌<◌, ◌∷◌, ◌≡◌, ◌≤◌, nat_eq, string_eq,
  pair_eq,
}
use mathlib.Core.Path.{subst}
use chainkit.HashMap.{DistinctKeys, insert}
use chainkit.HashMap.Laws.{All-remove, All-insert, length-insert_le, length-remove_le, get-All}
use chainkit.HashMap.Distinct.{
  DistinctKeys-remove, DistinctKeys-filter, DistinctKeys-insert, All-filter,
}
use chainkit.Rpc.Request.{Value, JsonRpcRequest, JsonRpcResponse, is_ok}
use chainkit.Rpc.Cache.{
  CacheConfig, CacheEntry, CacheInner, empty, probe, fill, resolve_cacheability, invalidate,
  invalidate_method, invalidate_for_reorg, evict_expired,
}
use chainkit.Rpc.Cache.Eviction.{never_ends, All-get}
use chainkit.Rpc.Cache.Hits.{probe-cases}
use chainkit.Rpc.Cache.Kept.{fill_lem, entry_of}

module _ {J : Type 0} (ops : Value J) (cache_key : String → List J → ℕ) (config : CacheConfig) where
  -- the states after a number of look-ups
  pub data Reachable : ℕ → CacheInner J → Type 0 where
    start : Reachable 0 empty
    looked_up :
        {n : ℕ} {s : CacheInner J} (req : JsonRpcRequest J) (now : ℕ)
        → Reachable n s
        → Reachable (n + 1) (probe (cache_key req.method req.params) now s).1
    filled :
        {n : ℕ} {s t : CacheInner J} (req : JsonRpcRequest J) (now : ℕ)
        (response : JsonRpcResponse J)
        → (resolve_cacheability ops config req).0 ≡ true
        → Reachable n s
        → fill ops cache_key config req now response s ≡ some t
        → Reachable n t
    cleared : {n : ℕ} {s : CacheInner J} → Reachable n s → Reachable n (invalidate s)
    method_cleared :
        {n : ℕ} {s : CacheInner J} (method : String)
        → Reachable n s
        → Reachable n (invalidate_method method s)
    reorganised :
        {n : ℕ} {s : CacheInner J} (from_block : ℕ)
        → Reachable n s
        → Reachable n (invalidate_for_reorg from_block s)

  -- No key is bound twice, there are at most `max_entries` entries, each holds a success, and the
  -- look-ups are the hits and the misses.
  abbrev pub IsSound : ℕ → CacheInner J → Type 0
  IsSound n s =
      DistinctKeys s.entries
      × (length s.entries ≤ config.max_entries)
      × All (λ (b : ℕ × CacheEntry J). is_ok b.1.response ≡ true) s.entries
      × (u64 (s.hits + s.misses) ≡ u64 n)

  filter-IsSound :
      (p : ℕ × CacheEntry J → Bool) (n : ℕ) (s : CacheInner J)
      → IsSound n s
      → IsSound n (record s { entries = filter p s.entries })
  filter-IsSound p n s (d, l, a, c) = (
    DistinctKeys-filter p s.entries d,
    omega (arith, l, length-filter p s.entries, count-le-length p s.entries),
    All-filter _ p s.entries a,
    c,
  )

  probe-IsSound :
      (key now n : ℕ) (s : CacheInner J) → IsSound n s → IsSound (n + 1) (probe key now s).1
  unfolding evict_expired
  probe-IsSound key now n s h =
      let (d, l, a, c) = filter-IsSound _ n s h in
      elim (probe-cases key now s) [
        | inl (r, x) ↦ subst (λ p. IsSound (n + 1) p.1) (sym x) (d, l, a, omega (arith, c))
        | inr x ↦
            subst (λ p. IsSound (n + 1) p.1) (sym x)
              (
                DistinctKeys-remove _ key d,
                omega (arith, l, length-remove_le (filter _ s.entries) key),
                All-remove _ _ key a,
                omega (arith, c),
              )
      ]

  All-map {κ μ} :
      {A : Type 0} {P : A → Type κ} {Q : A → Type μ} (l : List A)
      → ((x : A) → P x → Q x)
      → All P l
      → All Q l
  All-map [] f h = tt
  All-map (x ∷ l) f h = (f x h.0, All-map l f h.1)

  failed_fill :
      (req : JsonRpcRequest J) (now : ℕ) (response : JsonRpcResponse J) (s : CacheInner J)
      → is_ok response ≡ false
      → fill ops cache_key config req now response s ≡ some s
  unfolding fill
  failed_fill req now response s x = rw x refl

  has_room :
      (req : JsonRpcRequest J) (now : ℕ) (response : JsonRpcResponse J) (s t : CacheInner J)
      → is_ok response ≡ true
      → fill ops cache_key config req now response s ≡ some t
      → 0 < config.max_entries
  unfolding fill
  has_room req now response s t x q = elim (Bool-cases (ltb 0 config.max_entries)) [
    | inl p ↦ ground (arith, p)
    | inr p ↦
        let z : config.max_entries ≡ 0 = ground (arith, p) in
        absurd (ground (arith, q, x, z, never_ends (length s.entries + 1) s.entries))
  ]

  fill-IsSound :
      (req : JsonRpcRequest J) (now : ℕ) (response : JsonRpcResponse J) (n : ℕ) (s t : CacheInner J)
      → fill ops cache_key config req now response s ≡ some t
      → IsSound n s
      → IsSound n t
  fill-IsSound req now response n s t q h = elim (Bool-cases (is_ok response)) [
    | inr x ↦
        let same : s ≡ t = ground (arith, q, failed_fill req now response s x) in
        subst (IsSound n) same h
    | inl x ↦
        let room = has_room req now response s t x q in
        let (left, f, l, (d, sub, _)) =
          fill_lem ops cache_key config req now response s room h.0 x in
        let e = entry_of ops cache_key config req now response in
        let key = cache_key req.method req.params in
        let same : record s { entries = insert left key e } ≡ t = ground (arith, q, f) in
        let Good : ℕ × CacheEntry J → Type 0 = λ b. is_ok b.1.response ≡ true in
        let all : All Good left =
          All-map left (λ b g. get-All Good s.entries b.0 b.1 h.2 (sub b.0 b.1 g))
            (All-get left d) in
        subst (IsSound n) same (
          DistinctKeys-insert left key e d,
          omega (arith, l, length-insert_le left key e),
          All-insert Good left key e x all,
          h.3,
        )
  ]

  -- In every state that is reached, no key is bound twice, there are at most `max_entries` entries,
  -- each entry holds a success, and hits and misses together count the look-ups, modulo 2^64.
  pub Reachable-IsSound : {n : ℕ} {s : CacheInner J} → Reachable n s → IsSound n s
  unfolding invalidate invalidate_method invalidate_for_reorg
  Reachable-IsSound start = (tt, omega arith, tt, refl)
  Reachable-IsSound (looked_up req now r) = probe-IsSound _ now _ _ (Reachable-IsSound r)
  Reachable-IsSound (filled req now response c r q) =
      fill-IsSound req now response _ _ _ q (Reachable-IsSound r)
  Reachable-IsSound (cleared r) = let h = Reachable-IsSound r in (tt, omega arith, tt, h.3)
  Reachable-IsSound (method_cleared method r) = filter-IsSound _ _ _ (Reachable-IsSound r)
  Reachable-IsSound (reorganised from_block r) = filter-IsSound _ _ _ (Reachable-IsSound r)
