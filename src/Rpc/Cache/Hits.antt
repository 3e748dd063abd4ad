-- ===== src/Rpc/Cache/Hits.antt =====
-- chainrpc-core/src/cache.rs: what a look-up answers after each of the steps that change the cache.
use chainkit.Prelude.{
  Bool, Bool-cases, Option, Option-cases, [], ap, arith, filter, if◌then◌else◌, inl, inr, none,
  refl, some, sym, u64, ℕ, ◌+◌, ◌==◌, ◌∙◌, ◌∷◌, ◌≡◌, ◌⊎◌, nat_eq, string_eq, pair_eq,
}
use mathlib.Core.Path.{subst}
use chainkit.Rpc.Request.{JsonRpcResponse}
use chainkit.HashMap.{remove, HashMap, get, DistinctKeys}
use chainkit.HashMap.Laws.{get_of_absent}
use chainkit.HashMap.Distinct.{All-filter, DistinctKeys-remove, DistinctKeys-filter}
use chainkit.Rpc.Cache.{
  CacheEntry, CacheInner, fresh, below, evict_expired, if_fresh, probe, invalidate_for_reorg,
}

-- `retain` by a test of the value, where no key is bound twice.
keep {κ} : {V : Type κ} → (V → Bool) → Option V → Option V
keep p none = none
keep p (some v) = if p v then some v else none

get-filter {κ} :
    {V : Type κ} (p : V → Bool) (m : HashMap ℕ V) (k : ℕ)
    → DistinctKeys m
    → get (filter (λ b. p b.1) m) k ≡ keep p (get m k)
unfolding get keep
get-filter p [] k d = refl
get-filter p ((j, v) ∷ m) k d = elim (Bool-cases (j == k)) [
  | inr x ↦ elim (Bool-cases (p v)) [
    | inl y ↦ rw (y, x) (get-filter p m k d.1)
    | inr y ↦ rw (y, x) (get-filter p m k d.1)
  ]
  | inl x ↦ elim (Bool-cases (p v)) [
    | inl y ↦ ground (arith, x, y)
    | inr y ↦
        let out = get_of_absent j _ (All-filter _ (λ b. p b.1) m d.0) in
        let same : j ≡ k = ground (arith, x) in ground (arith, x, y, same, out)
  ]
]

module _ {J : Type 0} where
  fresh-keep :
      (now : ℕ) (o : Option (CacheEntry J)) → if_fresh now (keep (fresh now) o) ≡ if_fresh now o
  unfolding if_fresh keep
  fresh-keep now none = refl
  fresh-keep now (some e) = elim (Bool-cases (fresh now e)) [
    | inl x ↦ rw (x, x) refl
    | inr x ↦ rw x refl
  ]

  answer-lookup :
      (key now : ℕ) (s : CacheInner J)
      → (probe key now s).0 ≡ if_fresh now (get (evict_expired now s).entries key)
  unfolding probe
  answer-lookup key now s =
      elim (Option-cases (if_fresh now (get (evict_expired now s).entries key))) [
        | inl x ↦ ground (arith, x)
        | inr (r, x) ↦ ground (arith, x)
      ]

  -- a look-up reads the entry of the key, whatever else the cache holds
  pub probe-answer :
      (key now : ℕ) (s : CacheInner J)
      → DistinctKeys s.entries
      → (probe key now s).0 ≡ if_fresh now (get s.entries key)
  unfolding evict_expired
  probe-answer key now s d =
      answer-lookup key now s
      ∙ ap (if_fresh now) (get-filter (fresh now) s.entries key d)
      ∙ fresh-keep now (get s.entries key)

  -- the two results of a look-up
  pub probe-cases :
      (key now : ℕ) (s : CacheInner J)
      → (let kept = evict_expired now s in
          ((r : JsonRpcResponse J) × (probe key now s
              ≡ (some r, record kept { hits = u64 (s.hits + 1) })))
          ⊎ (probe key now s ≡ (
            none,
            record kept { entries = remove kept.entries key; misses = u64 (s.misses + 1) },
          )))
  unfolding probe
  probe-cases key now s =
      elim (Option-cases (if_fresh now (get (evict_expired now s).entries key))) [
        | inl x ↦ inr (rw (probe, x) refl)
        | inr (r, x) ↦ inl (r, rw (probe, x) refl)
      ]

  pub probe-DistinctKeys :
      (key now : ℕ) (s : CacheInner J)
      → DistinctKeys s.entries
      → DistinctKeys (probe key now s).1.entries
  unfolding evict_expired
  probe-DistinctKeys key now s d =
      let kept = DistinctKeys-filter (λ b. fresh now b.1) s.entries d in
      elim (probe-cases key now s) [
        | inl (r, x) ↦ subst (λ p. DistinctKeys p.1.entries) (sym x) kept
        | inr x ↦ subst (λ p. DistinctKeys p.1.entries) (sym x) (DistinctKeys-remove _ key kept)
      ]

  probe-filter :
      (p : CacheEntry J → Bool) (key now : ℕ) (s : CacheInner J)
      → DistinctKeys s.entries
      → (probe key now (record s { entries = filter (λ b. p b.1) s.entries })).0
        ≡ if_fresh now (keep p (get s.entries key))
  probe-filter p key now s d =
      probe-answer key now _ (DistinctKeys-filter _ s.entries d)
      ∙ ap (if_fresh now) (get-filter p s.entries key d)

  -- A reorg removes the answer of an entry whose block is at or above the fork, and no other.
  pub probe-invalidate_for_reorg :
      (from_block key now : ℕ) (s : CacheInner J)
      → DistinctKeys s.entries
      → (probe key now (invalidate_for_reorg from_block s)).0 ≡ elim (get s.entries key) [
        | none ↦ none
        | some e ↦ if below from_block e then (probe key now s).0 else none
      ]
  unfolding invalidate_for_reorg keep if_fresh
  probe-invalidate_for_reorg from_block key now s d = elim (Option-cases (get s.entries key)) [
    | inl x ↦ ground (arith, x, probe-filter (below from_block) key now s d)
    | inr (e, x) ↦
        ground (arith, x, probe-filter (below from_block) key now s d, probe-answer key now s d)
  ]
