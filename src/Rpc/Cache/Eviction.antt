-- ===== src/Rpc/Cache/Eviction.antt =====
-- chainrpc-core/src/cache.rs: the loop of `send` that makes room for an entry.
use chainkit.Prelude.{
  All, Bool-cases, Option-cases, [], arith, if◌then◌else◌, inl, inr, leb, length, ltb, none, refl,
  some, suc, sym, zero, ℕ, ◌+◌, ◌-◌, ◌<◌, ◌↔◌, ◌∷◌, ◌≡◌, ◌≤◌, nat_eq, string_eq, pair_eq,
}
use mathlib.Core.Path.{subst}
use chainkit.HashMap.{HashMap, get, DistinctKeys}
use chainkit.HashMap.Laws.{get-remove, get-All}
use chainkit.HashMap.Distinct.{DistinctKeys-remove, length-remove}
use chainkit.Rpc.Cache.{CacheEntry, oldest, evict_oldest, evict_while}

abbrev pub Entries : Type 0 → Type 0
Entries J = HashMap ℕ (CacheEntry J)

-- the number of entries that the loop leaves of `n`
abbrev pub room : ℕ → ℕ → ℕ
room max_entries n = if leb max_entries n then max_entries - 1 else n

module _ {J : Type 0} where
  oldest-Pred {κ} :
      (P : ℕ × CacheEntry J → Type κ) (b : ℕ × CacheEntry J) (m : Entries J)
      → P b
      → All P m
      → P (oldest b m)
  unfolding oldest
  oldest-Pred P b [] p h = p
  oldest-Pred P b (c ∷ m) p h = elim (Bool-cases (ltb c.1.inserted_at b.1.inserted_at)) [
    | inl x ↦ rw x (oldest-Pred P c m h.0 h.1)
    | inr x ↦ rw x (oldest-Pred P b m p h.1)
  ]

  skip-get :
      (m : Entries J) (j : ℕ) (v : CacheEntry J) (l : Entries J)
      → All (λ (b : ℕ × CacheEntry J). b.0 ≡ j → ⊥) l
      → All (λ b. get m b.0 ≡ some b.1) l
      → All (λ b. get ((j, v) ∷ m) b.0 ≡ some b.1) l
  unfolding get
  skip-get m j v [] h g = tt
  skip-get m j v (b ∷ l) h g = (ground (arith, h.0, g.0), skip-get m j v l h.1 g.1)

  pub All-get : (m : Entries J) → DistinctKeys m → All (λ b. get m b.0 ≡ some b.1) m
  unfolding get
  All-get [] d = tt
  All-get ((j, v) ∷ m) d = (ground arith, skip-get m j v m d.0 (All-get m d.1))

  oldest-get :
      (b : ℕ × CacheEntry J) (m : Entries J)
      → DistinctKeys (b ∷ m)
      → get (b ∷ m) (oldest b m).0 ≡ some (oldest b m).1
  oldest-get b m d =
      let all = All-get (b ∷ m) d in oldest-Pred (λ c. get (b ∷ m) c.0 ≡ some c.1) b m all.0 all.1

  abbrev NotBefore : CacheEntry J → ℕ × CacheEntry J → Type 0
  NotBefore e b = e.inserted_at ≤ b.1.inserted_at

  oldest-Least :
      (b : ℕ × CacheEntry J) (m : Entries J)
      → NotBefore (oldest b m).1 b × All (NotBefore (oldest b m).1) m
  unfolding oldest
  oldest-Least b [] = (omega arith, tt)
  oldest-Least b (c ∷ m) = elim (Bool-cases (ltb c.1.inserted_at b.1.inserted_at)) [
    | inl x ↦
        let (p, h) = oldest-Least c m in
        let eq : oldest b (c ∷ m) ≡ oldest c m = rw x refl in
        subst AllNotBefore (sym eq) (ground (arith, p, x), (p, h))
    | inr x ↦
        let (p, h) = oldest-Least b m in
        let eq : oldest b (c ∷ m) ≡ oldest b m = rw x refl in
        subst AllNotBefore (sym eq) (p, (ground (arith, p, x), h))
  ]
    where
      AllNotBefore : ℕ × CacheEntry J → Type 0
      AllNotBefore o = NotBefore o.1 b × All (NotBefore o.1) (c ∷ m)

  -- An eviction takes one entry, the oldest.
  evict_oldest_lem :
      (m : Entries J)
      → 0 < length m
      → DistinctKeys m
      → (length (evict_oldest m) + 1 ≡ length m)
        × DistinctKeys (evict_oldest m)
        × ((k : ℕ) (y : CacheEntry J) → get (evict_oldest m) k ≡ some y → get m k ≡ some y)
        × ((j k : ℕ) (x y : CacheEntry J)
            → get m j ≡ some x
            → get (evict_oldest m) j ≡ none
            → get m k ≡ some y
            → x.inserted_at ≤ y.inserted_at)
  unfolding evict_oldest
  evict_oldest_lem [] h d = absurd (omega arith)
  evict_oldest_lem (b ∷ m) h d =
      let o = oldest b m in
      (
        length-remove (b ∷ m) o.0 o.1 d (oldest-get b m d),
        DistinctKeys-remove (b ∷ m) o.0 d,
        (λ k y g. ground (arith, g, get-remove (b ∷ m) o.0 k)),
        λ j k x y gx gone gy.
            let first = get-All (NotBefore o.1) (b ∷ m) k y (oldest-Least b m) gy in
            let same : o.1 ≡ x =
              ground (arith, gx, gone, get-remove (b ∷ m) o.0 j, oldest-get b m d) in
            rw (sym same) first,
      )

  -- What the loop leaves of `m`: entries of `m`, and what it takes is no newer than what it leaves.
  abbrev pub Survivors : Entries J → Entries J → Type 0
  Survivors m e =
      DistinctKeys e
      × ((k : ℕ) (y : CacheEntry J) → get e k ≡ some y → get m k ≡ some y)
      × ((j k : ℕ) (x y : CacheEntry J)
          → get m j ≡ some x
          → get e j ≡ none
          → get e k ≡ some y
          → x.inserted_at ≤ y.inserted_at)

  evict_while-enough :
      (fuel max_entries : ℕ) (m : Entries J)
      → 0 < max_entries
      → length m < fuel
      → DistinctKeys m
      → (e : Entries J) × (evict_while fuel max_entries m ≡ some e)
        × (length e ≡ room max_entries (length m))
        × Survivors m e
  unfolding evict_while
  evict_while-enough zero max_entries m h f d = absurd (omega arith)
  evict_while-enough (suc fuel) max_entries m h f d =
      elim (Bool-cases (leb max_entries (length m))) [
        | inr x ↦ rw x (m, refl, refl, (d, (λ k y g. g), λ j k a b g n gb. absurd cc))
        | inl x ↦
            let (l, dl, sub, old) = evict_oldest_lem m (ground (arith, h, x)) d in
            let (e, q, n, (de, sub', old')) =
              evict_while-enough fuel max_entries (evict_oldest m) h (omega (arith, f, l)) dl in
            rw x (
              e,
              q,
              ground (arith, n, l, x, h),
              (
                de,
                (λ k y g. sub k y (sub' k y g)),
                λ j k a b g gone gb. elim (Option-cases (get (evict_oldest m) j)) [
                  | inl out ↦ old j k a b g out (sub k b (sub' k b gb))
                  | inr (c, there) ↦ old' j k a b (ground (arith, g, there, sub j c there)) gone gb
                ],
              ),
            )
      ]

  -- With room for at least one entry and no key bound twice, as many turns as there are entries,
  -- and one, are enough for the loop to end. It leaves the map as it is where there is room, and one
  -- entry less than `max_entries` otherwise; what it leaves are entries of the map as they were, and
  -- no entry that it took is newer than one that it left.
  pub evict_while-Survivors :
      (max_entries : ℕ) (m : Entries J)
      → 0 < max_entries
      → DistinctKeys m
      → (e : Entries J) × (evict_while (length m + 1) max_entries m ≡ some e)
        × (length e ≡ room max_entries (length m))
        × Survivors m e
  evict_while-Survivors max_entries m h d =
      evict_while-enough (length m + 1) max_entries m h (omega arith) d

  pub never_ends : (fuel : ℕ) (m : Entries J) → evict_while fuel 0 m ≡ none
  unfolding evict_while
  never_ends zero m = refl
  never_ends (suc fuel) m = ground (arith, never_ends fuel (evict_oldest m))

  -- The loop ends, after any number of turns, exactly where the configuration has room for an entry:
  -- with `max_entries` at 0 it runs for ever, while its caller holds the lock.
  evict_while-Ends :
      (max_entries : ℕ) (m : Entries J)
      → DistinctKeys m
      → ((fuel : ℕ) × (e : Entries J) × (evict_while fuel max_entries m ≡ some e))
        ↔ (0 < max_entries)
  evict_while-Ends zero m d =
      ((λ q. absurd (ground (arith, q.2, never_ends q.0 m))), λ h. absurd (omega (arith, h)))
  evict_while-Ends (suc n) m d = (
    (λ q. omega arith),
    λ h. let (e, q, _, _) = evict_while-Survivors (suc n) m h d in (length m + 1, e, q),
  )
