-- ===== src/Index/Storage/Reorgs.antt =====
-- What a rollback makes of the events and hashes that were stored above the fork.
use chainkit.Prelude.{
  All, Bool, Bool-cases, List, String, [], ap, arith, false, filter, if◌then◌else◌, inl, inr, leb,
  none, refl, ℕ, ◌++◌, ◌<◌, ◌∙◌, ◌∷◌, ◌≡◌, nat_eq, string_eq, pair_eq,
}
use chainkit.HashMap
use chainkit.HashMap.Laws.{get-insert, get-filter_key}
use chainkit.Index.Event.{DecodedEvent}
use chainkit.Index.Storage.{
  InMemoryStorage, insert_event, insert_block_hash, get_block_hash, rollback_after,
}

pub data Write (J : Type 0) : Type 0 where
  event : DecodedEvent J → Write J
  block_hash : ℕ → String → Write J

module _ {J : Type 0} where
  abbrev pub write : InMemoryStorage J → Write J → InMemoryStorage J
  write s (event e) = insert_event s e
  write s (block_hash number hash) = insert_block_hash s number hash

  abbrev pub write_all : InMemoryStorage J → List (Write J) → InMemoryStorage J
  write_all s [] = s
  write_all s (w ∷ ws) = write_all (write s w) ws

  -- the block of a write
  abbrev pub block_of : Write J → ℕ
  block_of (event e) = e.block_number
  block_of (block_hash number hash) = number

  filter-snoc :
      (p : DecodedEvent J → Bool) (es : List (DecodedEvent J)) (e : DecodedEvent J)
      → p e ≡ false
      → filter p (es ++ e ∷ []) ≡ filter p es
  filter-snoc p [] e h = rw h refl
  filter-snoc p (x ∷ es) e h = elim (Bool-cases (p x)) [
    | inl y ↦ rw y (ap (λ l. x ∷ l) (filter-snoc p es e h))
    | inr y ↦ rw y (filter-snoc p es e h)
  ]

  abbrev Agree : InMemoryStorage J → InMemoryStorage J → Type 0
  Agree s t = (s.events ≡ t.events) × ((k : ℕ) → get_block_hash s k ≡ get_block_hash t k)

  rollback-write :
      (s : InMemoryStorage J) (w : Write J) (n : ℕ)
      → n < block_of w
      → Agree (rollback_after (write s w) n) (rollback_after s n)
  unfolding rollback_after insert_event insert_block_hash get_block_hash
  rollback-write s (event e) n h =
      let above : leb e.block_number n ≡ false = ground (arith, h) in
      (filter-snoc (λ e. leb e.block_number n) s.events e above, λ k. refl)
  rollback-write s (block_hash number hash) n h = (
    refl,
    λ k.
        get-filter_key (λ k. leb k n) (HashMap.insert s.block_hashes number hash) k
        ∙ ground (
          arith,
          h,
          get-insert s.block_hashes number k hash,
          get-filter_key (λ k. leb k n) s.block_hashes k,
        ),
  )

  rollback_writes :
      (s : InMemoryStorage J) (ws : List (Write J)) (n : ℕ)
      → All (λ w. n < block_of w) ws
      → Agree (rollback_after (write_all s ws) n) (rollback_after s n)
  rollback_writes s [] n h = (refl, λ k. refl)
  rollback_writes s (w ∷ ws) n h =
      let (events, hashes) = rollback-write s w n h.0 in
      let (events', hashes') = rollback_writes (write s w) ws n h.1 in
      ((events' ∙ events), λ k. hashes' k ∙ hashes k)

  rollback_keeps :
      (s : InMemoryStorage J) (n : ℕ)
      → ((rollback_after s n).events ≡ filter (λ e. leb e.block_number n) s.events)
        × ((k : ℕ)
            → get_block_hash (rollback_after s n) k
              ≡ (if leb k n then get_block_hash s k else none))
  unfolding rollback_after get_block_hash
  rollback_keeps s n = (refl, λ k. get-filter_key (λ k. leb k n) s.block_hashes k)

  -- After any events and block hashes of blocks above the fork are stored, a rollback to the fork leaves
  -- the events that were there before them up to the fork block, which is kept, in their order, and the
  -- hashes of these blocks and of no others.
  pub rollback-write_all :
      (s : InMemoryStorage J) (ws : List (Write J)) (n : ℕ)
      → All (λ w. n < block_of w) ws
      → ((rollback_after (write_all s ws) n).events ≡ filter (λ e. leb e.block_number n) s.events)
        × ((k : ℕ)
            → get_block_hash (rollback_after (write_all s ws) n) k
              ≡ (if leb k n then get_block_hash s k else none))
  rollback-write_all s ws n h =
      let (events, hashes) = rollback_writes s ws n h in
      let (kept, kept_hashes) = rollback_keeps s n in (events ∙ kept, λ k. hashes k ∙ kept_hashes k)
