-- ===== src/Rpc/GeoRouter/Sweeps.antt =====
-- A request that every provider fails to answer.
use chainkit.Prelude.{
  All, All-get_or, Bool, Bool-cases, List, Option-cases, [], ap, arith, count, err, false, get_or,
  if◌then◌else◌, inl, inr, length, none, refl, some, sym, true, u64, ℕ, ◌%◌, ◌&&◌, ◌+◌, ◌==◌, ◌∙◌,
  ◌∷◌, ◌≡◌, ◌≤◌, nat_eq, string_eq, pair_eq,
}
use chainkit.HashMap
use chainkit.HashMap.{HashMap}
use chainkit.HashMap.Laws.{get-insert, contains_key-eq-get}
use chainkit.Rpc.Request.{JsonRpcRequest}
use chainkit.Rpc.Error.{TransportError, is_retryable, all_providers_down}
use chainkit.Rpc.GeoRouter.Regions.{Region, proximity_order, region_eq}
use chainkit.Rpc.GeoRouter.Orders.{proximity_order-once, count_key-filter, skipped, asked}
use chainkit.Rpc.GeoRouter.{
  GeoRouter, Provider, is_region_healthy, select_from_region, cursor_of, record_failure,
  try_regions, send, routing_order,
}

module _ {J W : Type 0} where
  -- A provider that answers any request with an error for which the next region is tried.
  abbrev pub Fails : Provider J W → Type 0
  Fails p =
      (req : JsonRpcRequest J) (w : W)
      → (e : TransportError J) × ((p.respond req w).0 ≡ err e) × (is_retryable e ≡ true)

  abbrev pub AllFail : HashMap Region (List (Provider J W)) → Type 0
  AllFail m = (g : Region) (ps : List (Provider J W)) → HashMap.get m g ≡ some ps → All Fails ps

  abbrev pub has_provider : GeoRouter J W → Region → Bool
  has_provider r k = elim (HashMap.get r.providers k) [
    | none ↦ false
    | some [] ↦ false
    | some (p ∷ ps) ↦ true
  ]

  -- the cursor of a region that is asked where it is healthy and has a provider
  abbrev pub bumped : GeoRouter J W → Region → ℕ
  bumped r k =
      if is_region_healthy r k && has_provider r k then u64 (cursor_of r k + 1) else cursor_of r k

  -- the router after a region was asked and failed
  abbrev failed : GeoRouter J W → Region → ℕ → GeoRouter J W
  failed r g now =
      record_failure (record r { cursors = HashMap.insert r.cursors g (u64 (cursor_of r g + 1)) }) g
        now

  failed-cursor_of :
      (r : GeoRouter J W) (g k : Region) (now : ℕ)
      → cursor_of (failed r g now) k ≡ (if g == k then u64 (cursor_of r g + 1) else cursor_of r k)
  unfolding record_failure cursor_of
  failed-cursor_of r g k now = elim (Bool-cases (g == k)) [
    | inl e ↦ rw (cursor_of, record_failure, get-insert, e) refl
    | inr e ↦ rw (cursor_of, record_failure, get-insert, e) refl
  ]

  failed-healthy :
      (r : GeoRouter J W) (g k : Region) (now : ℕ)
      → (g == k) ≡ false
      → is_region_healthy (failed r g now) k ≡ is_region_healthy r k
  unfolding record_failure is_region_healthy
  failed-healthy r g k now e = rw (is_region_healthy, record_failure, get-insert, e) refl

  failed-has :
      (r : GeoRouter J W) (g k : Region) (now : ℕ)
      → has_provider (failed r g now) k ≡ has_provider r k
  unfolding record_failure
  failed-has r g k now = refl

  failed-AllFail :
      (r : GeoRouter J W) (g : Region) (now : ℕ)
      → AllFail r.providers
      → AllFail (failed r g now).providers
  unfolding record_failure
  failed-AllFail r g now h = h

  failed-bumped :
      (r : GeoRouter J W) (g k : Region) (now : ℕ)
      → (g == k) ≡ false
      → bumped (failed r g now) k ≡ bumped r k
  failed-bumped r g k now e =
      ground
        (arith, e, failed-healthy r g k now e, failed-has r g k now, failed-cursor_of r g k now)

  bumped_here :
      (r : GeoRouter J W) (g k : Region)
      → is_region_healthy r g ≡ true
      → has_provider r g ≡ true
      → (if g == k then u64 (cursor_of r g + 1) else cursor_of r k)
        ≡ (if g == k then bumped r k else cursor_of r k)
  bumped_here r g k x y = elim (Bool-cases (g == k)) [
    | inr e ↦ rw e refl
    | inl e ↦
        let here : bumped r g ≡ u64 (cursor_of r g + 1) = ground (arith, x, y) in
        rw e (sym here ∙ ap (bumped r) ((region_eq.same_iff g k).0 e))
  ]

  not_there :
      (r : GeoRouter J W) (k : Region)
      → HashMap.contains_key r.providers k ≡ false
      → has_provider r k ≡ false
  not_there r k h = elim (Option-cases (HashMap.get r.providers k)) [
    | inl y ↦ rw (y, has_provider) refl
    | inr (ps, y) ↦ cc (rw y at (contains_key-eq-get r.providers k))
  ]

  select-none :
      (r : GeoRouter J W) (g : Region)
      → has_provider r g ≡ false
      → select_from_region r g ≡ (none, r)
  unfolding select_from_region
  select-none r g e = elim (Option-cases (HashMap.get r.providers g)) [
    | inl y ↦ rw (y, select_from_region) refl
    | inr ([], y) ↦ rw (y, select_from_region) refl
    | inr (p ∷ ps, y) ↦ cc (rw (y, has_provider) at e)
  ]

  select-some :
      (r : GeoRouter J W) (g : Region)
      → AllFail r.providers
      → has_provider r g ≡ true
      → (p : Provider J W) × Fails p
        × ((select_from_region r g).0 ≡ some p)
        × ((select_from_region r g).1
            ≡ record r { cursors = HashMap.insert r.cursors g (u64 (cursor_of r g + 1)) })
  unfolding select_from_region
  select-some r g h e = elim (Option-cases (HashMap.get r.providers g)) [
    | inl y ↦ cc (rw (y, has_provider) at e)
    | inr ([], y) ↦ cc (rw (y, has_provider) at e)
    | inr (p ∷ ps, y) ↦
        let all = h g (p ∷ ps) y in
        (
          get_or (p ∷ ps) (cursor_of r g % length (p ∷ ps)) p,
          All-get_or Fails (p ∷ ps) (cursor_of r g % length (p ∷ ps)) p all all.0,
          rw (y, select_from_region) refl,
          rw (y, select_from_region) refl,
        )
  ]

  -- What a sweep over regions leaves, no one of which stands there twice.
  try_regions-sweep :
      (rs : List Region) (req : JsonRpcRequest J) (now : ℕ) (r : GeoRouter J W) (w : W) (k : Region)
      → AllFail r.providers
      → count (λ g. g == k) rs ≤ 1
      → ((try_regions rs req now r w).0 ≡ err all_providers_down)
        × (cursor_of (try_regions rs req now r w).1 k
            ≡ (if count (λ g. g == k) rs == 0 then cursor_of r k else bumped r k))
  unfolding try_regions
  try_regions-sweep [] req now r w k h c = (refl, refl)
  try_regions-sweep (g ∷ rs) req now r w k h c =
      let fewer : count (λ g. g == k) rs ≤ 1 = ground (arith, c) in
      elim (Bool-cases (is_region_healthy r g)) [
        | inr x ↦
            let ih = try_regions-sweep rs req now r w k h fewer in
            rw (x, try_regions)
              (ih.0, ih.1 ∙ sym (skipped g k rs (cursor_of r) (bumped r) (rw x refl) c))
        | inl x ↦ elim (Bool-cases (has_provider r g)) [
          | inr y ↦
              let ih = try_regions-sweep rs req now r w k h fewer in
              rw (x, try_regions, select-none r g y, select-none r g y)
                (ih.0, ih.1 ∙ sym (skipped g k rs (cursor_of r) (bumped r) (rw (x, y) refl) c))
          | inl y ↦
              let (p, fails, picked, left) = select-some r g h y in
              let (e, answer, again) = fails req w in
              let w' = (p.respond req w).2 in
              let s = failed r g now in
              let ih = try_regions-sweep rs req now s w' k (failed-AllFail r g now h) fewer in
              rw (x, try_regions, picked, answer, again, left)
                (
                  ih.0,
                  ih.1
                      ∙ sym (
                          asked g k rs (cursor_of r) (cursor_of s) (bumped r) (bumped s)
                            (failed-cursor_of r g k now ∙ bumped_here r g k x y)
                            (failed-bumped r g k now) c),
                )
        ]
      ]

  -- Where every provider fails any request, with an error that is retryable, a request is answered with the error that all are down, after every
  -- healthy region that has a provider was asked exactly once: the cursors of these regions, and of no
  -- others, are one further.
  pub send_sweeps :
      (r : GeoRouter J W) (req : JsonRpcRequest J) (now : ℕ) (w : W) (k : Region)
      → AllFail r.providers
      → ((send r req now w).0 ≡ err all_providers_down)
        × (cursor_of (send r req now w).1 k ≡ bumped r k)
  unfolding send routing_order
  send_sweeps r req now w k h =
      let there = HashMap.contains_key r.providers in
      let n = count_key-filter there k (r.local_region ∷ proximity_order r.local_region) in
      let once = proximity_order-once r.local_region k in
      let sweep = try_regions-sweep (routing_order r) req now r w k h (ground (arith, n, once)) in
      (
        sweep.0,
        sweep.1 ∙ elim (Bool-cases (there k)) [
          | inl x ↦ ground (arith, n, once, x)
          | inr x ↦ ground (arith, n, once, x, not_there r k x)
        ],
      )
