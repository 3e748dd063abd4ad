-- ===== src/Rpc/GeoRouter/Banished.antt =====
-- A region that counts as failing is left out, and nothing else tells whether it has recovered.
use chainkit.Prelude.{
  Bool-cases, List, Option-cases, Result-cases, [], ap, arith, beq_refl, false, inl, inr, refl,
  some, true, u64_max, ℕ, ◌+◌, ◌==◌, ◌∙◌, ◌∷◌, ◌≡◌, ◌≤◌, nat_eq, string_eq, pair_eq,
}
use chainkit.HashMap
use chainkit.HashMap.Laws.{get-insert}
use chainkit.Rpc.Request.{JsonRpcRequest}
use chainkit.Rpc.Error.{is_retryable}
use chainkit.Rpc.GeoRouter.Regions.{Region, region_eq}
use chainkit.Rpc.GeoRouter.{
  GeoRouter, is_region_healthy, select_from_region, record_success, record_failure, try_regions,
  send, routing_order, health_entry,
}
use chainkit.Rpc.GeoRouter.Health.{RegionalHealth, health_failure, mostly_succeeds}

module _ {J W : Type 0} where
  -- requests one after another, each with a reading of the clock
  abbrev pub send_all : GeoRouter J W → List (JsonRpcRequest J × ℕ) → W → GeoRouter J W × W
  send_all r [] w = (r, w)
  send_all r ((req, now) ∷ reqs) w = let (answer, r', w') = send r req now w in send_all r' reqs w'

module _ {J W : Type 0} (region : Region) where
  -- the health and the cursor of the region are the same
  abbrev pub Untouched : GeoRouter J W → GeoRouter J W → Type 0
  Untouched r s =
      (HashMap.get s.health region ≡ HashMap.get r.health region)
      × (HashMap.get s.cursors region ≡ HashMap.get r.cursors region)

  trans : (r s t : GeoRouter J W) → Untouched r s → Untouched s t → Untouched r t
  trans r s t h k = (k.0 ∙ h.0, k.1 ∙ h.1)

  stays :
      (r s : GeoRouter J W)
      → Untouched r s
      → is_region_healthy r region ≡ false
      → is_region_healthy s region ≡ false
  unfolding is_region_healthy
  stays r s h k = rw (h.0, is_region_healthy) k

  other :
      (r : GeoRouter J W) (g : Region)
      → is_region_healthy r region ≡ false
      → is_region_healthy r g ≡ true
      → (g == region) ≡ false
  other r g h k = elim (Bool-cases (g == region)) [
    | inr e ↦ e
    | inl e ↦
        let p : g ≡ region = (region_eq.same_iff g region).0 e in
        cc (h, k, ap (is_region_healthy r) p)
  ]

  select-Untouched :
      (r : GeoRouter J W) (g : Region)
      → (g == region) ≡ false
      → Untouched r (select_from_region r g).1
  unfolding select_from_region
  select-Untouched r g e = elim (Option-cases (HashMap.get r.providers g)) [
    | inl x ↦ rw (x, select_from_region) (refl, refl)
    | inr ([], x) ↦ rw (x, select_from_region) (refl, refl)
    | inr (p ∷ ps, x) ↦ rw (x, select_from_region) (refl, get-insert r.cursors g region _ ∙ rw e)
  ]

  success-Untouched :
      (r : GeoRouter J W) (g : Region) (latency now : ℕ)
      → (g == region) ≡ false
      → Untouched r (record_success r g latency now)
  unfolding record_success
  success-Untouched r g latency now e = (get-insert r.health g region _ ∙ rw e, refl)

  failure-Untouched :
      (r : GeoRouter J W) (g : Region) (now : ℕ)
      → (g == region) ≡ false
      → Untouched r (record_failure r g now)
  unfolding record_failure
  failure-Untouched r g now e = (get-insert r.health g region _ ∙ rw e, refl)

  try_regions-Untouched :
      (rs : List Region) (req : JsonRpcRequest J) (now : ℕ) (r : GeoRouter J W) (w : W)
      → is_region_healthy r region ≡ false
      → Untouched r (try_regions rs req now r w).1
  unfolding try_regions
  try_regions-Untouched [] req now r w h = (refl, refl)
  try_regions-Untouched (g ∷ rs) req now r w h = elim (Bool-cases (is_region_healthy r g)) [
    | inr x ↦ rw (x, try_regions) (try_regions-Untouched rs req now r w h)
    | inl x ↦
        let e = other r g h x in
        let asked = (select_from_region r g).1 in
        let k = select-Untouched r g e in
        elim (Option-cases (select_from_region r g).0) [
          | inl y ↦
              rw (x, y, try_regions)
                (let last = (try_regions rs req now asked w).1 in
                  trans r asked last k
                    (try_regions-Untouched rs req now asked w (stays r asked k h)))
          | inr (p, y) ↦
              let (answer, elapsed, w') = p.respond req w in
              elim (Result-cases answer) [
                | inl (resp, z) ↦
                    rw (x, y, try_regions, z)
                      (trans r asked (record_success asked g elapsed now) k
                        (success-Untouched asked g elapsed now e))
                | inr (err', z) ↦ elim (Bool-cases (is_retryable err')) [
                  | inr q ↦ rw (x, y, try_regions, z, q) k
                  | inl q ↦
                      let failed = record_failure asked g now in
                      let l = trans r asked failed k (failure-Untouched asked g now e) in
                      rw (x, y, try_regions, z, q)
                        (let last = (try_regions rs req now failed w').1 in
                          trans r failed last l
                            (try_regions-Untouched rs req now failed w' (stays r failed l h)))
                ]
              ]
        ]
  ]

  send_all-Untouched :
      (r : GeoRouter J W) (reqs : List (JsonRpcRequest J × ℕ)) (w : W)
      → is_region_healthy r region ≡ false
      → Untouched r (send_all r reqs w).0
  unfolding send
  send_all-Untouched r [] w h = (refl, refl)
  send_all-Untouched r ((req, now) ∷ reqs) w h =
      let k = try_regions-Untouched (routing_order r) req now r w h in
      let (answer, s, w') = send r req now w in
      trans r s (send_all s reqs w').0 k (send_all-Untouched s reqs w' (stays r s k h))

  failed :
      (r : GeoRouter J W) (h : RegionalHealth) (now : ℕ)
      → HashMap.get r.health region ≡ some h
      → (HashMap.get (record_failure r region now).health region ≡ some (health_failure h now))
        × (HashMap.get (record_failure r region now).cursors region ≡ HashMap.get r.cursors region)
  unfolding record_failure health_entry
  failed r h now e = (
    get-insert r.health region region _ ∙ rw (e, record_failure, health_entry, beq_refl region),
    refl,
  )

  failed-unhealthy :
      (r : GeoRouter J W) (h : RegionalHealth) (now : ℕ)
      → HashMap.get r.health region ≡ some h
      → h.success_count ≤ h.failure_count + 1
      → h.success_count + h.failure_count + 1 ≤ u64_max
      → is_region_healthy (record_failure r region now) region ≡ false
  unfolding is_region_healthy health_failure mostly_succeeds
  failed-unhealthy r h now e few fits = rw ((failed r h now e).0, is_region_healthy) (ground arith)

  -- When a region fails that had at most one success more than failures, so at its first failure too, no
  -- request is ever sent to it again, whatever requests follow: its cursor and its health stay as they
  -- are, so that it cannot recover.
  pub failure_is_final :
      (r : GeoRouter J W) (h : RegionalHealth) (now : ℕ) (reqs : List (JsonRpcRequest J × ℕ))
      (w : W)
      → HashMap.get r.health region ≡ some h
      → h.success_count ≤ h.failure_count + 1
      → h.success_count + h.failure_count + 1 ≤ u64_max
      → let s = (send_all (record_failure r region now) reqs w).0 in
        (HashMap.get s.cursors region ≡ HashMap.get r.cursors region)
        × (HashMap.get s.health region ≡ some (health_failure h now))
        × (is_region_healthy s region ≡ false)
  failure_is_final r h now reqs w e few fits =
      let s = record_failure r region now in
      let (a, b) = failed r h now e in
      let sick = failed-unhealthy r h now e few fits in
      let k = send_all-Untouched s reqs w sick in
      (k.1 ∙ b, k.0 ∙ a, stays s (send_all s reqs w).0 k sick)
