-- ===== src/Rpc/GeoRouter.antt =====
-- chainrpc-core/src/geo_routing.rs, `GeoRouter`. A provider is a step on a state of its own, W, with an
-- answer and the time that it took; the requests are taken one at a time, and `now` is a reading of the
-- clock.
pub mod Regions
pub mod Health
pub mod Orders
pub mod Banished
pub mod Sweeps
use chainkit.Prelude.{
  Bool, List, Option, Result, String, [], err, false, filter, get_or, if◌then◌else◌, length, map,
  none, ok, some, true, u64, ℕ, ◌%◌, ◌++◌, ◌+◌, ◌/◌, ◌||◌, ◌∷◌, nat_eq, string_eq, pair_eq,
}
use chainkit.HashMap
use chainkit.HashMap.{HashMap}
use chainkit.Rpc.Request.{JsonRpcRequest, JsonRpcResponse}
use chainkit.Rpc.Error.{TransportError, all_providers_down, is_retryable}
use chainkit.Rpc.Pool.{HealthStatus, healthy, degraded, unhealthy}
use chainkit.Rpc.GeoRouter.Health.{RegionalHealth, new_health, health_success, health_failure}
use chainkit.Rpc.GeoRouter.Regions.{Region, proximity_order, as_str, region_eq}

pub record Provider (J W : Type 0) : Type 0 where
  pub respond : JsonRpcRequest J → W → Result (JsonRpcResponse J) (TransportError J) × ℕ × W

pub record GeoRouter (J W : Type 0) : Type 0 where
  pub local_region : Region
  pub providers : HashMap Region (List (Provider J W))
  pub health : HashMap Region RegionalHealth
  pub cursors : HashMap Region ℕ

pub record RegionHealthSummary : Type 0 where
  pub region : String
  pub provider_count : ℕ
  pub is_healthy : Bool
  pub avg_latency_ms : ℕ
  pub success_count : ℕ
  pub failure_count : ℕ

module _ {J W : Type 0} where
  unfoldable pub new : Region → GeoRouter J W
  new local_region = record {
    local_region = local_region;
    providers = [];
    health = [];
    cursors = [];
  }

  -- `entry(region).or_insert_with(RegionalHealth::new)`
  unfoldable pub health_entry : GeoRouter J W → Region → ℕ → RegionalHealth
  unfolding new_health
  health_entry r region now = elim (HashMap.get r.health region) [
    | none ↦ new_health now
    | some h ↦ h
  ]

  unfoldable pub add_provider : GeoRouter J W → Region → Provider J W → ℕ → GeoRouter J W
  unfolding health_entry
  add_provider r region transport now =
      let there : List (Provider J W) = elim (HashMap.get r.providers region) [
        | none ↦ []
        | some ps ↦ ps
      ] in
      record r {
        providers = HashMap.insert r.providers region (there ++ transport ∷ []);
        health = HashMap.insert r.health region (health_entry r region now);
      }

  unfoldable pub add_providers : GeoRouter J W → Region → List (Provider J W) → ℕ → GeoRouter J W
  unfolding add_provider
  add_providers r region [] now = r
  add_providers r region (t ∷ ts) now = add_providers (add_provider r region t now) region ts now

  total_length : HashMap Region (List (Provider J W)) → ℕ
  total_length [] = 0
  total_length (b ∷ m) = length b.1 + total_length m

  unfoldable pub provider_count : GeoRouter J W → ℕ
  unfolding total_length
  provider_count r = total_length r.providers

  unfoldable pub regions : GeoRouter J W → List Region
  regions r = map (λ b. b.0) r.providers

  unfoldable pub health_summary : GeoRouter J W → List RegionHealthSummary
  unfolding as_str
  health_summary r =
      map
        (λ b. elim (HashMap.get r.health b.0) [
          | none ↦ record {
            region = as_str b.0;
            provider_count = length b.1;
            is_healthy = true;
            avg_latency_ms = 0;
            success_count = 0;
            failure_count = 0;
          }
          | some h ↦ record {
            region = as_str b.0;
            provider_count = length b.1;
            is_healthy = h.is_healthy;
            avg_latency_ms = u64 (h.avg_latency / 1_000);
            success_count = h.success_count;
            failure_count = h.failure_count;
          }
        ])
        r.providers

  unfoldable pub routing_order : GeoRouter J W → List Region
  unfolding proximity_order
  routing_order r =
      filter (HashMap.contains_key r.providers) (r.local_region ∷ proximity_order r.local_region)

  unfoldable pub cursor_of : GeoRouter J W → Region → ℕ
  cursor_of r region = elim (HashMap.get r.cursors region) [ none ↦ 0 | some c ↦ c ]

  unfoldable pub select_from_region : GeoRouter J W → Region → Option (Provider J W) × GeoRouter J W
  unfolding cursor_of
  select_from_region r region = elim (HashMap.get r.providers region) [
    | none ↦ (none, r)
    | some [] ↦ (none, r)
    | some (p ∷ ps) ↦
        let cursor = cursor_of r region in
        (
          some (get_or (p ∷ ps) (cursor % length (p ∷ ps)) p),
          record r { cursors = HashMap.insert r.cursors region (u64 (cursor + 1)) },
        )
  ]

  unfoldable pub record_success : GeoRouter J W → Region → ℕ → ℕ → GeoRouter J W
  unfolding health_entry health_success
  record_success r region latency now = record r {
    health =
        HashMap.insert r.health region (health_success (health_entry r region now) latency now);
  }

  unfoldable pub record_failure : GeoRouter J W → Region → ℕ → GeoRouter J W
  unfolding health_entry health_failure
  record_failure r region now = record r {
    health = HashMap.insert r.health region (health_failure (health_entry r region now) now);
  }

  unfoldable pub is_region_healthy : GeoRouter J W → Region → Bool
  is_region_healthy r region = elim (HashMap.get r.health region) [
    | none ↦ true
    | some h ↦ h.is_healthy
  ]

  -- the loop of `send` over the regions
  unfoldable pub try_regions :
      List Region
      → JsonRpcRequest J
      → ℕ
      → GeoRouter J W
      → W
      → Result (JsonRpcResponse J) (TransportError J) × GeoRouter J W × W
  unfolding is_region_healthy select_from_region record_success record_failure
  try_regions [] req now r w = (err all_providers_down, r, w)
  try_regions (region ∷ rest) req now r w = elim (is_region_healthy r region) [
    | false ↦ try_regions rest req now r w
    | true ↦
        let (picked, asked) = select_from_region r region in
        elim picked [
          | none ↦ try_regions rest req now asked w
          | some provider ↦
              let (answer, elapsed, w') = provider.respond req w in
              elim answer [
                | ok resp ↦ (ok resp, record_success asked region elapsed now, w')
                | err e ↦ elim (is_retryable e) [
                  | true ↦ try_regions rest req now (record_failure asked region now) w'
                  | false ↦ (err e, asked, w')
                ]
              ]
        ]
  ]

  unfoldable pub send :
      GeoRouter J W
      → JsonRpcRequest J
      → ℕ
      → W
      → Result (JsonRpcResponse J) (TransportError J) × GeoRouter J W × W
  unfolding routing_order try_regions
  send r req now w = try_regions (routing_order r) req now r w

  unfoldable pub any_healthy : GeoRouter J W → List Region → Bool
  unfolding is_region_healthy
  any_healthy r [] = false
  any_healthy r (region ∷ rest) = is_region_healthy r region || any_healthy r rest

  -- `health`, of the transport
  unfoldable pub status : GeoRouter J W → HealthStatus
  unfolding is_region_healthy routing_order any_healthy
  status r =
      if is_region_healthy r r.local_region
      then healthy
      else if any_healthy r (routing_order r)
      then degraded
      else unhealthy
