-- ===== src/Rpc/Tests/Regional.antt =====
-- A router in us-east whose two providers never answer.
use chainkit.Prelude.{
  All, [], arith, err, false, refl, some, ℕ, ◌+◌, ◌∷◌, ◌≡◌, nat_eq, string_eq, pair_eq,
}
use chainkit.HashMap
use chainkit.HashMap.Laws.{get-All}
use chainkit.Rpc.Request.{JsonRpcRequest, number}
use chainkit.Rpc.Error.{timeout, all_providers_down}
use chainkit.Rpc.GeoRouter.Regions.{us_east, eu_west, region_eq}
use chainkit.Rpc.GeoRouter.{GeoRouter, Provider, is_region_healthy, cursor_of, record_failure, send}
use chainkit.Rpc.GeoRouter.Health.{new_health, health_failure}
use chainkit.Rpc.GeoRouter.Banished.{send_all, failure_is_final}
use chainkit.Rpc.GeoRouter.Sweeps.{Fails, AllFail, bumped, send_sweeps}

-- A provider that counts what it is asked, and answers nothing.
abbrev silent : Provider ℕ ℕ
silent = record { respond = λ req asked. (err (timeout 30_000), 30_000_000, asked + 1) }

abbrev router : GeoRouter ℕ ℕ
router = record {
  local_region = us_east;
  providers = (us_east, silent ∷ []) ∷ (eu_west, silent ∷ silent ∷ []) ∷ [];
  health = (us_east, new_health 0) ∷ (eu_west, new_health 0) ∷ [];
  cursors = [];
}

abbrev request : JsonRpcRequest ℕ
request = record { jsonrpc = "2.0"; method = "eth_call"; params = []; id = number 1 }

silent-Fails : Fails silent
silent-Fails req w = (timeout 30_000, refl, refl)

router-AllFail : AllFail router.providers
router-AllFail g ps e =
    get-All (λ b. All Fails b.1) router.providers g ps
      ((silent-Fails, tt), ((silent-Fails, (silent-Fails, tt)), tt)) e

send_sweeps_example :
    ((send router request 7 0).0 ≡ err all_providers_down)
    × (cursor_of (send router request 7 0).1 eu_west ≡ bumped router eu_west)
send_sweeps_example = send_sweeps router request 7 0 eu_west router-AllFail

failure_is_final_example :
    let s = (send_all (record_failure router eu_west 3) ((request, 7) ∷ (request, 9) ∷ []) 0).0 in
    (HashMap.get s.cursors eu_west ≡ HashMap.get router.cursors eu_west)
    × (HashMap.get s.health eu_west ≡ some (health_failure (new_health 0) 3))
    × (is_region_healthy s eu_west ≡ false)
failure_is_final_example =
    failure_is_final eu_west router (new_health 0) 3 ((request, 7) ∷ (request, 9) ∷ []) 0
      (unfold HashMap.get in refl) (unfold new_health in omega arith)
      (unfold new_health in omega arith)
