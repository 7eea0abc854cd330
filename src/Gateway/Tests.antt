-- ===== src/Gateway/Tests.antt =====
-- Runs of the gateway's configurations at concrete inputs.
use picoshift.Prelude.{String, ◌≡◌, List, [], ◌∷◌, All, find, map}
use picoshift.Gateway.{HttpRouteBackend, HttpRouteRule, generate_rds_yaml, generate_cds_yaml}
use picoshift.Gateway.Rds.{Route, print_rds, covers, IsTaken, generate_rds_yaml-IsTaken}
use picoshift.Gateway.Clusters.{IsDistinct, has, all_backends}
use picoshift.Gateway.Cds.{
  Cluster, print_cds, auth_proxy, name_of, cluster_names, IsOf, generate_cds_yaml-IsDistinct,
}

abbrev backend : HttpRouteBackend
backend = record { service_name = "s"; namespace = "ns"; port = 80 }

abbrev rules : List HttpRouteRule
rules =
    (record { path_prefix = "/"; backends = backend ∷ [] })
    ∷ (record { path_prefix = "/api"; backends = backend ∷ backend ∷ [] })
    ∷ []

generate_rds_yaml-IsTaken_example :
    (rs : List Route) × (generate_rds_yaml "h" rules ≡ print_rds "h" rs)
    × ((path : String) → IsTaken path rules (find (covers path) rs))
generate_rds_yaml-IsTaken_example = generate_rds_yaml-IsTaken "h" rules

generate_cds_yaml-IsDistinct_example :
    (cs : List Cluster) × (generate_cds_yaml rules (80 ∷ []) ≡ print_cds (auth_proxy ∷ cs))
    × All (IsOf (80 ∷ []) rules) cs
    × IsDistinct (cluster_names (auth_proxy ∷ cs))
    × ((n : String) → has n (cluster_names cs) ≡ has n (map name_of (all_backends rules)))
generate_cds_yaml-IsDistinct_example = generate_cds_yaml-IsDistinct rules (80 ∷ [])
