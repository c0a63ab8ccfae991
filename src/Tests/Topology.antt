-- ===== src/Tests/Topology.antt =====
-- internal/storage/scenario.go and sharded_scenario.go: endpoint sets and cache keys of small registries.
use icapmock.Prelude.{◌≡◌, ◌⊎◌, ◌↔◌, refl, false, none, some, [], ◌∷◌, Bytes, codes, ◌=ᵇ◌}
use icapmock.Icap.Header.{sort_strings, insert_sorted, bytes_leb}
use icapmock.Icap.Chunked.Source.{eof}
use icapmock.Icap.Body.Lazy.{unread_body}
use icapmock.Storage.HeaderRules.{member}
use icapmock.Storage.Scenarios.{no_rule, Scenario, default_scenario, Request}
use icapmock.Storage.Matching.Verdicts.{verdict}
use icapmock.Storage.ShardKeys.{unseen}
use icapmock.Storage.Topology.{
  has_exact_routes, declared_paths, scenario_endpoint_topology, string_slices_equal,
  validate_exact_route_topology, LoadResult, read, reload,
}
use icapmock.Storage.Topology.Changes.{
  IsSameTopology, KeepsTopology, validate_exact_route_topology_iff, reload-KeepsTopology,
}
use icapmock.Storage.Sharded.CacheKey.{
  has_dynamic_match_rule, has_endpoint_captures, scenario_disables_match_cache, verdict_cached,
}
use icapmock.Tests.Storage.{env, scan_request, start, small_registry}

abbrev routed : Bytes → Scenario
routed path = record default_scenario {
  rule = record no_rule {
    routes = (codes "REQMOD", path ∷ []) ∷ [];
    paths = path ∷ [];
    methods = codes "REQMOD" ∷ [];
  };
}

-- The order of the scenarios does not matter, another endpoint does.
topology_changes :
    (validate_exact_route_topology
        (routed (codes "/b") ∷ routed (codes "/a") ∷ [])
        (routed (codes "/a") ∷ routed (codes "/b") ∷ [])
      ≡ none)
    × (validate_exact_route_topology (routed (codes "/b") ∷ []) (routed (codes "/c") ∷ [])
        ≡ some (codes "/b" ∷ [], codes "/c" ∷ []))
unfolding validate_exact_route_topology has_exact_routes scenario_endpoint_topology sort_strings
    insert_sorted bytes_leb unseen declared_paths member string_slices_equal ◌=ᵇ◌
topology_changes = (refl, refl)

validate_exact_route_topology_iff_example :
    (validate_exact_route_topology (routed (codes "/b") ∷ []) (routed (codes "/c") ∷ []) ≡ none) ↔ (
      ((has_exact_routes (routed (codes "/b") ∷ []) ≡ false)
        × (has_exact_routes (routed (codes "/c") ∷ []) ≡ false))
      ⊎ IsSameTopology (routed (codes "/b") ∷ []) (routed (codes "/c") ∷ []))
validate_exact_route_topology_iff_example =
    validate_exact_route_topology_iff (routed (codes "/b") ∷ []) (routed (codes "/c") ∷ [])

abbrev file_of : Bytes → LoadResult Bytes
file_of path = read (routed path ∷ [])

reload-KeepsTopology_example :
    KeepsTopology small_registry.scenarios (reload file_of small_registry).0.scenarios
reload-KeepsTopology_example = reload-KeepsTopology Bytes file_of small_registry

-- Another client, with a header and a body.
abbrev other_request : Request
other_request = record scan_request {
  header = (codes "X-Client-IP", codes "10.0.0.9" ∷ []) ∷ [];
  client_ip = codes "10.0.0.9";
}

cache_on : scenario_disables_match_cache default_scenario ≡ false
unfolding scenario_disables_match_cache has_dynamic_match_rule has_endpoint_captures
cache_on = refl

verdict_cached_example :
    verdict env default_scenario scan_request start
    ≡ verdict env default_scenario other_request
        (record start { request_body = unread_body (codes "clean") eof })
verdict_cached_example =
    verdict_cached env default_scenario scan_request other_request start
      (record start { request_body = unread_body (codes "clean") eof }) cache_on
      (record { lists = λ h. refl; body = λ h. refl; cidrs = λ h. refl })
      (record { same_method = refl; same_uri = refl; same_head = refl })
