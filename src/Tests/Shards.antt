-- ===== src/Tests/Shards.antt =====
-- internal/storage/sharded_scenario.go: what the index of a shard does not cover.
use icapmock.Prelude.{◌≡◌, refl, [], ◌∷◌, codes, ◌=ᵇ◌, has_prefix, index, index_byte}
use icapmock.Prelude.Int64.{pos}
use icapmock.Prelude.Maps.{lookup, insert}
use icapmock.Storage.HeaderRules.{member}
use icapmock.Storage.Endpoints.{
  shard_lookup_path, request_path, trim_prefix, index_query_or_fragment,
}
use icapmock.Storage.Scenarios.{
  default_body_pattern_options, no_rule, Scenario, default_scenario, Request, method_reqmod,
}
use icapmock.Storage.ShardKeys.{
  hash_string, fnv_from, requires_global_priority_check, shard_safe_path, shard_for_scenario,
  shard_for_request, extract_path_prefix, before_special, unseen, build_index_keys,
  ordered_route_methods, add_entry, route_entries, exact_route_shard_entries,
}
use icapmock.Storage.Sharded.{
  ShardedRegistry, new_sharded_registry, bounded_shard_count, add_keys, add_to_shard, at_shard,
  add_entries, add_global_scenario, index_scenario, index_all, load_scenarios,
  unique_scenario_pointers, unique_from,
}
use icapmock.Storage.Sharded.Search.{
  prefix_keys, build_search_keys, indexed, shard_at, shard_candidates,
}
use icapmock.Tests.Storage.{ascii, endpoint, scan_request, scan_scenario}

abbrev dotted_request : Request
dotted_request = record scan_request { uri = codes "icap://h/a.b" }

-- Two scenarios of one path: the first outranks the second, which has it as an exact route.
abbrev by_path : Scenario
by_path = record scan_scenario {
  rule = record no_rule { paths = codes "/a.b" ∷ []; methods = method_reqmod ∷ [] };
  compiled_paths = endpoint (codes "/a.b") ∷ [];
}

abbrev by_route : Scenario
by_route = record default_scenario {
  name = codes "route";
  rule = record no_rule { routes = (method_reqmod, codes "/a.b" ∷ []) ∷ [] };
  priority = pos 1;
  order = 2;
}

abbrev dotted_registry : ShardedRegistry
dotted_registry =
    load_scenarios [] (by_path ∷ by_route ∷ default_scenario ∷ [])
      (new_sharded_registry ascii default_body_pattern_options 1)

-- Only the second is a candidate.
dotted_path_missed : shard_candidates dotted_registry dotted_request ≡ by_route ∷ []
unfolding load_scenarios new_sharded_registry bounded_shard_count index_all index_scenario
    exact_route_shard_entries requires_global_priority_check shard_safe_path shard_for_scenario
    hash_string fnv_from at_shard add_to_shard add_keys build_index_keys extract_path_prefix
    before_special unseen member insert lookup add_global_scenario has_prefix index_byte ◌=ᵇ◌
    ordered_route_methods add_entry route_entries add_entries shard_candidates
    unique_scenario_pointers unique_from indexed build_search_keys prefix_keys shard_at
    shard_for_request shard_lookup_path request_path trim_prefix index_query_or_fragment index
dotted_path_missed = refl
