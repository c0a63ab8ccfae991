-- ===== src/Tests/Storage.antt =====
-- internal/storage: the theorems on small registries.
use icapmock.Prelude.{
  ◌+◌, ◌≡◌, refl, arith, false, none, some, [], ◌∷◌, Bytes, codes, ◌=ᵇ◌, if◌then◌else◌, inl, inr,
  has_prefix, index, index_byte, trim_space, lower_ascii,
}
use icapmock.Prelude.Int64.{pos}
use icapmock.Prelude.Maps.{lookup, insert}
use icapmock.Icap.Chunked.Source.{eof}
use icapmock.Icap.Header.{to_lower, get, values}
use icapmock.Icap.Body.{Runtime}
use icapmock.Icap.Body.Lazy.{unread_body}
use icapmock.Storage.HeaderRules.{
  Library, header_rules_match, exact_rules_match, list_rules_match, member,
}
use icapmock.Storage.Endpoints.{
  CompiledEndpoint, request_path, shard_lookup_path, cut_at, match_endpoint, first_endpoint,
  trim_prefix, index_query_or_fragment, captured, merge_captures,
}
use icapmock.Storage.Scenarios.{
  normalized, default_body_pattern_options, no_rule, no_response, nothing_compiled, Branch,
  Scenario, default_scenario, Request, Progress, Environment, method_reqmod,
}
use icapmock.Storage.Matching.{
  rejected, poll, check_paths, matches_scenario, method_matches, headers_match, http_method_matches,
  http_headers_match, http_url_matches, client_matches, select_branch, branch_from, branch_matches,
  route_paths,
}
use icapmock.Storage.Matching.Verdicts.{accepted, verdict, Ends, matches_scenario-Ends}
use icapmock.Storage.Matching.Selected.{branch_of}
use icapmock.Storage.Loader.{body_loader}
use icapmock.Storage.Ranking.{outranks}
use icapmock.Storage.Registry.{Registry, match, match_request, add, remove, found}
use icapmock.Storage.Registry.TakenOut.{IsRegistry}
use icapmock.Storage.Registry.First.{Explains, match_request-Explains}
use icapmock.Storage.Registry.Best.{IsBest, match-IsBest}
use icapmock.Storage.Registry.Chosen.{CarriesBranch, match-CarriesBranch}
use icapmock.Storage.Registry.Updates.{Added, add-Added}
use icapmock.Storage.Registry.Removal.{Removed, remove-Removed}
use icapmock.Storage.ShardKeys.{
  fnv_from, hash_string, shard_safe_path, requires_global_priority_check, shard_for_scenario,
  shard_for_request, before_special, extract_path_prefix, unseen, build_index_keys,
  exact_route_shard_entries,
}
use icapmock.Storage.Sharded.{
  ShardedRegistry, load_scenarios, new_sharded_registry, index_all, index_scenario, at_shard,
  add_to_shard, add_keys, add_global_scenario, unique_from, unique_scenario_pointers,
  shard_scenarios, bounded_shard_count,
}
use icapmock.Storage.Sharded.Search.{
  shard_candidates, indexed, shard_at, build_search_keys, prefix_keys, match_uncached,
}
use icapmock.Storage.Sharded.Search.Found.{
  all_scenarios, under, IsSearchable, Found, match_uncached-Found,
}
use icapmock.Storage.Sharded.Filing.Loaded.{placement}
use icapmock.Storage.Sharded.Filing.Searchable.{IsCounted, IsReached}
use icapmock.Storage.Sharded.Search.Agreement.{match_uncached-match}
use icapmock.Storage.Sharded.Search.Branches.{LeavesBranch, match_uncached-LeavesBranch}

abbrev pub slowly : Runtime
slowly = record { given = λ i. 1; with_last = false; grow = λ cap n. cap + n }

abbrev pub ascii : Library
ascii = record {
  to_lower = to_lower;
  equal_fold = λ s t. to_lower s =ᵇ to_lower t;
  parse_media_type = λ s. some (s, []);
  parse_ip = λ s. some s;
}

abbrev pub env : Environment
env = record {
  library = ascii;
  loader = body_loader 64 slowly none;
  options = default_body_pattern_options;
}

abbrev pub endpoint : Bytes → CompiledEndpoint
endpoint p = record {
  expression = some (record {
    find_submatch = λ s. if s =ᵇ p then some (s ∷ []) else none;
    subexp_names = [] ∷ [];
  });
  raw = p;
  captures = [];
}

abbrev pub scan_request : Request
scan_request = record {
  method = method_reqmod;
  uri = codes "icap://h/scan?a=1";
  header = [];
  client_ip = codes "10.0.0.1";
  http_request = none;
  http_response = none;
}

abbrev pub start : Progress
start = record {
  captures = [];
  matched_branch = none;
  request_body = unread_body (codes "virus") eof;
  response_body = unread_body [] eof;
  alive = none;
}

abbrev pub any_branch : Branch
any_branch = record { compiled = nothing_compiled; rule = no_rule; response = no_response }

abbrev pub scan_scenario : Scenario
scan_scenario = record default_scenario {
  name = codes "scan";
  rule = record no_rule { paths = codes "/scan" ∷ []; methods = method_reqmod ∷ [] };
  compiled_paths = endpoint (codes "/scan") ∷ [];
  branches = any_branch ∷ [];
  priority = pos 10;
  order = 1;
}

abbrev pub small_registry : Registry
small_registry = record {
  body_pattern = default_body_pattern_options;
  file_path = [];
  scenarios = scan_scenario ∷ default_scenario ∷ [];
}

small-IsRegistry : IsRegistry small_registry
unfolding ◌=ᵇ◌ outranks
small-IsRegistry = record {
  apart = (((refl, refl), tt), (tt, tt));
  ranked = ((refl, tt), (tt, tt));
}

scan_accepted : verdict env scan_scenario scan_request start ≡ accepted
unfolding verdict headers_match header_rules_match exact_rules_match list_rules_match
    http_method_matches http_headers_match http_url_matches client_matches select_branch branch_from
    branch_matches method_matches member match_endpoint first_endpoint cut_at index_byte
    request_path trim_prefix has_prefix index ◌=ᵇ◌
scan_accepted = refl

default_accepted : verdict env default_scenario scan_request start ≡ accepted
unfolding verdict headers_match header_rules_match exact_rules_match list_rules_match
    http_method_matches http_headers_match http_url_matches client_matches method_matches
default_accepted = refl

matches_scenario-Ends_example :
    Ends env start
      (verdict env scan_scenario scan_request start)
      (matches_scenario env scan_scenario scan_request start)
matches_scenario-Ends_example =
    matches_scenario-Ends env start scan_scenario scan_request start (refl, refl, refl)

match_request-Explains_example :
    Explains env scan_request start small_registry.scenarios 0
      (match_request env small_registry.scenarios (some scan_request) start)
match_request-Explains_example =
    match_request-Explains env scan_request start small_registry.scenarios refl

match-IsBest_example :
    IsBest env scan_request start small_registry.scenarios
      (match env small_registry (some scan_request) start)
match-IsBest_example = match-IsBest env small_registry scan_request start refl small-IsRegistry

match-CarriesBranch_example :
    CarriesBranch ascii scan_request (match env small_registry (some scan_request) start)
match-CarriesBranch_example = match-CarriesBranch env small_registry scan_request start

add-Added_example : Added scan_scenario small_registry (add scan_scenario small_registry)
add-Added_example = add-Added scan_scenario small_registry small-IsRegistry

remove-Removed_example :
    Removed (codes "scan") small_registry (remove (codes "scan") small_registry)
remove-Removed_example = remove-Removed (codes "scan") small_registry small-IsRegistry

abbrev sharded_registry : ShardedRegistry
sharded_registry = record {
  body_pattern = default_body_pattern_options;
  file_path = [];
  global_scenarios = default_scenario ∷ [];
  shards =
      record {
        index = (codes "REQMOD:/scan", scan_scenario ∷ []) ∷ [];
        scenarios = scan_scenario ∷ [];
      }
      ∷ [];
  shard_count = 1;
}

abbrev as_loaded : ShardedRegistry
as_loaded =
    load_scenarios [] (scan_scenario ∷ default_scenario ∷ [])
      (new_sharded_registry ascii default_body_pattern_options 1)

-- The registry above is what loading the two scenarios gives.
sharded_registry_loaded :
    (as_loaded.shards ≡ sharded_registry.shards)
    × (as_loaded.global_scenarios ≡ sharded_registry.global_scenarios)
unfolding load_scenarios new_sharded_registry bounded_shard_count index_all index_scenario
    exact_route_shard_entries requires_global_priority_check shard_safe_path shard_for_scenario
    hash_string fnv_from at_shard add_to_shard add_keys build_index_keys extract_path_prefix
    before_special unseen member insert lookup add_global_scenario has_prefix index_byte ◌=ᵇ◌
sharded_registry_loaded = (refl, refl)

scan_candidates : shard_candidates sharded_registry scan_request ≡ scan_scenario ∷ []
unfolding shard_candidates unique_scenario_pointers unique_from indexed build_search_keys
    prefix_keys shard_at shard_for_request hash_string fnv_from shard_lookup_path request_path
    trim_prefix index_query_or_fragment has_prefix index lookup ◌=ᵇ◌
scan_candidates = refl

shards_unique :
    unique_scenario_pointers (shard_scenarios sharded_registry.shards) ≡ scan_scenario ∷ []
unfolding unique_scenario_pointers unique_from shard_scenarios ◌=ᵇ◌
shards_unique = refl

scan_searchable :
    IsSearchable (under env sharded_registry.body_pattern) scan_request start sharded_registry
scan_searchable = record {
  inside = rw (scan_candidates, shards_unique) (inl refl, tt);
  clear_shards = rw shards_unique (inl scan_accepted, tt);
  clear_global = (inl default_accepted, tt);
  covered = inr (rw (shards_unique, scan_candidates) (inr (inl refl), tt));
}

match_uncached-Found_example :
    (s : Scenario) × (q : Progress) × (match_uncached env sharded_registry (some scan_request) start
      ≡ found s q)
    × Found
        (under env sharded_registry.body_pattern)
        scan_request
        start
        (all_scenarios sharded_registry)
        s
match_uncached-Found_example =
    match_uncached-Found env sharded_registry scan_request start refl scan_searchable

abbrev one_shard : ShardedRegistry
one_shard = new_sharded_registry ascii default_body_pattern_options 1

one_shard-IsCounted : IsCounted one_shard
unfolding new_sharded_registry bounded_shard_count
one_shard-IsCounted = record { many = omega arith; all = refl }

one_shard_options :
    small_registry.body_pattern
    ≡ (load_scenarios [] small_registry.scenarios one_shard).body_pattern
unfolding load_scenarios new_sharded_registry index_all index_scenario bounded_shard_count
    exact_route_shard_entries requires_global_priority_check shard_safe_path member has_prefix
    index_byte ◌=ᵇ◌ add_global_scenario normalized default_body_pattern_options to_lower trim_space
    lower_ascii
one_shard_options = refl

scan-IsReached : IsReached one_shard.shard_count scan_request scan_scenario
unfolding new_sharded_registry bounded_shard_count placement exact_route_shard_entries
    requires_global_priority_check shard_safe_path shard_for_scenario hash_string fnv_from
    build_index_keys extract_path_prefix before_special unseen member has_prefix index_byte ◌=ᵇ◌
    build_search_keys prefix_keys shard_for_request shard_lookup_path request_path trim_prefix
    index_query_or_fragment index
scan-IsReached = refl

default-IsReached : IsReached one_shard.shard_count scan_request default_scenario
unfolding placement requires_global_priority_check exact_route_shard_entries shard_safe_path ◌=ᵇ◌
default-IsReached = refl

match_uncached-match_example :
    (s : Scenario) × (q q' : Progress) × (match_uncached env
        (load_scenarios [] small_registry.scenarios one_shard)
        (some scan_request)
        start
      ≡ found s q)
    × (match env small_registry (some scan_request) start ≡ found s q')
match_uncached-match_example =
    match_uncached-match env [] one_shard small_registry scan_request start scan_scenario refl
      one_shard_options small-IsRegistry one_shard-IsCounted
      (inl scan_accepted, (inl default_accepted, tt))
      (inr scan-IsReached, (inr default-IsReached, tt)) (inl refl) scan_accepted

match_uncached-LeavesBranch_example :
    LeavesBranch
      (branch_of ascii default_scenario scan_request)
      (match_uncached env sharded_registry (some scan_request) start)
match_uncached-LeavesBranch_example =
    match_uncached-LeavesBranch env sharded_registry scan_request start [] default_scenario refl
      refl default_accepted

abbrev id_endpoint : CompiledEndpoint
id_endpoint = record {
  expression = some (record {
    find_submatch = λ s. some (s ∷ codes "7" ∷ []);
    subexp_names = [] ∷ codes "id" ∷ [];
  });
  raw = codes "/scan/{id}";
  captures = codes "id" ∷ [];
}

-- It asks for a header that the request does not have.
abbrev picky_scenario : Scenario
picky_scenario = record default_scenario {
  name = codes "picky";
  rule = record no_rule { headers = (codes "X-Scan", codes "yes") ∷ [] };
  compiled_paths = id_endpoint ∷ [];
}

id_captured :
    match_endpoint (id_endpoint ∷ []) (request_path scan_request.uri)
    ≡ some ((codes "id", codes "7") ∷ [])
unfolding match_endpoint first_endpoint captured insert
id_captured = refl

picky_headers : headers_match ascii picky_scenario.rule picky_scenario.compiled scan_request ≡ false
unfolding headers_match header_rules_match exact_rules_match get values lookup
picky_headers = refl

picky_paths : route_paths picky_scenario scan_request.method ≡ some (id_endpoint ∷ [])
unfolding method_matches
picky_paths = refl

-- A scenario that is rejected for its header rules leaves the captures of its endpoint in the request.
picky_leaves_captures :
    matches_scenario env picky_scenario scan_request start
    ≡ rejected
        (record start { captures = merge_captures ((codes "id", codes "7") ∷ []) start.captures })
unfolding matches_scenario poll check_paths
picky_leaves_captures = rw picky_paths (ground (arith, id_captured, picky_headers))
