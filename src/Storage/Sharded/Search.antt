-- ===== src/Storage/Sharded/Search.antt =====
-- internal/storage/sharded_scenario.go: `Match` without its cache.
pub mod Choice
pub mod Best
pub mod Found
pub mod Agreement
pub mod Branches
use icapmock.Prelude.{
  ℕ, zero, suc, ◌-◌, Bool, true, false, ◌&&◌, Option, none, some, List, [], ◌∷◌, ◌++◌, ltb, ◌==◌,
  if◌then◌else◌, Bytes, codes, take, drop, is_nil, length,
}
use icapmock.Prelude.Maps.{lookup}
use icapmock.Storage.Endpoints.{shard_lookup_path}
use icapmock.Storage.Scenarios.{Scenario, default_scenario, Request, Progress, Environment}
use icapmock.Storage.Matching.{
  MatchError, nil_request, Check, passed, rejected, failed, ◌>>=◌, poll, matches_scenario,
}
use icapmock.Storage.Ranking.{scenario_outranks, outranks}
use icapmock.Storage.Registry.{MatchResult, found, not_found}
use icapmock.Storage.ShardKeys.{index_key, shard_for_request}
use icapmock.Storage.Sharded.{
  Shard, ShardedRegistry, candidates_at, unique_scenario_pointers, shard_scenarios,
}

abbrev method_or_star : Bytes → Bytes
method_or_star [] = codes "*"
method_or_star (c ∷ s) = c ∷ s

abbrev slash_at : ℕ → Bytes → Bool
slash_at i path = elim (drop i path) [ [] ↦ false | c ∷ s ↦ c == b'/' ]

-- The rounds `i = n - 1, ..., 1` of the last loop of `buildSearchKeys`.
unfoldable pub prefix_keys : ℕ → Bytes → Bytes → List Bytes
prefix_keys zero method path = []
prefix_keys (suc i) method path =
    let rest = prefix_keys i method path in
    if ltb 0 i && slash_at i path then index_key method (take i path) ∷ rest else rest

unfoldable pub build_search_keys : Request → List Bytes
build_search_keys req =
    let method = method_or_star req.method in
    let path = shard_lookup_path req.uri in
    index_key method path
    ∷ index_key method (codes "*")
    ∷ index_key (codes "*") path
    ∷ index_key (codes "*") (codes "*")
    ∷ prefix_keys (length path) method path

unfoldable pub indexed : List Bytes → List (Bytes × List Scenario) → List Scenario
indexed [] index = []
indexed (k ∷ ks) index = candidates_at (lookup k index) ++ indexed ks index

abbrev no_shard : Shard
no_shard = record { index = []; scenarios = [] }

unfoldable pub shard_at : ℕ → List Shard → Shard
shard_at i [] = no_shard
shard_at zero (s ∷ shards) = s
shard_at (suc i) (s ∷ shards) = shard_at i shards

-- The best match and whether there is one, or an error.
pub data Scan : Type 0 where
  scanned : Option Scenario → Progress → Scan
  broke_off : MatchError → Progress → Scan

-- `if matched && (bestMatch == nil || scenarioOutranks(s, bestMatch))`.
unfoldable pub better : Option Scenario → Scenario → Option Scenario
better best s = if scenario_outranks (some s) best then some s else best

abbrev pub scan_with :
    Scenario → Option Scenario → (Option Scenario → Progress → Scan) → Check → Scan
scan_with s best rest (passed p) = rest (better best s) p
scan_with s best rest (rejected p) = rest best p
scan_with s best rest (failed e p) = broke_off e p

-- The loop over candidates of `matchInShard`, `matchGlobalPriorityCandidates` and `fallbackMatch`.
unfoldable pub scan : Environment → Request → List Scenario → Option Scenario → Progress → Scan
scan env req [] best p = scanned best p
scan env req (s ∷ l) best p =
    scan_with s best (scan env req l) (poll p >>= matches_scenario env s req)

infixl 5 ◌then_scan◌
abbrev pub ◌then_scan◌ : Scan → (Option Scenario → Progress → Scan) → Scan
scanned best p then_scan f = f best p
broke_off e p then_scan f = broke_off e p

unfoldable pub shard_candidates : ShardedRegistry → Request → List Scenario
shard_candidates r req = unique_scenario_pointers (
    indexed (build_search_keys req) (shard_at (shard_for_request r.shard_count req) r.shards).index)

unfoldable pub match_in_shard : Environment → ShardedRegistry → Request → Progress → Scan
match_in_shard env r req p = scan env req (shard_candidates r req) none p

unfoldable pub fallback_match : Environment → ShardedRegistry → Request → Progress → Scan
fallback_match env r req p =
    scan env req (unique_scenario_pointers (shard_scenarios r.shards)) none p

unfoldable pub match_global_priority_candidates :
    Environment → ShardedRegistry → Request → Progress → Scan
match_global_priority_candidates env r req p = scan env req r.global_scenarios none p

abbrev pub or_fallback : Environment → ShardedRegistry → Request → Option Scenario → Progress → Scan
or_fallback env r req (some s) p = scanned (some s) p
or_fallback env r req none p = fallback_match env r req p

unfoldable pub match_sharded_and_fallback :
    Environment → ShardedRegistry → Request → Progress → Scan
match_sharded_and_fallback env r req p = match_in_shard env r req p then_scan or_fallback env r req

-- The current best, or the global one where that outranks it.
unfoldable pub prefer_global : Option Scenario → Option Scenario → Option Scenario
prefer_global current none = current
prefer_global none (some global) = some global
prefer_global (some current) (some global) =
    if outranks global current then some global else some current

unfoldable pub apply_global_priority_candidate :
    Environment → ShardedRegistry → Request → Option Scenario → Progress → Scan
apply_global_priority_candidate env r req current p =
    match_global_priority_candidates env r req p
    then_scan (λ global p'. scanned (prefer_global current global) p')

abbrev polled_found : Scenario → Check → MatchResult
polled_found s (passed p) = found s p
polled_found s (rejected p) = found s p
polled_found s (failed e p) = not_found e p

abbrev pub finish : Scan → MatchResult
finish (scanned (some s) p) = polled_found s (poll p)
finish (scanned none p) = found default_scenario p
finish (broke_off e p) = not_found e p

abbrev pub search : Environment → ShardedRegistry → Request → Progress → Scan
search env r req p =
    match_sharded_and_fallback env r req p then_scan apply_global_priority_candidate env r req

abbrev searched : Environment → ShardedRegistry → Request → Check → MatchResult
searched env r req (passed p) = finish (search env r req p)
searched env r req (rejected p) = finish (search env r req p)
searched env r req (failed e p) = not_found e p

-- `Match` with the cache off; `none` is a nil request.
unfoldable pub match_uncached :
    Environment → ShardedRegistry → Option Request → Progress → MatchResult
match_uncached env r none p = not_found nil_request p
match_uncached env r (some req) p =
    searched (record env { options = r.body_pattern }) r req (poll p)
