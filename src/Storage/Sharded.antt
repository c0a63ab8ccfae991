-- ===== src/Storage/Sharded.antt =====
-- internal/storage/sharded_scenario.go: the registry that spreads the scenarios over shards. Its match
-- cache and its metrics are apart from the search that is modelled here, and a mutation is one step.
-- Pointers to scenarios are told apart by `order`, which differs for those that are registered.
pub mod Search
pub mod CacheKey
pub mod Filing
use Prim.Native.Nat.{bit_xor}
use icapmock.Prelude.{
  ℕ, zero, suc, ◌+◌, ◌*◌, ◌%◌, ◌^◌, Bool, true, false, not, ◌&&◌, ◌||◌, Option, none, some, List,
  [], ◌∷◌, ◌++◌, map, ltb, ◌==◌, if◌then◌else◌, Bytes, codes, ◌=ᵇ◌, has_prefix, index_byte, is_nil,
  length,
}
use icapmock.Prelude.Maps.{lookup, insert}
use icapmock.Storage.HeaderRules.{Library, member}
use icapmock.Storage.Endpoints.{shard_lookup_path}
use icapmock.Storage.Scenarios.{
  BodyPatternOptions, normalized, Scenario, default_scenario, default_scenario_name, Request,
  method_reqmod, method_respmod,
}
use icapmock.Storage.Ranking.{scenario_order_for_add, sort_scenarios_by_priority}
use icapmock.Storage.ShardKeys.{
  hash_string, requires_global_priority_check, shard_for_scenario, build_index_keys,
  exact_route_shard_entries,
}

pub record Shard : Type 0 where
  pub index : List (Bytes × List Scenario)
  pub scenarios : List Scenario

pub record ShardedRegistry : Type 0 where
  pub body_pattern : BodyPatternOptions
  pub file_path : Bytes
  pub global_scenarios : List Scenario
  pub shards : List Shard
  pub shard_count : ℕ

abbrev pub default_shard_count : ℕ
default_shard_count = 16

abbrev pub max_shard_count : ℕ
max_shard_count = 256

-- A count below 1 is 0 here.
unfoldable pub bounded_shard_count : ℕ → ℕ
bounded_shard_count n =
    if n == 0 then default_shard_count else if ltb max_shard_count n then max_shard_count else n

abbrev copies : ℕ → Shard → List Shard
copies zero s = []
copies (suc n) s = s ∷ copies n s

unfoldable pub new_sharded_registry : Library → BodyPatternOptions → ℕ → ShardedRegistry
new_sharded_registry lib options count = record {
  body_pattern = normalized lib options;
  file_path = [];
  global_scenarios = [];
  shards =
      copies (bounded_shard_count count) (record { index = []; scenarios = default_scenario ∷ [] });
  shard_count = bounded_shard_count count;
}

abbrev pub candidates_at : Option (List Scenario) → List Scenario
candidates_at none = []
candidates_at (some l) = l

unfoldable pub add_keys :
    List Bytes → Scenario → List (Bytes × List Scenario) → List (Bytes × List Scenario)
add_keys [] s index = index
add_keys (k ∷ ks) s index =
    add_keys ks s (insert k (candidates_at (lookup k index) ++ s ∷ []) index)

unfoldable pub add_to_shard : Scenario → List Bytes → Shard → Shard
add_to_shard s keys shard = record {
  index = add_keys keys s shard.index;
  scenarios = shard.scenarios ++ s ∷ [];
}

unfoldable pub at_shard : ℕ → (Shard → Shard) → List Shard → List Shard
at_shard i f [] = []
at_shard zero f (s ∷ shards) = f s ∷ shards
at_shard (suc i) f (s ∷ shards) = s ∷ at_shard i f shards

unfoldable pub add_entries : Scenario → List (ℕ × List Bytes) → List Shard → List Shard
add_entries s [] shards = shards
add_entries s ((i, keys) ∷ entries) shards =
    add_entries s entries (at_shard i (add_to_shard s keys) shards)

unfoldable pub add_global_scenario : Scenario → ShardedRegistry → ShardedRegistry
add_global_scenario s r = record r { global_scenarios = r.global_scenarios ++ s ∷ [] }

unfoldable pub index_scenario : Scenario → ShardedRegistry → ShardedRegistry
index_scenario s r = elim (exact_route_shard_entries r.shard_count s) [
  | some entries ↦ record r { shards = add_entries s entries r.shards }
  | none ↦ if requires_global_priority_check s then add_global_scenario s r else record r {
    shards =
        at_shard (shard_for_scenario r.shard_count s) (add_to_shard s (build_index_keys s))
          r.shards;
  }
]

unfoldable pub index_all : List Scenario → ShardedRegistry → ShardedRegistry
index_all [] r = r
index_all (s ∷ l) r = index_all l (index_scenario s r)

-- `Load`, of the scenarios that the base registry has read.
unfoldable pub load_scenarios : Bytes → List Scenario → ShardedRegistry → ShardedRegistry
load_scenarios path l r =
    let empty : Shard = record { index = []; scenarios = [] } in
    let cleared = record r { shards = map (λ s. empty) r.shards; global_scenarios = [] } in
    record (index_all l cleared) { file_path = path }

abbrev pub seen_order : ℕ → List ℕ → Bool
seen_order n [] = false
seen_order n (m ∷ ms) = m == n || seen_order n ms

-- `defaults`: a scenario of the default's name has been seen.
unfoldable pub unique_from : Bool → List ℕ → List Scenario → List Scenario
unique_from defaults seen [] = []
unique_from defaults seen (s ∷ l) =
    let is_default = s.name =ᵇ default_scenario_name in
    let old = is_default && defaults || seen_order s.order seen in
    let rest = unique_from (defaults || is_default) (if old then seen else s.order ∷ seen) l in
    if old then rest else s ∷ rest

unfoldable pub unique_scenario_pointers : List Scenario → List Scenario
unique_scenario_pointers l = unique_from false [] l

unfoldable pub shard_scenarios : List Shard → List Scenario
shard_scenarios [] = []
shard_scenarios (s ∷ shards) = s.scenarios ++ shard_scenarios shards

unfoldable pub sharded_list : ShardedRegistry → List Scenario
sharded_list r =
    sort_scenarios_by_priority
      (unique_scenario_pointers (shard_scenarios r.shards ++ r.global_scenarios))

unfoldable pub without_name : Bytes → List Scenario → List Scenario
without_name name [] = []
without_name name (s ∷ l) =
    let rest = without_name name l in if s.name =ᵇ name then rest else s ∷ rest

-- A key that loses its last scenario is deleted.
unfoldable pub index_without : Bytes → List (Bytes × List Scenario) → List (Bytes × List Scenario)
index_without name [] = []
index_without name ((key, l) ∷ index) =
    let rest = index_without name index in
    if is_nil (without_name name l) && not (is_nil l)
    then rest
    else (key, without_name name l) ∷ rest

unfoldable pub remove_from_shard : Bytes → Shard → Shard
remove_from_shard name s = record {
  index = index_without name s.index;
  scenarios = without_name name s.scenarios;
}

-- Only the first one.
unfoldable pub remove_global_scenario : Bytes → List Scenario → List Scenario
remove_global_scenario name [] = []
remove_global_scenario name (s ∷ l) =
    let rest = remove_global_scenario name l in if s.name =ᵇ name then l else s ∷ rest

unfoldable pub remove_scenario : Bytes → ShardedRegistry → ShardedRegistry
remove_scenario name r = record r {
  shards = map (remove_from_shard name) r.shards;
  global_scenarios = remove_global_scenario name r.global_scenarios;
}

-- `Add` of a scenario that has been validated and compiled.
unfoldable pub add_scenario : Scenario → ShardedRegistry → ShardedRegistry
add_scenario s r =
    index_scenario (record s { order = scenario_order_for_add (sharded_list r) s.name })
      (remove_scenario s.name r)
