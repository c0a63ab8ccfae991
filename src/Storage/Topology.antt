-- ===== src/Storage/Topology.antt =====
-- internal/storage/scenario.go: the set of endpoints that scenarios declare, and reloading, which may not
-- change it where exact routes are in use.
pub mod Sets
pub mod Changes
use icapmock.Prelude.{
  Bool, true, false, not, ◌&&◌, ◌||◌, Option, none, some, List, [], ◌∷◌, ◌++◌, if◌then◌else◌, Bytes,
  ◌=ᵇ◌, is_nil,
}
use icapmock.Icap.Header.{sort_strings}
use icapmock.Storage.Scenarios.{MatchRule, Scenario}
use icapmock.Storage.ShardKeys.{unseen}
use icapmock.Storage.Registry.{Registry, scenario_list}

unfoldable pub has_exact_routes : List Scenario → Bool
has_exact_routes [] = false
has_exact_routes (s ∷ l) = not (is_nil s.rule.routes) || has_exact_routes l

abbrev if_named : Bytes → List Bytes
if_named [] = []
if_named (c ∷ s) = (c ∷ s) ∷ []

abbrev named : List Bytes → List Bytes
named [] = []
named (p ∷ ps) = if_named p ++ named ps

-- The paths that are put into the set, in the order of the loops.
unfoldable pub declared_paths : List Scenario → List Bytes
declared_paths [] = []
declared_paths (s ∷ l) = named s.rule.paths ++ (if_named s.rule.path ++ declared_paths l)

unfoldable pub scenario_endpoint_topology : List Scenario → List Bytes
scenario_endpoint_topology l = sort_strings (unseen [] (declared_paths l))

unfoldable pub string_slices_equal : List Bytes → List Bytes → Bool
string_slices_equal [] [] = true
string_slices_equal [] (t ∷ ts) = false
string_slices_equal (s ∷ ss) [] = false
string_slices_equal (s ∷ ss) (t ∷ ts) = s =ᵇ t && string_slices_equal ss ts

-- `none` is nil; ErrEndpointTopologyChange comes with the two sets.
unfoldable pub validate_exact_route_topology :
    List Scenario → List Scenario → Option (List Bytes × List Bytes)
validate_exact_route_topology current next =
    if not (has_exact_routes current) && not (has_exact_routes next)
    then none
    else let old = scenario_endpoint_topology current in
      let new = scenario_endpoint_topology next in
      if string_slices_equal old new then none else some (old, new)

-- What reading a scenario file gives; `E` is the type of its errors.
pub data LoadResult (E : Type 0) : Type 0 where
  read : List Scenario → LoadResult E
  unreadable : E → LoadResult E

pub data ReloadError (E : Type 0) : Type 0 where
  load_error : E → ReloadError E
  topology_change : List Bytes × List Bytes → ReloadError E

module _ {E : Type 0} where
  abbrev pub after_validation :
      Registry
      → List Scenario
      → Option (List Bytes × List Bytes)
      → Registry × Option (ReloadError E)
  after_validation r next none = (record r { scenarios = next }, none)
  after_validation r next (some change) = (r, some (topology_change change))

  abbrev pub after_load : Registry → LoadResult E → Registry × Option (ReloadError E)
  after_load r (unreadable e) = (r, some (load_error e))
  after_load r (read next) =
      after_validation r next (validate_exact_route_topology (scenario_list r) next)

  -- `Reload`: the registry and the error, if any. `load` reads and compiles the file of a path.
  unfoldable pub reload : (Bytes → LoadResult E) → Registry → Registry × Option (ReloadError E)
  reload load r = if is_nil r.file_path then (r, none) else after_load r (load r.file_path)
