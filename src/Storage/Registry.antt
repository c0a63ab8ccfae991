-- ===== src/Storage/Registry.antt =====
-- internal/storage/scenario.go: `scenarioRegistry`. A scenario is added once it has been validated and
-- compiled. Its lock makes each operation one step.
pub mod First
pub mod Best
pub mod Chosen
pub mod TakenOut
pub mod Updates
pub mod Removal
use icapmock.Prelude.{
  ℕ, zero, suc, ◌+◌, Bool, true, false, Option, none, some, List, [], ◌∷◌, ◌++◌, if◌then◌else◌,
  Bytes, ◌=ᵇ◌,
}
use icapmock.Storage.HeaderRules.{Library}
use icapmock.Storage.Scenarios.{
  BodyPatternOptions, default_body_pattern_options, normalized, Scenario, default_scenario, Request,
  Progress, Environment,
}
use icapmock.Storage.Matching.{
  MatchError, no_match, nil_request, Check, passed, rejected, failed, ◌>>=◌, poll, matches_scenario,
}
use icapmock.Storage.Ranking.{next_scenario_order, sort_scenarios_by_priority}

pub record Registry : Type 0 where
  pub body_pattern : BodyPatternOptions
  pub file_path : Bytes
  pub scenarios : List Scenario

unfoldable pub new_registry_with : Library → BodyPatternOptions → Registry
new_registry_with lib options = record {
  body_pattern = normalized lib options;
  file_path = [];
  scenarios = default_scenario ∷ [];
}

unfoldable pub new_registry : Library → Registry
new_registry lib = new_registry_with lib default_body_pattern_options

-- `(s, nil)` or an error, with the progress made.
pub data MatchResult : Type 0 where
  found : Scenario → Progress → MatchResult
  not_found : MatchError → Progress → MatchResult

-- What the loop of `Match` does with the check of a scenario.
abbrev pub continue_with : Scenario → (Progress → MatchResult) → Check → MatchResult
continue_with s rest (passed p) = found s p
continue_with s rest (rejected p) = rest p
continue_with s rest (failed e p) = not_found e p

-- The loop of `Match`; `checked` scenarios have been tried.
unfoldable pub match_from : Environment → List Scenario → ℕ → Request → Progress → MatchResult
match_from env [] checked req p = not_found (no_match checked req.method req.uri) p
match_from env (s ∷ rest) checked req p =
    continue_with s (match_from env rest (suc checked) req) (poll p >>= matches_scenario env s req)

abbrev pub match_polled : Environment → List Scenario → Request → Check → MatchResult
match_polled env scenarios req (passed p) = match_from env scenarios 0 req p
match_polled env scenarios req (rejected p) = match_from env scenarios 0 req p
match_polled env scenarios req (failed e p) = not_found e p

-- `none` is a nil request.
unfoldable pub match_request : Environment → List Scenario → Option Request → Progress → MatchResult
match_request env scenarios none p = not_found nil_request p
match_request env scenarios (some req) p = match_polled env scenarios req (poll p)

-- `Match`: the registry's body_pattern options are the environment's.
unfoldable pub match : Environment → Registry → Option Request → Progress → MatchResult
match env r req p = match_request (record env { options = r.body_pattern }) r.scenarios req p

-- The first scenario of a name, and the others.
unfoldable pub take_out : Bytes → List Scenario → Option (Scenario × List Scenario)
take_out name [] = none
take_out name (s ∷ l) =
    if s.name =ᵇ name
    then some (s, l)
    else elim (take_out name l) [ none ↦ none | some (t, rest) ↦ some (t, s ∷ rest) ]

abbrev pub with_scenarios : Registry → List Scenario → Registry
with_scenarios r l = record r { scenarios = sort_scenarios_by_priority l }

unfoldable pub add : Scenario → Registry → Registry
add s r = elim (take_out s.name r.scenarios) [
  | none ↦
      with_scenarios r (r.scenarios ++ (record s { order = next_scenario_order r.scenarios }) ∷ [])
  | some (old, rest) ↦ with_scenarios r (rest ++ (record s { order = old.order }) ∷ [])
]

-- `none` is ErrNoMatch.
unfoldable pub remove : Bytes → Registry → Option Registry
remove name r = elim (take_out name r.scenarios) [
  | none ↦ none
  | some (old, rest) ↦ some (record r { scenarios = rest })
]

-- A copy of the list.
unfoldable pub scenario_list : Registry → List Scenario
scenario_list r = r.scenarios
