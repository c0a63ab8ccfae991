-- ===== src/Storage/Registry/Chosen.antt =====
-- internal/storage/scenario.go, `Match`: the branch that the request carries afterwards.
use icapmock.Prelude.{◌≡◌, Option, none, some, List, [], ◌∷◌, ℕ, zero, suc}
use icapmock.Storage.HeaderRules.{Library}
use icapmock.Storage.Scenarios.{Scenario, Request, Progress, Environment}
use icapmock.Storage.Matching.{
  Check, passed, rejected, failed, ◌>>=◌, poll, poll_from, matches_scenario,
}
use icapmock.Storage.Matching.Selected.{Selects, branch_of, matches_scenario-Selects}
use icapmock.Storage.Registry.{
  Registry, MatchResult, found, not_found, continue_with, match_from, match_polled, match_request,
  match,
}

abbrev pub CarriesBranch : Library → Request → MatchResult → Type 0
CarriesBranch lib req (found s p) = p.matched_branch ≡ branch_of lib s req
CarriesBranch lib req (not_found e p) = Unit

module _ (env : Environment) (req : Request) where
  continue_with-CarriesBranch :
      (s : Scenario) (rest : Progress → MatchResult) (c : Check)
      → Selects (branch_of env.library s req) c
      → ((p : Progress) → CarriesBranch env.library req (rest p))
      → CarriesBranch env.library req (continue_with s rest c)
  continue_with-CarriesBranch s rest (passed p) h ih = h
  continue_with-CarriesBranch s rest (rejected p) h ih = ih p
  continue_with-CarriesBranch s rest (failed e p) h ih = tt

  polled-Selects :
      (s : Scenario) (c : Check)
      → Selects (branch_of env.library s req) (c >>= matches_scenario env s req)
  polled-Selects s (passed p) = matches_scenario-Selects env s req p
  polled-Selects s (rejected p) = tt
  polled-Selects s (failed e p) = tt

  pub match_from-CarriesBranch :
      (l : List Scenario) (n : ℕ) (p : Progress)
      → CarriesBranch env.library req (match_from env l n req p)
  unfolding match_from
  match_from-CarriesBranch [] n p = tt
  match_from-CarriesBranch (s ∷ l) n p =
      continue_with-CarriesBranch s (match_from env l (suc n) req)
        (poll p >>= matches_scenario env s req) (polled-Selects s (poll p))
        (match_from-CarriesBranch l (suc n))

  match_polled-CarriesBranch :
      (l : List Scenario) (o : Option ℕ) (p : Progress)
      → CarriesBranch env.library req (match_polled env l req (poll_from o p))
  match_polled-CarriesBranch l none p = match_from-CarriesBranch l 0 p
  match_polled-CarriesBranch l (some zero) p = tt
  match_polled-CarriesBranch l (some (suc n)) p =
      match_from-CarriesBranch l 0 (record p { alive = some n })

-- Whatever scenarios are tried first, the request carries the branch that is selected in the scenario
-- that `Match` finds, and none if that has no branches.
pub match-CarriesBranch :
    (env : Environment) (r : Registry) (req : Request) (p : Progress)
    → CarriesBranch env.library req (match env r (some req) p)
unfolding match match_request poll
match-CarriesBranch env r req p =
    match_polled-CarriesBranch (record env { options = r.body_pattern }) req r.scenarios p.alive p
