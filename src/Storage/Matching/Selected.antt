-- ===== src/Storage/Matching/Selected.antt =====
-- internal/storage/scenario.go, `matchesScenario`: what a scenario leaves in the request.
use icapmock.Prelude.{◌≡◌, refl, Option, none, some, is_nil, inl, inr, Bool-cases, if◌then◌else◌, ℕ}
use icapmock.Storage.HeaderRules.{Library}
use icapmock.Storage.Scenarios.{Scenario, Request, Progress, Environment}
use icapmock.Storage.Matching.{
  Check, passed, rejected, failed, ◌>>=◌, check, chosen, poll, route_paths, check_paths,
  headers_match, http_method_matches, http_headers_match, http_url_matches, check_body,
  client_matches, select_branch, check_branches, matches_scenario,
}

-- The check ends with the branch that is selected, if it passes.
abbrev pub Selects : Option ℕ → Check → Type 0
Selects b (passed p) = p.matched_branch ≡ b
Selects b (rejected p) = Unit
Selects b (failed e p) = Unit

Selects->>= :
    (b : Option ℕ) (c : Check) (f : Progress → Check)
    → ((p : Progress) → Selects b (f p))
    → Selects b (c >>= f)
Selects->>= b (passed p) f h = h p
Selects->>= b (rejected p) f h = tt
Selects->>= b (failed e p) f h = tt

abbrev pub branch_of : Library → Scenario → Request → Option ℕ
branch_of lib s req = if is_nil s.branches then none else select_branch lib s req

Selects-chosen : (o : Option ℕ) (p : Progress) → Selects o (chosen o p)
Selects-chosen none p = tt
Selects-chosen (some i) p = refl

check_branches-Selects :
    (lib : Library) (s : Scenario) (req : Request) (p : Progress)
    → Selects (branch_of lib s req) (check_branches lib s req p)
unfolding check_branches
check_branches-Selects lib s req p = elim (Bool-cases (is_nil s.branches)) [
  | inl e ↦ rw e refl
  | inr e ↦ rw e (Selects-chosen (select_branch lib s req) (record p { matched_branch = none }))
]

record Leads (b : Option ℕ) (f : Progress → Check) : Type 0 where
  ends : (p : Progress) → Selects b (f p)

Leads-behind :
    {b : Option ℕ} {g : Progress → Check} (f : Progress → Check)
    → Leads b g
    → Leads b (λ p. f p >>= g)
Leads-behind {b} {g} f l = record { ends = λ p. Selects->>= b (f p) g l.ends }

-- Where a scenario matches, the branch that the request carries is the one that is selected in it.
pub matches_scenario-Selects :
    (env : Environment) (s : Scenario) (req : Request) (p : Progress)
    → Selects (branch_of env.library s req) (matches_scenario env s req p)
unfolding matches_scenario
matches_scenario-Selects env s req =
    let lib = env.library in
    let m = s.rule in
    let c = s.compiled in
    let last : Leads (branch_of lib s req) (check_branches lib s req) = record {
      ends = check_branches-Selects lib s req;
    } in
    let client = Leads-behind (check (client_matches lib s req)) last in
    let body = Leads-behind (check_body env s.compiled_body req) (Leads-behind poll client) in
    let url = Leads-behind (check (http_url_matches m c req)) body in
    let http = Leads-behind (check (http_headers_match lib m c req)) url in
    let method = Leads-behind (check (http_method_matches m req)) http in
    let headers = Leads-behind (check (headers_match lib m c req)) method in
    let paths = Leads-behind (check_paths (route_paths s req.method) req) headers in
    (Leads-behind poll paths).ends
