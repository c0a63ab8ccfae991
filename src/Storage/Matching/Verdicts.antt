-- ===== src/Storage/Matching/Verdicts.antt =====
-- internal/storage/scenario.go, `matchesScenario`: the verdict on a scenario and a request, apart from
-- the progress that is made while it is found.
use icapmock.Prelude.{
  ◌≡◌, refl, ◌∙◌, sym, subst, Bool, true, false, Option, none, some, List, [], ◌∷◌, is_nil, ℕ,
  Bool-cases, inl, inr, if◌then◌else◌, Bytes,
}
use icapmock.Icap.Body.{Loaded, loaded, not_loaded, LazyBody}
use icapmock.Storage.HeaderRules.{Library, Regexp}
use icapmock.Storage.Endpoints.{CompiledEndpoint, match_endpoint, request_path}
use icapmock.Storage.Scenarios.{
  BodyPatternOptions, normalized, Scenario, Request, Progress, Environment,
}
use icapmock.Storage.Matching.{
  MatchError, Check, passed, rejected, failed, ◌>>=◌, check, poll, poll_from, route_paths,
  check_paths, take_captures, headers_match, http_method_matches, http_headers_match,
  http_url_matches, Side, request_side, response_side, body_pattern_message, body_at, put_body,
  limit_of, read_body_for_pattern, handle_body_pattern_read_error, as_check, pattern_check,
  body_pattern_matches, check_message, check_body, client_matches, select_branch, check_branches,
  chosen, matches_scenario,
}

pub data Verdict : Type 0 where
  accepted refused : Verdict
  broken : MatchError → Verdict

abbrev pub of_bool : Bool → Verdict
of_bool true = accepted
of_bool false = refused

infixr 35 ◌then_also◌
abbrev pub ◌then_also◌ : Verdict → Verdict → Verdict
accepted then_also v = v
refused then_also v = refused
broken e then_also v = broken e

abbrev is_some {ℓ} : {A : Type ℓ} → Option A → Bool
is_some none = false
is_some (some a) = true

abbrev pub paths_accept : Option (List CompiledEndpoint) → Bytes → Bool
paths_accept none uri = false
paths_accept (some []) uri = true
paths_accept (some (e ∷ es)) uri = is_some (match_endpoint (e ∷ es) (request_path uri))

abbrev pub body_limit : Environment → Option ℕ
body_limit env = limit_of (normalized env.library env.options).limit

abbrev of_error : Option MatchError → Verdict
of_error none = refused
of_error (some e) = broken e

abbrev pattern_verdict : Regexp → BodyPatternOptions → Loaded → Verdict
pattern_verdict pattern o (loaded content) = of_bool (pattern content)
pattern_verdict pattern o (not_loaded e) = of_error (handle_body_pattern_read_error e o)

abbrev loaded_at : Environment → Side → Progress → Loaded × LazyBody
loaded_at env side p = env.loader.load (body_limit env) (body_at side p)

abbrev message_verdict : Environment → Regexp → Option Side → Progress → Verdict
message_verdict env pattern none p = refused
message_verdict env pattern (some side) p =
    pattern_verdict pattern (normalized env.library env.options) (loaded_at env side p).0

abbrev pub body_verdict : Environment → Option Regexp → Request → Progress → Verdict
body_verdict env none req p = accepted
body_verdict env (some pattern) req p = message_verdict env pattern (body_pattern_message req) p

abbrev pub branches_accept : Library → Scenario → Request → Bool
branches_accept lib s req = if is_nil s.branches then true else is_some (select_branch lib s req)

-- The verdict by what the request, the scenario and the bodies are at the start.
unfoldable pub verdict : Environment → Scenario → Request → Progress → Verdict
verdict env s req p =
    of_bool (paths_accept (route_paths s req.method) req.uri)
    then_also of_bool (headers_match env.library s.rule s.compiled req)
    then_also of_bool (http_method_matches s.rule req)
    then_also of_bool (http_headers_match env.library s.rule s.compiled req)
    then_also of_bool (http_url_matches s.rule s.compiled req)
    then_also body_verdict env s.compiled_body req p
    then_also of_bool (client_matches env.library s req)
    then_also of_bool (branches_accept env.library s req)

-- The context has not been cancelled, and loading a body finds what it found at the start.
abbrev pub IsAlike : Environment → Progress → Progress → Type 0
IsAlike env p p' =
    (p'.alive ≡ none)
    × (loaded_at env request_side p' ≡ loaded_at env request_side p)
    × (loaded_at env response_side p' ≡ loaded_at env response_side p)

-- The check ends with the verdict, in a progress like the one at the start.
abbrev pub Ends : Environment → Progress → Verdict → Check → Type 0
Ends env p v (passed p') = (v ≡ accepted) × IsAlike env p p'
Ends env p v (rejected p') = (v ≡ refused) × IsAlike env p p'
Ends env p v (failed e p') = (v ≡ broken e) × IsAlike env p p'

module _ (env : Environment) (p : Progress) where
  Ends->>= :
      (v w : Verdict) (r : Check) (f : Progress → Check)
      → Ends env p v r
      → ((p' : Progress) → IsAlike env p p' → Ends env p w (f p'))
      → Ends env p (v then_also w) (r >>= f)
  Ends->>= v w (passed p') f h k = rw (h.0) (k p' h.1)
  Ends->>= v w (rejected p') f h k = rw (h.0) (refl, h.1)
  Ends->>= v w (failed e p') f h k = rw (h.0) (refl, h.1)

  Ends-check : (b : Bool) (p' : Progress) → IsAlike env p p' → Ends env p (of_bool b) (check b p')
  Ends-check true p' a = (refl, a)
  Ends-check false p' a = (refl, a)

  Ends-poll : (p' : Progress) → IsAlike env p p' → Ends env p accepted (poll p')
  unfolding poll
  Ends-poll p' a =
      subst (λ (o : Option ℕ). Ends env p accepted (poll_from o p')) (sym a.0) (refl, a)

  Ends-captures :
      (o : Option (List (Bytes × Bytes))) (p' : Progress)
      → IsAlike env p p'
      → Ends env p (of_bool (is_some o)) (take_captures o p')
  Ends-captures none p' a = (refl, a)
  Ends-captures (some caps) p' a = (refl, a)

  Ends-paths :
      (paths : Option (List CompiledEndpoint)) (req : Request) (p' : Progress)
      → IsAlike env p p'
      → Ends env p (of_bool (paths_accept paths req.uri)) (check_paths paths req p')
  unfolding check_paths
  Ends-paths none req p' a = (refl, a)
  Ends-paths (some []) req p' a = (refl, a)
  Ends-paths (some (e ∷ es)) req p' a =
      Ends-captures (match_endpoint (e ∷ es) (request_path req.uri)) p' a

  put_body-IsAlike :
      (side : Side) (p' : Progress)
      → IsAlike env p p'
      → IsAlike env p (put_body side (loaded_at env side p').1 p')
  put_body-IsAlike request_side p' (alive, left, right) =
      (alive, env.loader.load_again (body_limit env) p'.request_body ∙ left, right)
  put_body-IsAlike response_side p' (alive, left, right) =
      (alive, left, env.loader.load_again (body_limit env) p'.response_body ∙ right)

  Ends-error :
      (e : Option MatchError) (p' : Progress)
      → IsAlike env p p'
      → Ends env p (of_error e) (as_check e p')
  Ends-error none p' a = (refl, a)
  Ends-error (some e) p' a = (refl, a)

  Ends-pattern :
      (pattern : Regexp) (o : BodyPatternOptions) (result : Loaded) (p' : Progress)
      → IsAlike env p p'
      → Ends env p (pattern_verdict pattern o result) (pattern_check pattern o result p')
  unfolding pattern_check
  Ends-pattern pattern o (loaded content) p' a = Ends-check (pattern content) p' a
  Ends-pattern pattern o (not_loaded e) p' a = Ends-error (handle_body_pattern_read_error e o) p' a

  loaded_at-eq :
      (side : Side) (p' : Progress)
      → IsAlike env p p'
      → loaded_at env side p' ≡ loaded_at env side p
  loaded_at-eq request_side p' a = a.1
  loaded_at-eq response_side p' a = a.2

  Ends-message :
      (pattern : Regexp) (side : Option Side) (p' : Progress)
      → IsAlike env p p'
      → Ends env p (message_verdict env pattern side p) (check_message env pattern side p')
  unfolding check_message body_pattern_matches read_body_for_pattern
  Ends-message pattern none p' a = (refl, a)
  Ends-message pattern (some side) p' a =
      let o = normalized env.library env.options in
      let p'' = put_body side (loaded_at env side p').1 p' in
      let v = pattern_verdict pattern o (loaded_at env side p).0 in
      Ends->>= accepted v (poll p'') (pattern_check pattern o (loaded_at env side p').0)
        (Ends-poll p'' (put_body-IsAlike side p' a))
        (λ q b.
          rw (← loaded_at-eq side p' a) (Ends-pattern pattern o (loaded_at env side p').0 q b))

  Ends-body :
      (pattern : Option Regexp) (req : Request) (p' : Progress)
      → IsAlike env p p'
      → Ends env p (body_verdict env pattern req p) (check_body env pattern req p')
  unfolding check_body
  Ends-body none req p' a = (refl, a)
  Ends-body (some pattern) req p' a =
      let side = body_pattern_message req in
      Ends->>= accepted (message_verdict env pattern side p) (poll p')
        (check_message env pattern side) (Ends-poll p' a) (λ q b. Ends-message pattern side q b)

  Ends-chosen :
      (o : Option ℕ) (p' : Progress)
      → IsAlike env p p'
      → Ends env p (of_bool (is_some o)) (chosen o p')
  Ends-chosen none p' a = (refl, a)
  Ends-chosen (some i) p' a = (refl, a)

  Ends-branches :
      (s : Scenario) (req : Request) (p' : Progress)
      → IsAlike env p p'
      → Ends env p
          (of_bool (branches_accept env.library s req))
          (check_branches env.library s req p')
  unfolding check_branches
  Ends-branches s req p' a = elim (Bool-cases (is_nil s.branches)) [
    | inl e ↦ rw e (refl, a)
    | inr e ↦
        rw e (Ends-chosen (select_branch env.library s req) (record p' { matched_branch = none }) a)
  ]

  -- Whatever progress like the first one it starts in, the stage ends with the verdict.
  record Decides (v : Verdict) (f : Progress → Check) : Type 0 where
    ends : (p' : Progress) → IsAlike env p p' → Ends env p v (f p')

  Decides->>= :
      {v w : Verdict} {f g : Progress → Check}
      → Decides v f
      → Decides w g
      → Decides (v then_also w) (λ x. f x >>= g)
  Decides->>= {v} {w} {f} {g} d e = record {
    ends = λ p' a. Ends->>= v w (f p') g (d.ends p' a) e.ends;
  }

  Decides-check : (b : Bool) → Decides (of_bool b) (check b)
  Decides-check b = record { ends = Ends-check b }

  Decides-poll : Decides accepted poll
  Decides-poll = record { ends = Ends-poll }

  pub matches_scenario-Ends :
      (s : Scenario) (req : Request) (p' : Progress)
      → IsAlike env p p'
      → Ends env p (verdict env s req p) (matches_scenario env s req p')
  unfolding matches_scenario verdict
  matches_scenario-Ends s req =
      let branches : Decides _ (check_branches env.library s req) = record {
        ends = Ends-branches s req;
      } in
      let client = Decides->>= (Decides-check (client_matches env.library s req)) branches in
      let body : Decides _ (check_body env s.compiled_body req) = record {
        ends = Ends-body s.compiled_body req;
      } in
      let after = Decides->>= body (Decides->>= Decides-poll client) in
      let url = Decides->>= (Decides-check (http_url_matches s.rule s.compiled req)) after in
      let http =
        Decides->>= (Decides-check (http_headers_match env.library s.rule s.compiled req)) url in
      let method = Decides->>= (Decides-check (http_method_matches s.rule req)) http in
      let headers =
        Decides->>= (Decides-check (headers_match env.library s.rule s.compiled req)) method in
      let paths : Decides _ (check_paths (route_paths s req.method) req) = record {
        ends = Ends-paths (route_paths s req.method) req;
      } in
      (Decides->>= Decides-poll (Decides->>= paths headers)).ends
