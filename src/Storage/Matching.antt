-- ===== src/Storage/Matching.antt =====
-- internal/storage/scenario.go: `matchesScenario` and what it calls. Closing a body's reader when the
-- context is cancelled while it is read is left out: the context is polled after the read.
pub mod Verdicts
pub mod Selected
use icapmock.Prelude.{
  ℕ, zero, suc, Bool, true, false, not, ◌&&◌, ◌||◌, Option, none, some, List, [], ◌∷◌,
  if◌then◌else◌, Bytes, codes, ◌=ᵇ◌, is_nil,
}
use icapmock.Prelude.Int64.{ℤ, pos, negsuc}
use icapmock.Prelude.Maps.{lookup}
use icapmock.Icap.Header.{Header, get}
use icapmock.Icap.Chunked.Source.{Error}
use icapmock.Icap.Body.{
  BodyError, body_too_large, read_failed, LazyBody, Loaded, loaded, not_loaded,
}
use icapmock.Storage.HeaderRules.{Library, Regexp, header_rules_match, member}
use icapmock.Storage.Endpoints.{CompiledEndpoint, match_endpoint, merge_captures, request_path}
use icapmock.Storage.Scenarios.{
  BodyPatternOptions, normalized, MatchRule, CompiledRule, Branch, Scenario, HttpHead, Request,
  Progress, Environment, method_reqmod, method_respmod, action_no_match,
}

pub data MatchError : Type 0 where
  cancelled : MatchError
  nil_request : MatchError
  no_match : ℕ → Bytes → Bytes → MatchError
  body_pattern_limit_exceeded : ℤ → MatchError
  reading_body : Error → MatchError

-- `(true, nil)`, `(false, nil)` and an error, with the progress made.
pub data Check : Type 0 where
  passed : Progress → Check
  rejected : Progress → Check
  failed : MatchError → Progress → Check

infixl 5 ◌>>=◌
abbrev pub ◌>>=◌ : Check → (Progress → Check) → Check
passed p >>= f = f p
rejected p >>= f = rejected p
failed e p >>= f = failed e p

abbrev pub check : Bool → Progress → Check
check true p = passed p
check false p = rejected p

-- `ctx.Err()`.
abbrev pub poll_from : Option ℕ → Progress → Check
poll_from none p = passed p
poll_from (some zero) p = failed cancelled p
poll_from (some (suc n)) p = passed (record p { alive = some n })

unfoldable pub poll : Progress → Check
poll p = poll_from p.alive p

unfoldable pub method_matches : List Bytes → Bytes → Bool
method_matches methods method = is_nil methods || member method methods

abbrev pub route_paths : Scenario → Bytes → Option (List CompiledEndpoint)
route_paths s method = elim s.compiled_routes [
  | some routes ↦ lookup method routes
  | none ↦ if method_matches s.rule.methods method then some s.compiled_paths else none
]

abbrev pub take_captures : Option (List (Bytes × Bytes)) → Progress → Check
take_captures none p = rejected p
take_captures (some caps) p = passed (record p { captures = merge_captures caps p.captures })

unfoldable pub check_paths : Option (List CompiledEndpoint) → Request → Progress → Check
check_paths none req p = rejected p
check_paths (some []) req p = passed p
check_paths (some (e ∷ es)) req p = take_captures (match_endpoint (e ∷ es) (request_path req.uri)) p

abbrev pub header_of : Option HttpHead → Bytes → Option Bytes
header_of none key = none
header_of (some m) key = get m.header key

abbrev or_else : Option Bytes → Option Bytes → Option Bytes
or_else none o = o
or_else (some v) o = some v

unfoldable pub http_header_lookup : Request → Bytes → Option Bytes
http_header_lookup req key =
    if req.method =ᵇ method_respmod
    then or_else (header_of req.http_response key) (header_of req.http_request key)
    else header_of req.http_request key

abbrev present : Option HttpHead → Bool
present none = false
present (some m) = true

unfoldable pub has_encapsulated_http : Request → Bool
has_encapsulated_http req = present req.http_request || present req.http_response

unfoldable pub headers_match : Library → MatchRule → CompiledRule → Request → Bool
headers_match lib m c req =
    header_rules_match lib m.headers c.header_regexps c.header_lists (get req.header)

abbrev pub method_test : Option HttpHead → Bytes → Bool
method_test none method = false
method_test (some h) method = h.method =ᵇ method

unfoldable pub http_method_matches : MatchRule → Request → Bool
http_method_matches m req = is_nil m.http_method || method_test req.http_request m.http_method

unfoldable pub http_headers_match : Library → MatchRule → CompiledRule → Request → Bool
http_headers_match lib m c req =
    if not (is_nil m.http_headers) || not (is_nil m.http_header_contains)
    then has_encapsulated_http req
      && header_rules_match lib m.http_headers c.http_header_regexps c.http_lists
          (http_header_lookup req)
    else true

abbrev pub url_test : Option Regexp → Bytes → Bytes → Bool
url_test (some pattern) url uri = pattern uri
url_test none url uri = uri =ᵇ url

abbrev pub head_url_test : Option HttpHead → Option Regexp → Bytes → Bool
head_url_test none pattern url = false
head_url_test (some h) pattern url = url_test pattern url h.uri

unfoldable pub http_url_matches : MatchRule → CompiledRule → Request → Bool
http_url_matches m c req =
    is_nil m.http_url || head_url_test req.http_request c.http_url_regexp m.http_url

unfoldable pub branch_matches : Library → Branch → Request → Bool
branch_matches lib b req =
    headers_match lib b.rule b.compiled req
    && (http_method_matches b.rule req
        && (http_headers_match lib b.rule b.compiled req && http_url_matches b.rule b.compiled req))

-- `none` is -1.
unfoldable pub branch_from : ℕ → List Branch → Library → Request → Option ℕ
branch_from i [] lib req = none
branch_from i (b ∷ bs) lib req =
    let rest = branch_from (suc i) bs lib req in if branch_matches lib b req then some i else rest

unfoldable pub select_branch : Library → Scenario → Request → Option ℕ
select_branch lib s req = branch_from 0 s.branches lib req

-- Which message's body a pattern is applied to.
pub data Side : Type 0 where
  request_side response_side : Side

abbrev side_of : Side → Option HttpHead → Option Side
side_of side none = none
side_of side (some m) = some side

unfoldable pub body_pattern_message : Request → Option Side
body_pattern_message req =
    if req.method =ᵇ method_respmod
    then side_of response_side req.http_response
    else if req.method =ᵇ method_reqmod
    then side_of request_side req.http_request
    else elim req.http_request [
      | some m ↦ some request_side
      | none ↦ side_of response_side req.http_response
    ]

abbrev pub body_at : Side → Progress → LazyBody
body_at request_side p = p.request_body
body_at response_side p = p.response_body

abbrev pub put_body : Side → LazyBody → Progress → Progress
put_body request_side b p = record p { request_body = b }
put_body response_side b p = record p { response_body = b }

abbrev pub limit_of : ℤ → Option ℕ
limit_of (pos n) = some n
limit_of (negsuc n) = none

unfoldable pub read_body_for_pattern :
    Environment → Side → Progress → BodyPatternOptions → Loaded × Progress
read_body_for_pattern env side p o =
    let (result, b) = env.loader.load (limit_of o.limit) (body_at side p) in
    (result, put_body side b p)

unfoldable pub handle_body_pattern_read_error : BodyError → BodyPatternOptions → Option MatchError
handle_body_pattern_read_error body_too_large o =
    if o.limit_action =ᵇ action_no_match then none else some (body_pattern_limit_exceeded o.limit)
handle_body_pattern_read_error (read_failed e) o = some (reading_body e)

abbrev pub as_check : Option MatchError → Progress → Check
as_check none p = rejected p
as_check (some e) p = failed e p

unfoldable pub pattern_check : Regexp → BodyPatternOptions → Loaded → Progress → Check
pattern_check pattern o (loaded content) p = check (pattern content) p
pattern_check pattern o (not_loaded e) p = as_check (handle_body_pattern_read_error e o) p

unfoldable pub body_pattern_matches : Environment → Regexp → Side → Progress → Check
body_pattern_matches env pattern side p =
    let o = normalized env.library env.options in
    let (result, p') = read_body_for_pattern env side p o in
    poll p' >>= pattern_check pattern o result

unfoldable pub check_message : Environment → Regexp → Option Side → Progress → Check
check_message env pattern none p = rejected p
check_message env pattern (some side) p = body_pattern_matches env pattern side p

unfoldable pub check_body : Environment → Option Regexp → Request → Progress → Check
check_body env none req p = passed p
check_body env (some pattern) req p =
    poll p >>= check_message env pattern (body_pattern_message req)

unfoldable pub match_client_ip : Bytes → Bytes → Bool
match_client_ip pattern client_ip = pattern =ᵇ client_ip

unfoldable pub in_networks : List (Bytes → Bool) → Option Bytes → Bool
in_networks networks none = false
in_networks [] (some ip) = false
in_networks (n ∷ ns) (some ip) = n ip || in_networks ns (some ip)

unfoldable pub match_by_cidr : Library → List (Bytes → Bool) → Bytes → Bool
match_by_cidr lib networks client_ip =
    is_nil networks || in_networks networks (lib.parse_ip client_ip)

unfoldable pub client_matches : Library → Scenario → Request → Bool
client_matches lib s req =
    (is_nil s.rule.client_ip || match_client_ip s.rule.client_ip req.client_ip)
    && (is_nil s.compiled_cidrs || match_by_cidr lib s.compiled_cidrs req.client_ip)

abbrev pub chosen : Option ℕ → Progress → Check
chosen none p = rejected p
chosen (some i) p = passed (record p { matched_branch = some i })

unfoldable pub check_branches : Library → Scenario → Request → Progress → Check
check_branches lib s req p =
    let cleared = record p { matched_branch = none } in
    if is_nil s.branches then passed cleared else chosen (select_branch lib s req) cleared

unfoldable pub matches_scenario : Environment → Scenario → Request → Progress → Check
matches_scenario env s req p = do
  a ← poll p
  b ← check_paths (route_paths s req.method) req a
  c ← check (headers_match env.library s.rule s.compiled req) b
  d ← check (http_method_matches s.rule req) c
  e ← check (http_headers_match env.library s.rule s.compiled req) d
  f ← check (http_url_matches s.rule s.compiled req) e
  g ← check_body env s.compiled_body req f
  h ← poll g
  i ← check (client_matches env.library s req) h
  check_branches env.library s req i
