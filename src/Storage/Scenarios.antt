-- ===== src/Storage/Scenarios.antt =====
-- internal/storage/scenario.go: the data of a scenario, and what is looked at in a request. Stream
-- and delay settings of a response are left out. The two HTTP messages stand in a request without their
-- bodies, which matching loads and which are part of its progress.
use icapmock.Prelude.{
  ℕ, Bool, Option, none, List, [], ◌∷◌, ◌*◌, Bytes, codes, trim_space, if◌then◌else◌, ◌≡◌,
}
use icapmock.Prelude.Int64.{ℤ, pos, negsuc, int_eq}
use icapmock.Icap.Header.{Header}
use icapmock.Icap.Body.{LazyBody, Loaded}
use icapmock.Storage.HeaderRules.{Library, Regexp, HeaderListMatcher}
use icapmock.Storage.Endpoints.{CompiledEndpoint}

abbrev pub method_reqmod : Bytes
method_reqmod = codes "REQMOD"

abbrev pub method_respmod : Bytes
method_respmod = codes "RESPMOD"

abbrev pub method_options : Bytes
method_options = codes "OPTIONS"

-- The action for a body beyond the limit is a text, `no_match` or `error` where it is valid.
pub record BodyPatternOptions : Type 0 where
  pub limit_action : Bytes
  pub limit : ℤ

abbrev pub action_no_match : Bytes
action_no_match = codes "no_match"

abbrev pub default_body_pattern_limit : ℕ
default_body_pattern_limit = 10 * 1024 * 1024

unfoldable pub default_body_pattern_options : BodyPatternOptions
default_body_pattern_options = record {
  limit = pos default_body_pattern_limit;
  limit_action = action_no_match;
}

abbrev or_no_match : Bytes → Bytes
or_no_match [] = action_no_match
or_no_match (c ∷ s) = c ∷ s

unfoldable pub normalized : Library → BodyPatternOptions → BodyPatternOptions
normalized lib o = record {
  limit = if int_eq o.limit (pos 0) then pos default_body_pattern_limit else o.limit;
  limit_action = or_no_match (lib.to_lower (trim_space o.limit_action));
}

pub record MatchRule : Type 0 where
  pub routes : List (Bytes × List Bytes)
  pub path : Bytes
  pub paths : List Bytes
  pub methods : List Bytes
  pub http_method : Bytes
  pub http_url : Bytes
  pub headers : List (Bytes × Bytes)
  pub header_contains : List (Bytes × List Bytes)
  pub http_headers : List (Bytes × Bytes)
  pub http_header_contains : List (Bytes × List Bytes)
  pub body_pattern : Bytes
  pub client_ip : Bytes
  pub cidr_ranges : List Bytes

abbrev pub no_rule : MatchRule
no_rule = record {
  routes = [];
  path = [];
  paths = [];
  methods = [];
  http_method = [];
  http_url = [];
  headers = [];
  header_contains = [];
  http_headers = [];
  http_header_contains = [];
  body_pattern = [];
  client_ip = [];
  cidr_ranges = [];
}

pub record ResponseTemplate : Type 0 where
  pub headers : List (Bytes × Bytes)
  pub http_headers : List (Bytes × Bytes)
  pub block : Option Bool
  pub response_name : Bytes
  pub template : Bytes
  pub body : Bytes
  pub body_file : Bytes
  pub http_body : Bytes
  pub http_body_file : Bytes
  pub failure : Bytes
  pub status : ℕ
  pub icap_status : ℕ
  pub http_status : ℕ

abbrev pub no_response : ResponseTemplate
no_response = record {
  headers = [];
  http_headers = [];
  block = none;
  response_name = [];
  template = [];
  body = [];
  body_file = [];
  http_body = [];
  http_body_file = [];
  failure = [];
  status = 0;
  icap_status = 0;
  http_status = 0;
}

-- What is compiled from the header rules and the URL of a rule.
pub record CompiledRule : Type 0 where
  pub header_regexps : List (Bytes × Regexp)
  pub header_lists : List (Bytes × HeaderListMatcher)
  pub http_header_regexps : List (Bytes × Regexp)
  pub http_lists : List (Bytes × HeaderListMatcher)
  pub http_url_regexp : Option Regexp

abbrev pub nothing_compiled : CompiledRule
nothing_compiled = record {
  header_regexps = [];
  header_lists = [];
  http_header_regexps = [];
  http_lists = [];
  http_url_regexp = none;
}

pub record Branch : Type 0 where
  pub compiled : CompiledRule
  pub rule : MatchRule
  pub response : ResponseTemplate

-- `none` is a nil map of routes, a nil expression; `order` is never negative.
pub record Scenario : Type 0 where
  pub compiled : CompiledRule
  pub compiled_body : Option Regexp
  pub compiled_routes : Option (List (Bytes × List CompiledEndpoint))
  pub compiled_cidrs : List (Bytes → Bool)
  pub compiled_paths : List CompiledEndpoint
  pub name : Bytes
  pub rule : MatchRule
  pub branches : List Branch
  pub response : ResponseTemplate
  pub priority : ℤ
  pub order : ℕ

abbrev pub default_scenario_name : Bytes
default_scenario_name = codes "default"

abbrev pub default_scenario : Scenario
default_scenario = record {
  compiled = nothing_compiled;
  compiled_body = none;
  compiled_routes = none;
  compiled_cidrs = [];
  compiled_paths = [];
  name = default_scenario_name;
  rule = no_rule;
  branches = [];
  response = record no_response { icap_status = 204 };
  priority = negsuc 0;
  order = 0;
}

pub record HttpHead : Type 0 where
  pub method : Bytes
  pub uri : Bytes
  pub header : Header

pub record Request : Type 0 where
  pub method : Bytes
  pub uri : Bytes
  pub header : Header
  pub client_ip : Bytes
  pub http_request : Option HttpHead
  pub http_response : Option HttpHead

-- What matching changes: the captures and the branch of the request, the bodies of its messages. The
-- context says in how many more polls it will be done; `none` is a context that is not cancelled.
pub record Progress : Type 0 where
  pub captures : List (Bytes × Bytes)
  pub matched_branch : Option ℕ
  pub request_body : LazyBody
  pub response_body : LazyBody
  pub alive : Option ℕ

-- `GetBodyLimited` of a message, or `GetBody` without a limit: a body is loaded once, and a second
-- load with the same limit finds what the first one found.
pub record BodyLoader : Type 0 where
  pub load : Option ℕ → LazyBody → Loaded × LazyBody
  pub load_again : (limit : Option ℕ) (b : LazyBody) → load limit (load limit b).1 ≡ load limit b

pub record Environment : Type 0 where
  pub library : Library
  pub loader : BodyLoader
  pub options : BodyPatternOptions
