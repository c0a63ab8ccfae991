-- ===== src/Storage/Sharded/CacheKey.antt =====
-- internal/storage/sharded_scenario.go: the key under which a match is cached, and the scenarios that
-- turn the cache off.
use icapmock.Prelude.{
  ◌≡◌, refl, ◌∙◌, sym, ap, Bool, true, false, not, ◌||◌, Option, none, some, List, [], ◌∷◌, ◌++◌,
  arith, is_nil, Bytes, codes, ◌=ᵇ◌,
}
use icapmock.Storage.HeaderRules.{
  Library, Regexp, header_rules_match, exact_rules_match, list_rules_match,
}
use icapmock.Storage.Endpoints.{CompiledEndpoint}
use icapmock.Storage.Scenarios.{
  MatchRule, CompiledRule, Scenario, HttpHead, Request, Progress, Environment,
}
use icapmock.Storage.Matching.{
  header_of, route_paths, headers_match, http_method_matches, http_headers_match, http_url_matches,
  client_matches, head_url_test, method_test, url_test,
}
use icapmock.Storage.Matching.Verdicts.{
  Verdict, verdict, paths_accept, body_verdict, of_bool, ◌then_also◌, accepted,
}

unfoldable pub has_dynamic_match_rule : MatchRule → Bool
has_dynamic_match_rule m =
    not (is_nil m.headers)
    || not (is_nil m.header_contains)
    || not (is_nil m.http_headers)
    || not (is_nil m.http_header_contains)
    || not (is_nil m.client_ip)
    || not (is_nil m.cidr_ranges)
    || not (is_nil m.body_pattern)

unfoldable pub has_endpoint_captures : List CompiledEndpoint → Bool
has_endpoint_captures [] = false
has_endpoint_captures (p ∷ ps) = not (is_nil p.captures) || has_endpoint_captures ps

unfoldable pub scenario_disables_match_cache : Scenario → Bool
scenario_disables_match_cache s =
    has_dynamic_match_rule s.rule
    || has_endpoint_captures s.compiled_paths
    || not (is_nil s.branches)

unfoldable pub scenarios_disable_match_cache : List Scenario → Bool
scenarios_disable_match_cache [] = false
scenarios_disable_match_cache (s ∷ l) =
    scenario_disables_match_cache s || scenarios_disable_match_cache l

abbrev method_text : Option HttpHead → Bytes
method_text none = []
method_text (some h) = h.method

abbrev uri_text : Option HttpHead → Bytes
uri_text none = []
uri_text (some h) = h.uri

abbrev or_empty : Option Bytes → Bytes
or_empty none = []
or_empty (some v) = v

abbrev first_text : Bytes → Bytes → Bytes
first_text [] t = t
first_text (c ∷ s) t = c ∷ s

unfoldable pub content_type : Request → Bytes
content_type req =
    first_text (or_empty (header_of req.http_response (codes "Content-Type")))
      (or_empty (header_of req.http_request (codes "Content-Type")))

unfoldable pub build_cache_key : Request → Bytes
build_cache_key req =
    req.method
    ++ (b'|'
        ∷ (req.uri
            ++ (b'|'
                ∷ (method_text req.http_request
                    ++ (b'|' ∷ (uri_text req.http_request ++ (b'|' ∷ content_type req)))))))

-- Of the parts of the key, those that are looked at while the cache is on.
abbrev head_fields : Option HttpHead → Option (Bytes × Bytes)
head_fields none = none
head_fields (some h) = some (h.method, h.uri)

pub record IsSameLookup (left right : Request) : Type 0 where
  pub same_method : left.method ≡ right.method
  pub same_uri : left.uri ≡ right.uri
  pub same_head : head_fields left.http_request ≡ head_fields right.http_request

-- What `validateAndCompile` leaves where a rule has no such criterion.
pub record IsCompiled (s : Scenario) : Type 0 where
  pub lists : is_nil s.rule.header_contains ≡ true → s.compiled.header_lists ≡ []
  pub body : is_nil s.rule.body_pattern ≡ true → s.compiled_body ≡ none
  pub cidrs : is_nil s.rule.cidr_ranges ≡ true → s.compiled_cidrs ≡ []

-- The criteria that the scenario does not have.
abbrev IsPlainRule : MatchRule → Type 0
IsPlainRule m =
    (is_nil m.headers ≡ true)
    × (is_nil m.header_contains ≡ true)
    × (is_nil m.http_headers ≡ true)
    × (is_nil m.http_header_contains ≡ true)
    × (is_nil m.client_ip ≡ true)
    × (is_nil m.cidr_ranges ≡ true)
    × (is_nil m.body_pattern ≡ true)

dynamic-plain : (m : MatchRule) → has_dynamic_match_rule m ≡ false → IsPlainRule m
unfolding has_dynamic_match_rule
dynamic-plain m h = (
  ground arith,
  ground arith,
  ground arith,
  ground arith,
  ground arith,
  ground arith,
  ground arith,
)

disables-parts :
    (s : Scenario)
    → scenario_disables_match_cache s ≡ false
    → (has_dynamic_match_rule s.rule ≡ false) × (is_nil s.branches ≡ true)
unfolding scenario_disables_match_cache
disables-parts s h = (ground arith, ground arith)

nil_of : {A : Type 0} (l : List A) → is_nil l ≡ true → l ≡ []
nil_of [] h = refl
nil_of (x ∷ l) h = absurd (cc)

no_header_rules :
    (lib : Library) (m : MatchRule) (c : CompiledRule) (req : Request)
    → is_nil m.headers ≡ true
    → c.header_lists ≡ []
    → headers_match lib m c req ≡ true
unfolding headers_match header_rules_match exact_rules_match list_rules_match
no_header_rules lib m c req h k = rw (nil_of m.headers h, k) refl

no_http_headers :
    (lib : Library) (m : MatchRule) (c : CompiledRule) (req : Request)
    → is_nil m.http_headers ≡ true
    → is_nil m.http_header_contains ≡ true
    → http_headers_match lib m c req ≡ true
unfolding http_headers_match
no_http_headers lib m c req h k = rw (h, k) refl

no_client :
    (lib : Library) (s : Scenario) (req : Request)
    → is_nil s.rule.client_ip ≡ true
    → s.compiled_cidrs ≡ []
    → client_matches lib s req ≡ true
unfolding client_matches
no_client lib s req h k = rw (h, k) refl

-- The tests on the encapsulated request see its method and its URI.
method_by_fields :
    (m : Bytes) (h h' : Option HttpHead)
    → head_fields h ≡ head_fields h'
    → method_test h m ≡ method_test h' m
method_by_fields m none none e = refl
method_by_fields m none (some h) e = absurd (cc)
method_by_fields m (some h) none e = absurd (cc)
method_by_fields m (some h) (some h') e =
    let f : h.method ≡ h'.method = cc in ap (λ (t : Bytes). t =ᵇ m) f

url_by_fields :
    (c : Option Regexp) (u : Bytes) (h h' : Option HttpHead)
    → head_fields h ≡ head_fields h'
    → head_url_test h c u ≡ head_url_test h' c u
url_by_fields c u none none e = refl
url_by_fields c u none (some h) e = absurd (cc)
url_by_fields c u (some h) none e = absurd (cc)
url_by_fields c u (some h) (some h') e =
    let f : h.uri ≡ h'.uri = cc in ap (λ (t : Bytes). url_test c u t) f

no_body :
    (env : Environment) (s : Scenario) (req : Request) (p : Progress)
    → s.compiled_body ≡ none
    → body_verdict env s.compiled_body req p ≡ accepted
no_body env s req p h = rw h refl

same_paths :
    (s : Scenario) (left right : Request)
    → left.method ≡ right.method
    → left.uri ≡ right.uri
    → paths_accept (route_paths s left.method) left.uri
      ≡ paths_accept (route_paths s right.method) right.uri
same_paths s left right m u =
    ap (λ (t : Bytes). paths_accept (route_paths s t) left.uri) m
    ∙ ap (paths_accept (route_paths s right.method)) u

-- The verdict on a scenario that leaves the cache on, by what the key holds.
abbrev lookup_verdict : Scenario → Request → Verdict
lookup_verdict s req =
    of_bool (paths_accept (route_paths s req.method) req.uri)
    then_also of_bool (http_method_matches s.rule req)
    then_also of_bool (http_url_matches s.rule s.compiled req)
    then_also accepted

then_accepted : (v w : Verdict) → w ≡ accepted → (v then_also w) ≡ (v then_also accepted)
then_accepted v w h = ap (λ (u : Verdict). v then_also u) h

verdict-lookup_verdict :
    (env : Environment) (s : Scenario) (req : Request) (p : Progress)
    → scenario_disables_match_cache s ≡ false
    → IsCompiled s
    → verdict env s req p ≡ lookup_verdict s req
unfolding verdict
verdict-lookup_verdict env s req p h c =
    let (dynamic, no_branches) = disables-parts s h in
    let (headers, contains, http, http_contains, client, cidrs, body) =
      dynamic-plain s.rule dynamic in
    rw
      (
        no_header_rules env.library s.rule s.compiled req headers (c.lists contains),
        no_http_headers env.library s.rule s.compiled req http http_contains,
        no_body env s req p (c.body body),
        no_client env.library s req client (c.cidrs cidrs),
        no_branches,
      )
      refl

-- A scenario that leaves the cache on, and is compiled, has the same verdict on two requests with the
-- same method and URI that carry the same method and URI of an HTTP request, or none, whatever their headers,
-- bodies and clients are.
pub verdict_cached :
    (env : Environment) (s : Scenario) (left right : Request) (p q : Progress)
    → scenario_disables_match_cache s ≡ false
    → IsCompiled s
    → IsSameLookup left right
    → verdict env s left p ≡ verdict env s right q
unfolding http_method_matches http_url_matches
verdict_cached env s left right p q h c same =
    let paths = same_paths s left right same.same_method same.same_uri in
    let method =
      method_by_fields s.rule.http_method left.http_request right.http_request same.same_head in
    let url =
      url_by_fields s.compiled.http_url_regexp s.rule.http_url left.http_request right.http_request
        same.same_head in
    verdict-lookup_verdict env s left p h c
    ∙ rw (paths, method, url) refl
    ∙ sym (verdict-lookup_verdict env s right q h c)
