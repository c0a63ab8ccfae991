-- ===== src/Router/Table/Runs.antt =====
-- internal/router/router.go: routers as they are used, from the new one on.
use icapmock.Prelude.{
  ℕ, ◌≡◌, refl, ◌∙◌, sym, ap, subst, Bool, true, not, ◌&&◌, Option, none, some, List, [], ◌∷◌,
  arith, ◌==◌, ==_iff, ◌++◌, if◌then◌else◌, Bytes, ◌=ᵇ◌, is_nil, lacks, inl, inr, Bool-cases,
}
use icapmock.Prelude.Maps.{lookup, insert, lookup-insert}
use icapmock.Router.Cache.{LruNode}
use icapmock.Router.Cache.Methods.{new_route_cache}
use icapmock.Router.Cache.Methods.Reading.{empty-IsCache}
use icapmock.Router.Paths.{extract_path}
use icapmock.Router.Table.{
  PatternRoute, Router, handle, handle_pattern, or_pattern, serve, new_router_with_cache,
  cache_clear,
}
use icapmock.Router.Table.Agreement.{IsTable, serve-IsTable, clear-IsTable}

pub data Command : Type 0 where
  register : Bytes → Option ℕ → Command
  register_pattern : Option ℕ → Option ℕ → Command
  request : Bytes → Bytes → ℕ → Command
  clear_cached : Command

abbrev pub step : (ℕ → Bytes → Bool) → Command → Router → Router
step matches (register path h) r = (handle path h r).1
step matches (register_pattern re h) r = (handle_pattern re h r).1
step matches (request method uri now) r = (serve matches method uri now r).1
step matches clear_cached r = cache_clear r

abbrev pub run : (ℕ → Bytes → Bool) → List Command → Router → Router
run matches [] r = r
run matches (c ∷ cs) r = run matches cs (step matches c r)

-- The methods of the requests have no colon.
abbrev pub AllPlain : List Command → Type 0
AllPlain [] = Unit
AllPlain (register path h ∷ cs) = AllPlain cs
AllPlain (register_pattern re h ∷ cs) = AllPlain cs
AllPlain (request method uri now ∷ cs) = (lacks b':' method ≡ true) × AllPlain cs
AllPlain (clear_cached ∷ cs) = AllPlain cs

-- The handler that was registered last for a path.
abbrev pub registered : Bytes → Option ℕ → List Command → Option ℕ
registered path old [] = old
registered path old (register p none ∷ cs) = registered path old cs
registered path old (register p (some h) ∷ cs) =
    registered path (if not (is_nil p) && (p =ᵇ path) then some h else old) cs
registered path old (register_pattern re h ∷ cs) = registered path old cs
registered path old (request method uri now ∷ cs) = registered path old cs
registered path old (clear_cached ∷ cs) = registered path old cs

-- The patterns that were registered, in their order.
abbrev pub registered_patterns : List PatternRoute → List Command → List PatternRoute
registered_patterns old [] = old
registered_patterns old (register path h ∷ cs) = registered_patterns old cs
registered_patterns old (register_pattern none h ∷ cs) = registered_patterns old cs
registered_patterns old (register_pattern (some re) none ∷ cs) = registered_patterns old cs
registered_patterns old (register_pattern (some re) (some h) ∷ cs) =
    registered_patterns (old ++ record { re = re; h = h } ∷ []) cs
registered_patterns old (request method uri now ∷ cs) = registered_patterns old cs
registered_patterns old (clear_cached ∷ cs) = registered_patterns old cs

abbrev Fits : Router → Type 0
Fits r = (xs : List ℕ) × IsTable r.routes r.cache xs

new_router-Fits :
    (max_entries ttl : ℕ) (nodes : ℕ → LruNode) → Fits (new_router_with_cache max_entries ttl nodes)
unfolding new_router_with_cache new_route_cache lookup
new_router-Fits max_entries ttl nodes = (
  [],
  record {
    cached = (empty-IsCache max_entries ttl nodes (new_route_cache max_entries ttl nodes)).0;
    some_room = elim (Bool-cases (max_entries == 0)) [
      | inl e ↦ rw e (omega arith)
      | inr e ↦ rw e (ground (arith, e, ==_iff max_entries 0))
    ];
    within = omega arith;
    agrees = λ m p x plain e. absurd (cc);
  },
)

handle-Fits : (path : Bytes) (h : Option ℕ) (r : Router) → Fits r → Fits (handle path h r).1
unfolding handle
handle-Fits path none r (xs, t) = elim (Bool-cases (is_nil path)) [
  | inl e ↦ rw e (xs, t)
  | inr e ↦ rw e (xs, t)
]
handle-Fits path (some h) r (xs, t) = elim (Bool-cases (is_nil path)) [
  | inl e ↦ rw e (xs, t)
  | inr e ↦ rw e ([], clear-IsTable r.routes (insert path h r.routes) r.cache xs t)
]

handle_pattern-Fits : (re h : Option ℕ) (r : Router) → Fits r → Fits (handle_pattern re h r).1
unfolding handle_pattern
handle_pattern-Fits none h r f = f
handle_pattern-Fits (some re) none r f = f
handle_pattern-Fits (some re) (some h) r (xs, t) =
    ([], clear-IsTable r.routes r.routes r.cache xs t)

handle_routes :
    (path p : Bytes) (h : ℕ) (r : Router)
    → lookup path (handle p (some h) r).1.routes
      ≡ (if not (is_nil p) && (p =ᵇ path) then some h else lookup path r.routes)
unfolding handle
handle_routes path p h r = elim (Bool-cases (is_nil p)) [
  | inl e ↦ rw e refl
  | inr e ↦ rw e (lookup-insert p path h r.routes)
]

handle_nil_routes : (p : Bytes) (r : Router) → (handle p none r).1.routes ≡ r.routes
unfolding handle
handle_nil_routes p r = elim (Bool-cases (is_nil p)) [ inl e ↦ rw e refl | inr e ↦ rw e refl ]

handle_patterns : (p : Bytes) (h : Option ℕ) (r : Router) → (handle p h r).1.patterns ≡ r.patterns
unfolding handle
handle_patterns p none r = elim (Bool-cases (is_nil p)) [ inl e ↦ rw e refl | inr e ↦ rw e refl ]
handle_patterns p (some h) r = elim (Bool-cases (is_nil p)) [
  | inl e ↦ rw e refl
  | inr e ↦ rw e refl
]

-- What is registered after the commands.
record Ran (matches : ℕ → Bytes → Bool) (cs : List Command) (r : Router) : Type 0 where
  fits : Fits (run matches cs r)
  routes :
      (path : Bytes)
      → lookup path (run matches cs r).routes ≡ registered path (lookup path r.routes) cs
  patterns : (run matches cs r).patterns ≡ registered_patterns r.patterns cs

-- A first command that leaves the table alone.
quiet-Ran :
    (matches : ℕ → Bytes → Bool) (c : Command) (cs : List Command) (r : Router)
    → (step matches c r).routes ≡ r.routes
    → (step matches c r).patterns ≡ r.patterns
    → ((path : Bytes) (old : Option ℕ) → registered path old (c ∷ cs) ≡ registered path old cs)
    → ((old : List PatternRoute) → registered_patterns old (c ∷ cs) ≡ registered_patterns old cs)
    → Ran matches cs (step matches c r)
    → Ran matches (c ∷ cs) r
quiet-Ran matches c cs r routes patterns same_routes same_patterns ran = record {
  fits = ran.fits;
  routes = λ path.
      ran.routes path
      ∙ ap (λ (m : List (Bytes × ℕ)). registered path (lookup path m) cs) routes
      ∙ sym (same_routes path (lookup path r.routes));
  patterns =
      ran.patterns
      ∙ ap (λ (m : List PatternRoute). registered_patterns m cs) patterns
      ∙ sym (same_patterns r.patterns);
}

run-Ran :
    (matches : ℕ → Bytes → Bool) (cs : List Command) (r : Router)
    → AllPlain cs
    → Fits r
    → Ran matches cs r
unfolding cache_clear handle_pattern
run-Ran matches [] r plain f = record { fits = f; routes = λ path. refl; patterns = refl }
run-Ran matches (register p none ∷ cs) r plain f =
    quiet-Ran matches (register p none) cs r (handle_nil_routes p r) (handle_patterns p none r)
      (λ path old. refl) (λ old. refl)
      (run-Ran matches cs (handle p none r).1 plain (handle-Fits p none r f))
run-Ran matches (register p (some h) ∷ cs) r plain f =
    let ran = run-Ran matches cs (handle p (some h) r).1 plain (handle-Fits p (some h) r f) in
    record {
      fits = ran.fits;
      routes = λ path.
          ran.routes path ∙ ap (λ (o : Option ℕ). registered path o cs) (handle_routes path p h r);
      patterns =
          ran.patterns
          ∙ ap (λ (m : List PatternRoute). registered_patterns m cs) (handle_patterns p (some h) r);
    }
run-Ran matches (register_pattern none h ∷ cs) r plain f =
    quiet-Ran matches (register_pattern none h) cs r refl refl (λ path old. refl) (λ old. refl)
      (run-Ran matches cs r plain f)
run-Ran matches (register_pattern (some re) none ∷ cs) r plain f =
    quiet-Ran matches (register_pattern (some re) none) cs r refl refl (λ path old. refl)
      (λ old. refl) (run-Ran matches cs r plain f)
run-Ran matches (register_pattern (some re) (some h) ∷ cs) r plain f =
    let ran =
      run-Ran matches cs (handle_pattern (some re) (some h) r).1 plain
        (handle_pattern-Fits (some re) (some h) r f) in
    record { fits = ran.fits; routes = ran.routes; patterns = ran.patterns }
run-Ran matches (request method uri now ∷ cs) r (ok, plain) (xs, t) =
    let (_, routes, patterns, (ys, u)) = serve-IsTable matches method uri now r xs ok t in
    let next = (serve matches method uri now r).1 in
    let fits : Fits next =
      (ys, subst (λ (m : List (Bytes × ℕ)). IsTable m next.cache ys) (sym routes) u) in
    quiet-Ran matches (request method uri now) cs r routes patterns (λ path old. refl) (λ old. refl)
      (run-Ran matches cs next plain fits)
run-Ran matches (clear_cached ∷ cs) r plain (xs, t) =
    quiet-Ran matches clear_cached cs r refl refl (λ path old. refl) (λ old. refl)
      (run-Ran matches cs (cache_clear r) plain ([], clear-IsTable r.routes r.routes r.cache xs t))

-- However a new router was used before, with requests whose methods have no colon, a request with such
-- a method is answered by the handler that was registered last for its path, else by that of the
-- first registered pattern that matches the path, else by 404.
pub serve-registered :
    (matches : ℕ → Bytes → Bool) (max_entries ttl : ℕ) (nodes : ℕ → LruNode) (cs : List Command)
    (method uri : Bytes) (now : ℕ)
    → AllPlain cs
    → lacks b':' method ≡ true
    → (serve matches method uri now
        (run matches cs (new_router_with_cache max_entries ttl nodes))).0
      ≡ or_pattern matches
          (extract_path uri)
          (registered_patterns [] cs)
          (registered (extract_path uri) none cs)
unfolding new_router_with_cache lookup
serve-registered matches max_entries ttl nodes cs method uri now plain ok =
    let first = new_router_with_cache max_entries ttl nodes in
    let last = run matches cs first in
    let ran = run-Ran matches cs first plain (new_router-Fits max_entries ttl nodes) in
    let (xs, t) = ran.fits in
    let path = extract_path uri in
    (serve-IsTable matches method uri now last xs ok t).0
    ∙ ap (or_pattern matches path last.patterns) (ran.routes path)
    ∙ ap (λ (ps : List PatternRoute). or_pattern matches path ps (registered path none cs))
        ran.patterns
