-- ===== src/Router/Table.antt =====
-- internal/router/router.go: the table of routes, with the cache in front of it.
pub mod Reads
pub mod Writes
pub mod Agreement
pub mod Runs
use icapmock.Prelude.{
  ℕ, ◌*◌, Bool, Option, none, some, List, [], ◌∷◌, ◌++◌, if◌then◌else◌, Bytes, is_nil,
}
use icapmock.Prelude.Maps.{lookup, insert}
use icapmock.Router.Cache.{LruNode, RouteCache, default_max_entries}
use icapmock.Router.Cache.Methods.{new_route_cache, clear, reset_metrics, lookup_handler_func}
use icapmock.Router.Paths.{extract_path}

-- `re` is a compiled expression, `h` a handler; they are numbered.
pub record PatternRoute : Type 0 where
  pub re : ℕ
  pub h : ℕ

pub record Router : Type 0 where
  pub routes : List (Bytes × ℕ)
  pub patterns : List PatternRoute
  pub cache : RouteCache

pub data RouteError : Type 0 where
  empty_path nil_pattern nil_handler nil_function : RouteError

unfoldable pub new_router_with_cache : ℕ → ℕ → (ℕ → LruNode) → Router
new_router_with_cache max_entries ttl nodes = record {
  routes = [];
  patterns = [];
  cache = new_route_cache max_entries ttl nodes;
}

abbrev default_ttl : ℕ
default_ttl = 5 * 60 * 1000000000

unfoldable pub new_router : (ℕ → LruNode) → Router
new_router nodes = new_router_with_cache default_max_entries default_ttl nodes

abbrev pub handle_path : Bytes → Option ℕ → Router → Option RouteError × Router
handle_path path none r = (some nil_handler, r)
handle_path path (some h) r =
    (none, record r { routes = insert path h r.routes; cache = clear r.cache })

unfoldable pub handle : Bytes → Option ℕ → Router → Option RouteError × Router
handle path h r = if is_nil path then (some empty_path, r) else handle_path path h r

-- `wrap` makes a handler of a function.
unfoldable pub handle_func : (ℕ → ℕ) → Bytes → Option ℕ → Router → Option RouteError × Router
handle_func wrap path none r = (some nil_function, r)
handle_func wrap path (some fn) r = handle path (some (wrap fn)) r

-- `none` is a nil expression, and a nil handler.
unfoldable pub handle_pattern : Option ℕ → Option ℕ → Router → Option RouteError × Router
handle_pattern none h r = (some nil_pattern, r)
handle_pattern (some re) none r = (some nil_handler, r)
handle_pattern (some re) (some h) r = (
  none,
  record r { patterns = r.patterns ++ record { re = re; h = h } ∷ []; cache = clear r.cache },
)

abbrev pub loaded : Option ℕ → Option (Option ℕ)
loaded none = none
loaded (some h) = some (some h)

-- The first pattern that matches the path.
unfoldable pub match_patterns : (ℕ → Bytes → Bool) → Bytes → List PatternRoute → Option ℕ
match_patterns matches path [] = none
match_patterns matches path (pr ∷ rest) =
    if matches pr.re path then some pr.h else match_patterns matches path rest

abbrev pub or_pattern : (ℕ → Bytes → Bool) → Bytes → List PatternRoute → Option ℕ → Option ℕ
or_pattern matches path patterns none = match_patterns matches path patterns
or_pattern matches path patterns (some h) = some h

-- The handler that answers; `none` is the answer 404.
unfoldable pub serve : (ℕ → Bytes → Bool) → Bytes → Bytes → ℕ → Router → Option ℕ × Router
serve matches method uri now r =
    let (h, _, c) = lookup_handler_func (λ p. loaded (lookup p r.routes)) method uri now r.cache in
    (or_pattern matches (extract_path uri) r.patterns h, record r { cache = c })

unfoldable pub cache_clear : Router → Router
cache_clear r = record r { cache = clear r.cache }

unfoldable pub cache_reset_metrics : Router → Router
cache_reset_metrics r = record r { cache = reset_metrics r.cache }
