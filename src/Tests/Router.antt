-- ===== src/Tests/Router.antt =====
-- internal/router/router.go: a router with a few routes.
use icapmock.Prelude.{
  ℕ, ◌≡◌, refl, Bool, true, List, none, some, [], ◌∷◌, ◌=ᵇ◌, Bytes, codes, index, has_prefix,
  index_byte,
}
use icapmock.Router.Cache.{LruNode}
use icapmock.Router.Paths.{strip_query, path_behind_host, extract_path}
use icapmock.Router.Table.{empty_path, or_pattern, serve, handle, new_router_with_cache}
use icapmock.Router.Table.Runs.{
  Command, register, register_pattern, request, run, registered, registered_patterns,
  serve-registered,
}

abbrev no_nodes : ℕ → LruNode
no_nodes x = record {
  prev = none;
  next = none;
  key = [];
  handler = 0;
  timestamp = 0;
  access_count = 0;
}

-- A service is asked before and after it gets another handler.
abbrev commands : List Command
commands =
    register (codes "/a") (some 7)
    ∷ register_pattern (some 0) (some 4)
    ∷ request (codes "REQMOD") (codes "icap://h/a") 1
    ∷ register (codes "/a") (some 8)
    ∷ register (codes "") (some 9)
    ∷ []

abbrev any_path : ℕ → Bytes → Bool
any_path re path = true

path_of_uri : extract_path (codes "icap://h/a?x=1") ≡ codes "/a"
unfolding extract_path path_behind_host strip_query index index_byte has_prefix
path_of_uri = refl

newest : registered (codes "/a") none commands ≡ some 8
unfolding ◌=ᵇ◌
newest = refl

empty_is_refused :
    (handle (codes "") (some 9) (new_router_with_cache 2 0 no_nodes)).0 ≡ some empty_path
unfolding handle
empty_is_refused = refl

serve-registered_example :
    (serve any_path
      (codes "REQMOD")
      (codes "icap://h/a?x=1")
      2
      (run any_path commands (new_router_with_cache 2 0 no_nodes))).0
    ≡ or_pattern any_path
        (extract_path (codes "icap://h/a?x=1"))
        (registered_patterns [] commands)
        (registered (extract_path (codes "icap://h/a?x=1")) none commands)
serve-registered_example =
    serve-registered any_path 2 0 no_nodes commands (codes "REQMOD") (codes "icap://h/a?x=1") 2
      (refl, tt) refl
