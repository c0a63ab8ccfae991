-- ===== src/Router/Cache/Methods.antt =====
-- internal/router/cache.go: the methods of the route cache. Time is a number of nanoseconds, which the
-- caller's clock gives, and a count of accesses does not overflow.
pub mod Entries
pub mod Table
pub mod Valid
pub mod Use
pub mod Reading
use icapmock.Prelude.{
  ℕ, zero, suc, ◌+◌, ◌-◌, ◌%◌, Bool, true, false, not, ◌&&◌, ◌||◌, Option, none, some, List, [],
  ◌∷◌, ◌++◌, ltb, leb, ◌==◌, if◌then◌else◌, Bytes, length,
}
use icapmock.Prelude.Maps.{lookup, insert, delete}
use icapmock.Router.Cache.{
  LruNode, RouteCache, default_max_entries, write_cell, remove_node, add_to_front, move_to_front,
}
use icapmock.Router.Paths.{extract_path}

-- A limit below 1 is 0 here.
unfoldable pub new_route_cache : ℕ → ℕ → (ℕ → LruNode) → RouteCache
new_route_cache max_entries ttl nodes = record {
  cache = [];
  nodes = nodes;
  fresh = 0;
  head = none;
  tail = none;
  max_entries = if max_entries == 0 then default_max_entries else max_entries;
  ttl = ttl;
  hits = 0;
  misses = 0;
  evictions = 0;
}

unfoldable pub build_key : Bytes → Bytes → Bytes
build_key method path = method ++ (b':' ∷ path)

-- `removeNode` and `delete` of the node's key.
unfoldable pub drop_node : ℕ → Bytes → RouteCache → RouteCache
drop_node a key c =
    let rest = remove_node a c in
    record rest { cache = delete key rest.cache; evictions = rest.evictions + 1 }

abbrev pub evict_tail : Option ℕ → RouteCache → RouteCache
evict_tail none c = c
evict_tail (some t) c = drop_node t (c.nodes t).key c

unfoldable pub evict_lru : RouteCache → RouteCache
evict_lru c = evict_tail c.tail c

abbrev pub evict_found : Option ℕ → Bytes → RouteCache → RouteCache
evict_found none key c = c
evict_found (some a) key c = drop_node a key c

unfoldable pub evict_key : Bytes → RouteCache → RouteCache
evict_key key c = evict_found (lookup key c.cache) key c

abbrev pub missed : RouteCache → RouteCache
missed c = record c { misses = c.misses + 1 }

abbrev pub set_node : ℕ → LruNode → RouteCache → RouteCache
set_node a n c = record c { nodes = write_cell a n c.nodes }

unfoldable pub is_expired : ℕ → ℕ → RouteCache → Bool
is_expired now a c = ltb 0 c.ttl && ltb c.ttl (now - (c.nodes a).timestamp)

-- The access is counted, and each tenth one moves the node to the front.
unfoldable pub accessed : ℕ → RouteCache → RouteCache
accessed a c =
    let count = (c.nodes a).access_count + 1 in
    let c' = set_node a (record (c.nodes a) { access_count = count }) c in
    if count % 10 == 0 then move_to_front a c' else c'

abbrev pub hit : ℕ → RouteCache → Option ℕ × RouteCache
hit a c = let c' = accessed a c in (some (c.nodes a).handler, record c' { hits = c'.hits + 1 })

abbrev pub get_node : Option ℕ → Bytes → ℕ → RouteCache → Option ℕ × RouteCache
get_node none key now c = (none, missed c)
get_node (some a) key now c =
    if is_expired now a c then (none, missed (evict_key key c)) else hit a c

unfoldable pub get_handler : Bytes → Bytes → ℕ → RouteCache → Option ℕ × RouteCache
get_handler method path now c =
    let key = build_key method path in get_node (lookup key c.cache) key now c

unfoldable pub update_node : ℕ → ℕ → ℕ → RouteCache → RouteCache
update_node a h now c = move_to_front a (
    set_node a
      (record (c.nodes a) {
        handler = h;
        timestamp = now;
        access_count = (c.nodes a).access_count + 1;
      })
      c)

abbrev pub new_node : Bytes → ℕ → ℕ → LruNode
new_node key h now = record {
  prev = none;
  next = none;
  key = key;
  handler = h;
  timestamp = now;
  access_count = 1;
}

unfoldable pub add_node : Bytes → ℕ → ℕ → RouteCache → RouteCache
add_node key h now c = add_to_front c.fresh (record (set_node c.fresh (new_node key h now) c) {
  cache = insert key c.fresh c.cache;
  fresh = c.fresh + 1;
})

abbrev pub put_node : Option ℕ → Bytes → ℕ → ℕ → RouteCache → RouteCache
put_node (some a) key h now c = update_node a h now c
put_node none key h now c =
    add_node key h now (if leb c.max_entries (length c.cache) then evict_lru c else c)

-- `none` is a nil handler.
unfoldable pub put_handler : Bytes → Bytes → Option ℕ → ℕ → RouteCache → RouteCache
put_handler method path none now c = c
put_handler method path (some h) now c =
    let key = build_key method path in put_node (lookup key c.cache) key h now c

unfoldable pub delete_handler : Bytes → Bytes → RouteCache → RouteCache
delete_handler method path c = evict_key (build_key method path) c

unfoldable pub clear : RouteCache → RouteCache
clear c = record c { cache = []; head = none; tail = none }

-- The handler, whether it was cached, and the cache; the route table may hold a nil handler, `some none`.
abbrev pub looked_up :
    Bytes → Bytes → ℕ → Option (Option ℕ) → RouteCache → Option ℕ × Bool × RouteCache
looked_up method path now none c = (none, false, c)
looked_up method path now (some h) c = (h, false, put_handler method path h now c)

abbrev pub after_get :
    Bytes
    → Bytes
    → ℕ
    → (Bytes → Option (Option ℕ))
    → Option ℕ × RouteCache
    → Option ℕ × Bool × RouteCache
after_get method path now routes (some h, c) = (some h, true, c)
after_get method path now routes (none, c) = looked_up method path now (routes path) c

unfoldable pub lookup_handler_func :
    (Bytes → Option (Option ℕ)) → Bytes → Bytes → ℕ → RouteCache → Option ℕ × Bool × RouteCache
lookup_handler_func routes method uri now c =
    let path = extract_path uri in after_get method path now routes (get_handler method path now c)

-- The routes are a map here.
unfoldable pub lookup_handler :
    List (Bytes × Option ℕ) → Bytes → Bytes → ℕ → RouteCache → Option ℕ × Bool × RouteCache
lookup_handler routes method uri now c =
    let path = extract_path uri in
    after_get method path now (λ p. lookup p routes) (get_handler method path now c)

abbrev pub size : RouteCache → ℕ
size c = length c.cache

unfoldable pub reset_metrics : RouteCache → RouteCache
reset_metrics c = record c { hits = 0; misses = 0; evictions = 0 }
