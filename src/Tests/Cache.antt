-- ===== src/Tests/Cache.antt =====
-- internal/router/cache.go: the theorems on small caches.
use icapmock.Prelude.{
  ℕ, arith, ◌+◌, ◌-◌, ◌≡◌, refl, subst, List, none, some, [], ◌∷◌, ◌==◌, ◌=ᵇ◌, if◌then◌else◌, codes,
}
use icapmock.Router.Cache.{
  RouteCache, unlink_prev, unlink_next, remove_node, link_old_head, link_tail, add_to_front,
  move_to_front,
}
use icapmock.Prelude.Maps.{insert, delete, lookup}
use icapmock.Router.Cache.Order.{HasOrder}
use icapmock.Router.Cache.Methods.{
  new_route_cache, build_key, drop_node, evict_lru, is_expired, get_handler, update_node, add_node,
  put_handler, size,
}
use icapmock.Router.Cache.Methods.Valid.{IsCache}
use icapmock.Router.Cache.Methods.Use.{IsPut, put_handler-IsPut}
use icapmock.Router.Cache.Methods.Reading.{Got, get_handler-Got, empty-IsCache}

program : Unit {0}
unfolding unlink_prev unlink_next remove_node link_old_head link_tail add_to_front move_to_front
    drop_node evict_lru update_node add_node build_key put_handler insert delete lookup
program = tt

-- Node 2 was used last, then 1, then 0.
abbrev three : RouteCache
three = record {
  cache = [];
  nodes = λ x. record {
    prev = if x == 2 then none else some (x + 1);
    next = if x == 0 then none else some (x - 1);
    key = codes "";
    handler = x;
    timestamp = 0;
    access_count = 0;
  };
  fresh = 3;
  head = some 2;
  tail = some 0;
  max_entries = 3;
  ttl = 0;
  hits = 0;
  misses = 0;
  evictions = 0;
}

three-HasOrder : HasOrder three (2 ∷ 1 ∷ 0 ∷ [])
three-HasOrder = record {
  linked = (refl, refl, (refl, refl, (refl, refl, tt)));
  distinct = (refl, (refl, (refl, tt)));
  first = refl;
  last = refl;
}

links_moved :
    (((move_to_front 1 three).nodes 2).next ≡ some 0)
    × (((move_to_front 1 three).nodes 0).prev ≡ some 2)
    × ((move_to_front 1 three).head ≡ some 1)
    × ((move_to_front 1 three).tail ≡ some 0)
unfolding program
links_moved = (refl, refl, refl, refl)

-- A cache for two handlers, whose entries do not expire.
abbrev empty : RouteCache
empty = record {
  cache = [];
  nodes = λ x. record {
    prev = none;
    next = none;
    key = [];
    handler = 0;
    timestamp = 0;
    access_count = 0;
  };
  fresh = 0;
  head = none;
  tail = none;
  max_entries = 2;
  ttl = 0;
  hits = 0;
  misses = 0;
  evictions = 0;
}

new_is_empty : new_route_cache 2 0 empty.nodes ≡ empty
unfolding new_route_cache
new_is_empty = refl

empty_valid : IsCache empty []
empty_valid = subst (λ c. IsCache c []) new_is_empty (empty-IsCache 2 0 empty.nodes empty).0

abbrev full : RouteCache
full = put_handler (codes "REQMOD") (codes "/c") (some 9) 3 (
    put_handler (codes "REQMOD") (codes "/b") (some 8) 2
      (put_handler (codes "REQMOD") (codes "/a") (some 7) 1 empty))

-- Of three handlers that are put, the first goes.
evicts_first :
    ((get_handler (codes "REQMOD") (codes "/a") 5 full).0 ≡ none)
    × ((get_handler (codes "REQMOD") (codes "/c") 5 full).0 ≡ some 9)
    × (size full ≡ 2)
unfolding program get_handler is_expired ◌=ᵇ◌
evicts_first = (refl, refl, refl)

put_handler-IsPut_example :
    (ys : List ℕ) × (a : ℕ) × IsPut
      (build_key (codes "REQMOD") (codes "/a"))
      7
      empty
      (put_handler (codes "REQMOD") (codes "/a") (some 7) 100 empty)
      []
      ys
      a
put_handler-IsPut_example =
    put_handler-IsPut (codes "REQMOD") (codes "/a") 7 100 empty [] empty_valid (omega arith)
      (omega arith)

abbrev one : RouteCache
one = put_handler (codes "REQMOD") (codes "/a") (some 7) 100 empty

get_handler-Got_example :
    Got
      (build_key (codes "REQMOD") (codes "/a"))
      200
      one
      put_handler-IsPut_example.0
      (get_handler (codes "REQMOD") (codes "/a") 200 one)
get_handler-Got_example =
    get_handler-Got (codes "REQMOD") (codes "/a") 200 one put_handler-IsPut_example.0
      put_handler-IsPut_example.2.valid
