-- ===== src/Router/Cache.antt =====
-- internal/router/cache.go: the LRU cache of routes. A node is a cell of a heap, known by its address;
-- the list through `prev` and `next` and the map hold addresses. A handler is known by a number. Each
-- method is one step: what other goroutines do between the locks of one Get is not modelled.
pub mod Links
pub mod Order
pub mod Methods
use icapmock.Prelude.{
  ℕ, zero, suc, ◌+◌, ◌-◌, ◌%◌, Bool, true, false, not, ◌&&◌, ◌||◌, Option, none, some, List, [],
  ◌∷◌, ◌++◌, ltb, leb, ◌==◌, if◌then◌else◌, Bytes, codes, length,
}
use icapmock.Prelude.Maps.{lookup, insert, delete}

abbrev pub default_max_entries : ℕ
default_max_entries = 1000

pub record LruNode : Type 0 where
  pub prev : Option ℕ
  pub next : Option ℕ
  pub key : Bytes
  pub handler : ℕ
  pub timestamp : ℕ
  pub access_count : ℕ

pub record RouteCache : Type 0 where
  pub cache : List (Bytes × ℕ)
  pub nodes : ℕ → LruNode
  pub fresh : ℕ
  pub head : Option ℕ
  pub tail : Option ℕ
  pub max_entries : ℕ
  pub ttl : ℕ
  pub hits : ℕ
  pub misses : ℕ
  pub evictions : ℕ

-- A write to the cell `a`.
abbrev pub write_cell : ℕ → LruNode → (ℕ → LruNode) → ℕ → LruNode
write_cell a n nodes x = if x == a then n else nodes x

abbrev pub set_next : ℕ → Option ℕ → RouteCache → RouteCache
set_next a o c = record c { nodes = write_cell a (record (c.nodes a) { next = o }) c.nodes }

abbrev pub set_prev : ℕ → Option ℕ → RouteCache → RouteCache
set_prev a o c = record c { nodes = write_cell a (record (c.nodes a) { prev = o }) c.nodes }

-- The two halves of `removeNode`.
unfoldable pub unlink_prev : ℕ → RouteCache → RouteCache
unlink_prev a c = elim (c.nodes a).prev [
  | some p ↦ set_next p (c.nodes a).next c
  | none ↦ record c { head = (c.nodes a).next }
]

unfoldable pub unlink_next : ℕ → RouteCache → RouteCache
unlink_next a c = elim (c.nodes a).next [
  | some n ↦ set_prev n (c.nodes a).prev c
  | none ↦ record c { tail = (c.nodes a).prev }
]

unfoldable pub remove_node : ℕ → RouteCache → RouteCache
remove_node a c = set_next a none (set_prev a none (unlink_next a (unlink_prev a c)))

unfoldable pub link_old_head : ℕ → RouteCache → RouteCache
link_old_head a c = elim c.head [ some h ↦ set_prev h (some a) c | none ↦ c ]

unfoldable pub link_tail : ℕ → RouteCache → RouteCache
link_tail a c = elim c.tail [ some t ↦ c | none ↦ record c { tail = some a } ]

unfoldable pub add_to_front : ℕ → RouteCache → RouteCache
add_to_front a c =
    let linked = link_old_head a (set_next a c.head (set_prev a none c)) in
    link_tail a (record linked { head = some a })

abbrev pub is_head : ℕ → Option ℕ → Bool
is_head a none = false
is_head a (some h) = h == a

unfoldable pub move_to_front : ℕ → RouteCache → RouteCache
move_to_front a c = if is_head a c.head then c else add_to_front a (remove_node a c)
