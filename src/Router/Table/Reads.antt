-- ===== src/Router/Table/Reads.antt =====
-- internal/router/cache.go: Get changes no handler and adds nothing to the map.
use icapmock.Prelude.{
  ℕ, ◌+◌, ◌%◌, ◌≤◌, ◌≡◌, refl, ◌∙◌, sym, ap, Option, none, some, List, [], ◌∷◌, arith, ◌==◌, Bytes,
  ◌=ᵇ◌, length, inl, inr, Bool-cases,
}
use native.Mathlib.Decide.{ℕ_discrete}
use icapmock.Prelude.Maps.{lookup, delete, lookup-delete}
use icapmock.Router.Cache.{RouteCache, move_to_front}
use icapmock.Router.Cache.Methods.{
  build_key, drop_node, evict_found, evict_key, set_node, is_expired, accessed, get_node,
  get_handler,
}
use icapmock.Router.Cache.Methods.Entries.{
  IsRelinked, remove_node-IsRelinked, move_to_front-IsRelinked,
}

pub record IsRead (c d : RouteCache) : Type 0 where
  pub handler : (x : ℕ) → (d.nodes x).handler ≡ (c.nodes x).handler
  pub key : (x : ℕ) → (d.nodes x).key ≡ (c.nodes x).key
  pub limit : d.max_entries ≡ c.max_entries
  pub table : (k : Bytes) (x : ℕ) → lookup k d.cache ≡ some x → lookup k c.cache ≡ some x
  pub small : length d.cache ≤ length c.cache

pub length-delete_le : (k : Bytes) (m : List (Bytes × ℕ)) → length (delete k m) ≤ length m
unfolding delete
length-delete_le k [] = omega arith
length-delete_le k ((j, w) ∷ m) =
    let ih = length-delete_le k m in
    elim (Bool-cases (j =ᵇ k)) [
      | inl e ↦ rw e (omega (arith, ih))
      | inr e ↦ rw e (omega (arith, ih))
    ]

relinked-IsRead : (c d : RouteCache) → IsRelinked c d → IsRead c d
relinked-IsRead c d same = record {
  handler = same.handler;
  key = same.key;
  limit = same.limit;
  table = λ k x e. ap (lookup k) (sym same.table) ∙ e;
  small = rw (same.table) (omega arith);
}

pub drop_node-IsRead : (a : ℕ) (key : Bytes) (c : RouteCache) → IsRead c (drop_node a key c)
unfolding drop_node
drop_node-IsRead a key c =
    let same = remove_node-IsRelinked a c in
    record {
      handler = same.handler;
      key = same.key;
      limit = same.limit;
      table =
          λ k x e. let f = rw (same.table, lookup-delete key k c.cache) at e in ground (arith, f);
      small = rw (same.table) (length-delete_le key c.cache);
    }

-- The handler and the key of one node are written as they were.
counted_cell :
    (a x count : ℕ) (c : RouteCache)
    → (((set_node a (record (c.nodes a) { access_count = count }) c).nodes x).handler
        ≡ (c.nodes x).handler)
      × (((set_node a (record (c.nodes a) { access_count = count }) c).nodes x).key
          ≡ (c.nodes x).key)
counted_cell a x count c = elim (ℕ_discrete x a) [
  | yes e ↦ rw e (ground arith, ground arith)
  | no ne ↦ (ground arith, ground arith)
]

IsRead-trans : (c d e : RouteCache) → IsRead c d → IsRead d e → IsRead c e
IsRead-trans c d e h k = record {
  handler = λ x. k.handler x ∙ h.handler x;
  key = λ x. k.key x ∙ h.key x;
  limit = k.limit ∙ h.limit;
  table = λ j x f. h.table j x (k.table j x f);
  small = let l = h.small in let m = k.small in omega (arith, l, m);
}

accessed-IsRead : (a : ℕ) (c : RouteCache) → IsRead c (accessed a c)
unfolding accessed
accessed-IsRead a c =
    let count = (c.nodes a).access_count + 1 in
    let d = set_node a (record (c.nodes a) { access_count = count }) c in
    let step : IsRead c d = record {
      handler = λ x. (counted_cell a x count c).0;
      key = λ x. (counted_cell a x count c).1;
      limit = refl;
      table = λ k x e. e;
      small = omega arith;
    } in
    elim (Bool-cases (count % 10 == 0)) [
      | inl e ↦ rw e (
          IsRead-trans c d (move_to_front a d) step
            (relinked-IsRead d (move_to_front a d) (move_to_front-IsRelinked a d)))
      | inr e ↦ rw e step
    ]

recounted-IsRead :
    (c d : RouteCache) (h m : ℕ) → IsRead c d → IsRead c (record d { hits = h; misses = m })
recounted-IsRead c d h m r = record {
  handler = r.handler;
  key = r.key;
  limit = r.limit;
  table = r.table;
  small = r.small;
}

pub same-IsRead : (c : RouteCache) → IsRead c c
same-IsRead c = record {
  handler = λ x. refl;
  key = λ x. refl;
  limit = refl;
  table = λ k x e. e;
  small = omega arith;
}

evicted-IsRead : (o : Option ℕ) (key : Bytes) (c : RouteCache) → IsRead c (evict_found o key c)
evicted-IsRead none key c = same-IsRead c
evicted-IsRead (some a) key c = drop_node-IsRead a key c

get_node-IsRead :
    (o : Option ℕ) (key : Bytes) (now : ℕ) (c : RouteCache) → IsRead c (get_node o key now c).1
unfolding evict_key
get_node-IsRead none key now c = recounted-IsRead c c c.hits (c.misses + 1) (same-IsRead c)
get_node-IsRead (some a) key now c = elim (Bool-cases (is_expired now a c)) [
  | inl e ↦
      let d = evict_key key c in
      rw e (recounted-IsRead c d d.hits (d.misses + 1) (evicted-IsRead (lookup key c.cache) key c))
  | inr e ↦
      let d = accessed a c in
      rw e (recounted-IsRead c d (d.hits + 1) d.misses (accessed-IsRead a c))
]

pub get_handler-IsRead :
    (method path : Bytes) (now : ℕ) (c : RouteCache) → IsRead c (get_handler method path now c).1
unfolding get_handler
get_handler-IsRead method path now c =
    get_node-IsRead (lookup (build_key method path) c.cache) (build_key method path) now c
