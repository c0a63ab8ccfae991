-- ===== src/Router/Cache/Methods/Reading.antt =====
-- internal/router/cache.go: what Get, Delete and Clear do to the cache.
use icapmock.Prelude.{
  ℕ, ◌+◌, ◌%◌, ◌≡◌, ◌⊎◌, refl, sym, subst, true, false, Option, none, some, List, [], ◌∷◌, ◌++◌,
  ◌==◌, Bytes, inl, inr, Bool-cases, Option-cases,
}
use icapmock.Prelude.Maps.{lookup}
use icapmock.Router.Cache.{LruNode, RouteCache}
use icapmock.Router.Cache.Methods.{
  new_route_cache, build_key, drop_node, evict_found, evict_key, set_node, is_expired, accessed,
  missed, get_node, get_handler, clear,
}
use icapmock.Router.Cache.Methods.Table.{elem-split}
use icapmock.Router.Cache.Methods.Valid.{IsCache, drop_node-IsCache, touch-IsCache, front-IsCache}

-- Nothing is relinked and the map is the same.
recount-IsCache :
    (c : RouteCache) (xs : List ℕ) (h m : ℕ)
    → IsCache c xs
    → IsCache (record c { hits = h; misses = m }) xs
recount-IsCache c xs h m v = record {
  order = record {
    linked = v.order.linked;
    distinct = v.order.distinct;
    first = v.order.first;
    last = v.order.last;
  };
  unique = v.unique;
  keyed = v.keyed;
  held = v.held;
  bounded = v.bounded;
  sized = v.sized;
}

abbrev Moved : ℕ → List ℕ → List ℕ → Type 0
Moved a xs ys = (ys ≡ xs) ⊎ ((l r : List ℕ) × (xs ≡ l ++ a ∷ r) × (ys ≡ a ∷ (l ++ r)))

accessed-IsCache :
    (a : ℕ) (c : RouteCache) (l r : List ℕ)
    → IsCache c (l ++ a ∷ r)
    → (ys : List ℕ) × IsCache (accessed a c) ys × Moved a (l ++ a ∷ r) ys
unfolding accessed
accessed-IsCache a c l r v =
    let count = (c.nodes a).access_count + 1 in
    let n = record (c.nodes a) { access_count = count } in
    let w = touch-IsCache a n c (l ++ a ∷ r) v refl refl refl in
    elim (Bool-cases (count % 10 == 0)) [
      | inl e ↦ rw e (a ∷ (l ++ r), front-IsCache a (set_node a n c) l r w, inr (l, r, refl, refl))
      | inr e ↦ rw e (l ++ a ∷ r, w, inl refl)
    ]

-- What Get gives, and the list afterwards: a miss; an expired node, which goes; or a hit, after which
-- the node may have moved to the front.
abbrev pub Got : Bytes → ℕ → RouteCache → List ℕ → Option ℕ × RouteCache → Type 0
Got key now c xs (o, d) =
    ((lookup key c.cache ≡ none) × (o ≡ none) × IsCache d xs)
    ⊎ ((a : ℕ) × (lookup key c.cache ≡ some a)
        × (is_expired now a c ≡ true)
        × (o ≡ none)
        × ((l r : List ℕ) × (xs ≡ l ++ a ∷ r) × IsCache d (l ++ r)))
    ⊎ ((a : ℕ) × (lookup key c.cache ≡ some a)
        × (is_expired now a c ≡ false)
        × (o ≡ some (c.nodes a).handler)
        × ((ys : List ℕ) × IsCache d ys × Moved a xs ys))

get_node-Got :
    (a : ℕ) (key : Bytes) (now : ℕ) (c : RouteCache) (l r : List ℕ)
    → IsCache c (l ++ a ∷ r)
    → lookup key c.cache ≡ some a
    → Got key now c (l ++ a ∷ r) (get_node (some a) key now c)
unfolding evict_key
get_node-Got a key now c l r v e =
    let (m, k) = v.held key a e in
    elim (Bool-cases (is_expired now a c)) [
      | inl x ↦
          let d = drop_node a key c in
          let gone =
            recount-IsCache d (l ++ r) d.hits (d.misses + 1) (drop_node-IsCache a key c l r v k) in
          rw x (
            inr (
              inl (
                a,
                e,
                x,
                refl,
                (
                  l,
                  r,
                  refl,
                  subst (λ (o : Option ℕ). IsCache (missed (evict_found o key c)) (l ++ r)) (sym e)
                      gone,
                ),
              )))
      | inr x ↦
          let (ys, w, moved) = accessed-IsCache a c l r v in
          let d = accessed a c in
          rw x
            (inr (inr (a, e, x, refl, (ys, recount-IsCache d ys (d.hits + 1) d.misses w, moved))))
    ]

found-Got :
    (a : ℕ) (key : Bytes) (now : ℕ) (c : RouteCache) (xs : List ℕ)
    → IsCache c xs
    → lookup key c.cache ≡ some a
    → Got key now c xs (get_node (some a) key now c)
found-Got a key now c xs v e =
    let (m, k) = v.held key a e in
    let (l, r, f) = elem-split a xs m in
    subst (λ (t : List ℕ). Got key now c t (get_node (some a) key now c)) (sym f)
      (get_node-Got a key now c l r (subst (IsCache c) f v) e)

-- Get keeps the list and the map of the cache together, and gives the handler of the key's node, if
-- there is one and it has not expired: that stays, or moves to the front, and the others keep their
-- order. An expired node is taken out. Otherwise the list is as it was.
pub get_handler-Got :
    (method path : Bytes) (now : ℕ) (c : RouteCache) (xs : List ℕ)
    → IsCache c xs
    → Got (build_key method path) now c xs (get_handler method path now c)
unfolding get_handler
get_handler-Got method path now c xs v =
    let key = build_key method path in
    elim (Option-cases (lookup key c.cache)) [
      | inl e ↦
          subst (λ (o : Option ℕ). Got key now c xs (get_node o key now c)) (sym e)
            (inl (e, refl, recount-IsCache c xs c.hits (c.misses + 1) v))
      | inr (a, e) ↦
          subst (λ (o : Option ℕ). Got key now c xs (get_node o key now c)) (sym e)
            (found-Got a key now c xs v e)
    ]

-- A new cache, and one that is cleared, is empty.
pub empty-IsCache :
    (max_entries ttl : ℕ) (nodes : ℕ → LruNode) (c : RouteCache)
    → IsCache (new_route_cache max_entries ttl nodes) [] × IsCache (clear c) []
unfolding new_route_cache clear lookup
empty-IsCache max_entries ttl nodes c = (
  record {
    order = record { linked = tt; distinct = tt; first = refl; last = refl };
    unique = tt;
    keyed = λ x m. absurd (cc);
    held = λ k x h. absurd (cc);
    bounded = λ x m. absurd (cc);
    sized = refl;
  },
  record {
    order = record { linked = tt; distinct = tt; first = refl; last = refl };
    unique = tt;
    keyed = λ x m. absurd (cc);
    held = λ k x h. absurd (cc);
    bounded = λ x m. absurd (cc);
    sized = refl;
  },
)
