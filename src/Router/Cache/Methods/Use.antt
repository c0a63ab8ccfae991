-- ===== src/Router/Cache/Methods/Use.antt =====
-- internal/router/cache.go: what Put and Get do to the cache, in every case.
use icapmock.Prelude.{
  ℕ, ◌+◌, ◌<◌, ◌≤◌, ◌≡◌, ◌⊎◌, refl, ◌∙◌, sym, ap, subst, Option, none, some, List, [], ◌∷◌, ◌++◌,
  arith, leb, leb→le, Bytes, length, inl, inr, Bool-cases, Option-cases, head?, append-nil,
}
use icapmock.Prelude.Maps.{lookup, delete, lookup-delete}
use icapmock.Router.Cache.{LruNode, RouteCache}
use icapmock.Router.Cache.Links.{final-append}
use icapmock.Router.Cache.Methods.{
  build_key, drop_node, evict_tail, evict_lru, set_node, update_node, new_node, add_node, put_node,
  put_handler,
}
use icapmock.Router.Cache.Methods.Entries.{
  remove_node-IsRelinked, add_to_front-IsRelinked, move_to_front-IsRelinked,
}
use icapmock.Router.Cache.Methods.Table.{elem-split, elem-middle, length-middle}
use icapmock.Router.Cache.Methods.Valid.{
  IsCache, touch-IsCache, front-IsCache, add_node-IsCache, evict_lru-IsCache, own_cell,
}

-- How the nodes change: the node of the key moves to the front; or a new one comes in front, and where
-- the cache is full the last one goes.
abbrev pub Renewed : Bytes → RouteCache → List ℕ → List ℕ → ℕ → Type 0
Renewed key c xs ys a =
    ((lookup key c.cache ≡ some a) × ((l r : List ℕ) × (xs ≡ l ++ a ∷ r) × (ys ≡ a ∷ (l ++ r))))
    ⊎ ((lookup key c.cache ≡ none) × (length xs < c.max_entries) × (ys ≡ a ∷ xs))
    ⊎ ((lookup key c.cache ≡ none)
        × (length xs ≡ c.max_entries)
        × ((l : List ℕ) × (z : ℕ) × (xs ≡ l ++ z ∷ []) × (ys ≡ a ∷ l)))

pub record IsPut (key : Bytes) (h : ℕ) (c d : RouteCache) (xs ys : List ℕ) (a : ℕ) : Type 0 where
  pub valid : IsCache d ys
  pub within : length ys ≤ c.max_entries
  pub limit : d.max_entries ≡ c.max_entries
  pub first : head? ys ≡ some a
  pub key_of : (d.nodes a).key ≡ key
  pub handler_of : (d.nodes a).handler ≡ h
  pub renewed : Renewed key c xs ys a

snoc_split : (x : ℕ) (xs : List ℕ) → (l : List ℕ) × (z : ℕ) × (x ∷ xs ≡ l ++ z ∷ [])
snoc_split x [] = ([], x, refl)
snoc_split x (y ∷ xs) = let (l, z, e) = snoc_split y xs in (x ∷ l, z, ap (λ (t : List ℕ). x ∷ t) e)

update-IsPut :
    (a h now : ℕ) (c : RouteCache) (l r : List ℕ)
    → IsCache c (l ++ a ∷ r)
    → length (l ++ a ∷ r) ≤ c.max_entries
    → IsPut (c.nodes a).key h c (update_node a h now c) (l ++ a ∷ r) (a ∷ (l ++ r)) a
unfolding update_node
update-IsPut a h now c l r v room =
    let n = record (c.nodes a) {
      handler = h;
      timestamp = now;
      access_count = (c.nodes a).access_count + 1;
    } in
    let d = set_node a n c in
    let same = move_to_front-IsRelinked a d in
    let own = own_cell a n c in
    let at_key = v.keyed a (elem-middle a a l r ∙ ground arith) in
    record {
      valid = front-IsCache a d l r (touch-IsCache a n c (l ++ a ∷ r) v refl refl refl);
      within = let e = length-middle a l r in omega (arith, e);
      limit = same.limit;
      first = refl;
      key_of = same.key a ∙ ap (λ (k : LruNode). k.key) own;
      handler_of = same.handler a ∙ ap (λ (k : LruNode). k.handler) own;
      renewed = inl (at_key, (l, r, refl, refl));
    }

added_limit :
    (key : Bytes) (h now : ℕ) (c : RouteCache) → (add_node key h now c).max_entries ≡ c.max_entries
unfolding add_node
added_limit key h now c = (add_to_front-IsRelinked c.fresh _).limit

added_entry :
    (key : Bytes) (h now : ℕ) (c : RouteCache)
    → (((add_node key h now c).nodes c.fresh).key ≡ key)
      × (((add_node key h now c).nodes c.fresh).handler ≡ h)
unfolding add_node
added_entry key h now c =
    let own = own_cell c.fresh (new_node key h now) c in
    let same = add_to_front-IsRelinked c.fresh _ in
    (
      same.key c.fresh ∙ ap (λ (k : LruNode). k.key) own,
      same.handler c.fresh ∙ ap (λ (k : LruNode). k.handler) own,
    )

evicted :
    (c : RouteCache) (l : List ℕ) (z : ℕ)
    → IsCache c (l ++ z ∷ [])
    → ((evict_lru c).cache ≡ delete (c.nodes z).key c.cache)
      × ((evict_lru c).max_entries ≡ c.max_entries)
unfolding evict_lru drop_node
evicted c l z v =
    let tail : c.tail ≡ some z = v.order.last ∙ final-append none l [] z in
    let same = remove_node-IsRelinked z c in
    (
      ap (λ (o : Option ℕ). (evict_tail o c).cache) tail ∙ ap (delete (c.nodes z).key) same.table,
      ap (λ (o : Option ℕ). (evict_tail o c).max_entries) tail ∙ same.limit,
    )

add-IsPut :
    (key : Bytes) (h now : ℕ) (c : RouteCache) (xs : List ℕ)
    → IsCache c xs
    → lookup key c.cache ≡ none
    → length xs < c.max_entries
    → IsPut key h c (add_node key h now c) xs (c.fresh ∷ xs) c.fresh
add-IsPut key h now c xs v absent room = record {
  valid = add_node-IsCache key h now c xs v absent;
  within = omega arith;
  limit = added_limit key h now c;
  first = refl;
  key_of = (added_entry key h now c).0;
  handler_of = (added_entry key h now c).1;
  renewed = inr (inl (absent, room, refl));
}

full-IsPut :
    (key : Bytes) (h now : ℕ) (c : RouteCache) (l : List ℕ) (z : ℕ)
    → IsCache c (l ++ z ∷ [])
    → lookup key c.cache ≡ none
    → length (l ++ z ∷ []) ≡ c.max_entries
    → IsPut key h c
        (add_node key h now (evict_lru c))
        (l ++ z ∷ [])
        ((evict_lru c).fresh ∷ l)
        (evict_lru c).fresh
full-IsPut key h now c l z v absent full =
    let d = evict_lru c in
    let (table, limit) = evicted c l z v in
    let gone : lookup key d.cache ≡ none =
      ap (lookup key) table ∙ lookup-delete (c.nodes z).key key c.cache ∙ ground (arith, absent) in
    record {
      valid = add_node-IsCache key h now d l (evict_lru-IsCache c l z v) gone;
      within =
          let e = length-middle z l [] in
          let f = ap (length {A = ℕ}) (append-nil l) in omega (arith, e, f, full);
      limit = added_limit key h now d ∙ limit;
      first = refl;
      key_of = (added_entry key h now d).0;
      handler_of = (added_entry key h now d).1;
      renewed = inr (inr (absent, full, (l, z, refl, refl)));
    }

abbrev Put : Bytes → ℕ → RouteCache → RouteCache → List ℕ → Type 0
Put key h c d xs = (ys : List ℕ) × (a : ℕ) × IsPut key h c d xs ys a

found-Put :
    (a : ℕ) (key : Bytes) (h now : ℕ) (c : RouteCache) (xs : List ℕ)
    → IsCache c xs
    → length xs ≤ c.max_entries
    → lookup key c.cache ≡ some a
    → Put key h c (update_node a h now c) xs
found-Put a key h now c xs v room e =
    let (m, k) = v.held key a e in
    let (l, r, f) = elem-split a xs m in
    let done =
      update-IsPut a h now c l r (subst (IsCache c) f v)
        (subst (λ (t : List ℕ). length t ≤ c.max_entries) f room) in
    subst (λ (t : List ℕ). Put key h c (update_node a h now c) t) (sym f)
      (subst (λ (t : Bytes). Put t h c (update_node a h now c) (l ++ a ∷ r)) k
        (a ∷ (l ++ r), a, done))

full-Put :
    (key : Bytes) (h now : ℕ) (c : RouteCache) (xs : List ℕ)
    → IsCache c xs
    → length xs ≡ c.max_entries
    → 0 < length xs
    → lookup key c.cache ≡ none
    → Put key h c (add_node key h now (evict_lru c)) xs
full-Put key h now c [] v full pos absent = absurd (omega arith)
full-Put key h now c (x ∷ xs) v full pos absent =
    let (l, z, f) = snoc_split x xs in
    let done =
      full-IsPut key h now c l z (subst (IsCache c) f v) absent
        (subst (λ (t : List ℕ). length t ≡ c.max_entries) f full) in
    subst (λ (t : List ℕ). Put key h c (add_node key h now (evict_lru c)) t) (sym f)
      ((evict_lru c).fresh ∷ l, (evict_lru c).fresh, done)

absent-Put :
    (key : Bytes) (h now : ℕ) (c : RouteCache) (xs : List ℕ)
    → IsCache c xs
    → 0 < c.max_entries
    → length xs ≤ c.max_entries
    → lookup key c.cache ≡ none
    → Put key h c (put_node none key h now c) xs
absent-Put key h now c xs v pos room absent =
    elim (Bool-cases (leb c.max_entries (length c.cache))) [
      | inl e ↦
          let full = leb→le c.max_entries (length c.cache) e in
          rw e (
            full-Put key h now c xs v (omega (arith, full, room, v.sized))
              (omega (arith, full, pos, v.sized)) absent)
      | inr e ↦
          let some_room : length xs < c.max_entries = ground (arith, e, v.sized) in
          rw e (c.fresh ∷ xs, c.fresh, add-IsPut key h now c xs v absent some_room)
    ]

-- Put of a handler in a cache within its limit: afterwards the list and the map still fit together and
-- stay within the limit; the first node, the most recently used one, has the key and the handler;
-- it is the old node of that key moved to the front, or a new one, for which the least recently
-- used node goes where the cache was full; all others keep their order.
pub put_handler-IsPut :
    (method path : Bytes) (h now : ℕ) (c : RouteCache) (xs : List ℕ)
    → IsCache c xs
    → 0 < c.max_entries
    → length xs ≤ c.max_entries
    → (ys : List ℕ) × (a : ℕ) × IsPut
        (build_key method path)
        h
        c
        (put_handler method path (some h) now c)
        xs
        ys
        a
unfolding put_handler
put_handler-IsPut method path h now c xs v pos room =
    let key = build_key method path in
    elim (Option-cases (lookup key c.cache)) [
      | inl e ↦ rw e (absent-Put key h now c xs v pos room e)
      | inr (a, e) ↦ rw e (found-Put a key h now c xs v room e)
    ]
