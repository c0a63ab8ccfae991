-- ===== src/Router/Cache/Methods/Valid.antt =====
-- internal/router/cache.go: every method keeps the list, the map and the limit of the cache together.
use icapmock.Prelude.{
  ℕ, suc, ◌+◌, ◌<◌, ◌≡◌, ◌≢◌, refl, ◌∙◌, sym, ap, subst, true, false, Option, none, some, List, [],
  ◌∷◌, ◌++◌, arith, ◌==◌, ==_iff, Bytes, ◌=ᵇ◌, =ᵇ_iff, =ᵇ_refl, length, inl, inr, Bool-cases,
  append-nil,
}
use native.Mathlib.Decide.{ℕ_discrete}
use icapmock.Prelude.Maps.{lookup, insert, lookup-insert, lookup-delete}
use icapmock.Router.Cache.{LruNode, RouteCache, remove_node, move_to_front}
use icapmock.Router.Cache.Links.{IsDistinct-drop, IsLinked-frame, elem, final-append}
use icapmock.Router.Cache.Order.{
  HasOrder, prev_of, next_of, remove_node-HasOrder, add_to_front-HasOrder, move_to_front-HasOrder,
}
use icapmock.Router.Cache.Methods.{drop_node, evict_tail, evict_lru, set_node, new_node, add_node}
use icapmock.Router.Cache.Methods.Entries.{
  remove_node-IsRelinked, add_to_front-IsRelinked, move_to_front-IsRelinked,
}
use icapmock.Router.Cache.Methods.Table.{
  IsUnique, IsUnique-insert, IsUnique-delete, length-insert_new, length-delete, elem-middle,
  length-middle,
}

-- The list holds the nodes `xs`, the most recently used first; the map has each of them, and no other
-- node, under its key.
pub record IsCache (c : RouteCache) (xs : List ℕ) : Type 0 where
  pub order : HasOrder c xs
  pub unique : IsUnique c.cache
  pub keyed : (x : ℕ) → elem x xs ≡ true → lookup (c.nodes x).key c.cache ≡ some x
  pub held :
      (k : Bytes) (x : ℕ) → lookup k c.cache ≡ some x → (elem x xs ≡ true) × ((c.nodes x).key ≡ k)
  pub bounded : (x : ℕ) → elem x xs ≡ true → x < c.fresh
  pub sized : length c.cache ≡ length xs

elem_self : (a : ℕ) (l r : List ℕ) → elem a (l ++ a ∷ r) ≡ true
elem_self a l r = elem-middle a a l r ∙ ground arith

elem_behind : (x a : ℕ) (l r : List ℕ) → elem x (l ++ r) ≡ true → elem x (l ++ a ∷ r) ≡ true
elem_behind x a l r h = elem-middle x a l r ∙ ground (arith, h)

elem_other : (x a : ℕ) (l r : List ℕ) → elem x (l ++ a ∷ r) ≡ true → x ≢ a → elem x (l ++ r) ≡ true
elem_other x a l r h ne = ground (arith, sym (elem-middle x a l r) ∙ h, ne)

elem_not : (x a : ℕ) (l : List ℕ) → elem x l ≡ true → elem a l ≡ false → x ≢ a
elem_not x a l h k e = let f = subst (λ (t : ℕ). elem t l ≡ true) e h in cc

-- Dropping a node under its key.
pub drop_node-IsCache :
    (a : ℕ) (key : Bytes) (c : RouteCache) (l r : List ℕ)
    → IsCache c (l ++ a ∷ r)
    → (c.nodes a).key ≡ key
    → IsCache (drop_node a key c) (l ++ r)
unfolding drop_node
drop_node-IsCache a key c l r v e =
    let d = remove_node a c in
    let same = remove_node-IsRelinked a c in
    let (_, out, _) = IsDistinct-drop a l r v.order.distinct in
    let order = remove_node-HasOrder a c l r v.order in
    let at_key : lookup key c.cache ≡ some a =
      subst (λ (k : Bytes). lookup k c.cache ≡ some a) e (v.keyed a (elem_self a l r)) in
    record {
      order = record {
        linked = order.linked;
        distinct = order.distinct;
        first = order.first;
        last = order.last;
      };
      unique = rw (same.table) (IsUnique-delete key c.cache v.unique);
      keyed = λ x m.
          let here = v.keyed x (elem_behind x a l r m) in
          let ne = elem_not x a (l ++ r) m out in
          rw (same.table, same.key x, lookup-delete key (c.nodes x).key c.cache)
            (ground (arith, here, at_key, ne, =ᵇ_iff key (c.nodes x).key));
      held = λ k x h.
          let f = rw (same.table, lookup-delete key k c.cache) at h in
          let g : lookup k c.cache ≡ some x = ground (arith, f) in
          let (m, n) = v.held k x g in
          let differs : (key =ᵇ k) ≡ false = ground (arith, f) in
          let ne : x ≢ a = λ q.
            (let w = sym n ∙ ap (λ (t : ℕ). (c.nodes t).key) q ∙ e in
              let u = (=ᵇ_iff key k).1 (sym w) in cc) in
          (elem_other x a l r m ne, same.key x ∙ n);
      bounded = λ x m. rw (same.bound) (v.bounded x (elem_behind x a l r m));
      sized =
          let one = length-delete key a c.cache v.unique at_key in
          let two = length-middle a l r in rw (same.table) (omega (arith, one, two, v.sized));
    }

-- A list whose links did not change.
HasOrder-frame :
    (c d : RouteCache) (xs : List ℕ)
    → ((x : ℕ) → elem x xs ≡ true → (prev_of d x ≡ prev_of c x) × (next_of d x ≡ next_of c x))
    → d.head ≡ c.head
    → d.tail ≡ c.tail
    → HasOrder c xs
    → HasOrder d xs
HasOrder-frame c d xs same first last o = record {
  linked = IsLinked-frame (prev_of c) (next_of c) (prev_of d) (next_of d) none xs same o.linked;
  distinct = o.distinct;
  first = first ∙ o.first;
  last = last ∙ o.last;
}

same_cell :
    (a x : ℕ) (n : LruNode) (c : RouteCache)
    → n.prev ≡ (c.nodes a).prev
    → n.next ≡ (c.nodes a).next
    → n.key ≡ (c.nodes a).key
    → (prev_of (set_node a n c) x ≡ prev_of c x)
      × (next_of (set_node a n c) x ≡ next_of c x)
      × (((set_node a n c).nodes x).key ≡ (c.nodes x).key)
same_cell a x n c ep en ek = elim (ℕ_discrete x a) [
  | yes e ↦ rw e (ground (arith, ep), ground (arith, en), ground (arith, ek))
  | no ne ↦ (ground arith, ground arith, ground arith)
]

-- Writing the entry of a node whose links and key stay.
pub touch-IsCache :
    (a : ℕ) (n : LruNode) (c : RouteCache) (xs : List ℕ)
    → IsCache c xs
    → n.prev ≡ (c.nodes a).prev
    → n.next ≡ (c.nodes a).next
    → n.key ≡ (c.nodes a).key
    → IsCache (set_node a n c) xs
touch-IsCache a n c xs v ep en ek =
    let cell = λ (x : ℕ). same_cell a x n c ep en ek in
    record {
      order =
          HasOrder-frame c (set_node a n c) xs (λ x m. ((cell x).0, (cell x).1)) refl refl v.order;
      unique = v.unique;
      keyed = λ x m. ap (λ (k : Bytes). lookup k c.cache) (cell x).2 ∙ v.keyed x m;
      held = λ k x h. let (m, e) = v.held k x h in (m, (cell x).2 ∙ e);
      bounded = v.bounded;
      sized = v.sized;
    }

pub front-IsCache :
    (a : ℕ) (c : RouteCache) (l r : List ℕ)
    → IsCache c (l ++ a ∷ r)
    → IsCache (move_to_front a c) (a ∷ (l ++ r))
front-IsCache a c l r v =
    let same = move_to_front-IsRelinked a c in
    record {
      order = move_to_front-HasOrder a c l r v.order;
      unique = rw (same.table) v.unique;
      keyed = λ x m. rw (same.table, same.key x) (v.keyed x (elem-middle x a l r ∙ m));
      held = λ k x h.
          let (m, n) = v.held k x (rw (same.table) at h) in
          (sym (elem-middle x a l r) ∙ m, same.key x ∙ n);
      bounded = λ x m. rw (same.bound) (v.bounded x (elem-middle x a l r ∙ m));
      sized = rw (same.table) (v.sized ∙ length-middle a l r);
    }

other_cell :
    (a x : ℕ) (n : LruNode) (c : RouteCache)
    → x ≢ a
    → (prev_of (set_node a n c) x ≡ prev_of c x)
      × (next_of (set_node a n c) x ≡ next_of c x)
      × (((set_node a n c).nodes x).key ≡ (c.nodes x).key)
other_cell a x n c ne = (ground arith, ground arith, ground arith)

pub own_cell : (a : ℕ) (n : LruNode) (c : RouteCache) → (set_node a n c).nodes a ≡ n
own_cell a n c = ground arith

not_in_use : (c : RouteCache) (xs : List ℕ) → IsCache c xs → elem c.fresh xs ≡ false
not_in_use c xs v = elim (Bool-cases (elem c.fresh xs)) [
  | inl e ↦ absurd (let h = v.bounded c.fresh e in omega arith)
  | inr e ↦ e
]

in_bounds :
    (x a : ℕ) (xs : List ℕ)
    → ((y : ℕ) → elem y xs ≡ true → y < a)
    → elem x (a ∷ xs) ≡ true
    → x < a + 1
in_bounds x a xs h m = elim (Bool-cases (a == x)) [
  | inl e ↦ let q = (==_iff a x).0 e in omega (arith, q)
  | inr e ↦ let k = h x (ground (arith, m, e)) in omega (arith, k)
]

-- A new node in front, under a key that the map does not have.
pub add_node-IsCache :
    (key : Bytes) (h now : ℕ) (c : RouteCache) (xs : List ℕ)
    → IsCache c xs
    → lookup key c.cache ≡ none
    → IsCache (add_node key h now c) (c.fresh ∷ xs)
unfolding add_node
add_node-IsCache key h now c xs v absent =
    let a = c.fresh in
    let n = new_node key h now in
    let mid : RouteCache = record (set_node a n c) {
      cache = insert key a c.cache;
      fresh = a + 1;
    } in
    let out = not_in_use c xs v in
    let same = add_to_front-IsRelinked a mid in
    let cell = λ (x : ℕ) (m : elem x xs ≡ true). other_cell a x n c (elem_not x a xs m out) in
    let own : (mid.nodes a).key ≡ key = ap (λ (k : LruNode). k.key) (own_cell a n c) in
    let order = HasOrder-frame c mid xs (λ x m. ((cell x m).0, (cell x m).1)) refl refl v.order in
    record {
      order = add_to_front-HasOrder a mid xs order out;
      unique = rw (same.table) (IsUnique-insert key a c.cache v.unique);
      keyed = λ x m. elim (Bool-cases (a == x)) [
        | inl e ↦
            let q : a ≡ x = (==_iff a x).0 e in
            rw (same.table, same.key x)
              (subst (λ (t : ℕ). lookup (mid.nodes t).key mid.cache ≡ some t) q
                (ap (λ (k : Bytes). lookup k mid.cache) own
                  ∙ lookup-insert key key a c.cache
                  ∙ rw (=ᵇ_refl key) refl))
        | inr e ↦
            let inside : elem x xs ≡ true = ground (arith, m, e) in
            let here = v.keyed x inside in
            let other = lookup-insert key (c.nodes x).key a c.cache in
            rw (same.table, same.key x)
              (ap (λ (k : Bytes). lookup k mid.cache) (cell x inside).2
                ∙ other
                ∙ ground (arith, here, absent, =ᵇ_iff key (c.nodes x).key))
      ];
      held = λ k x f.
          let g = rw (same.table, lookup-insert key k a c.cache) at f in
          elim (Bool-cases (key =ᵇ k)) [
            | inl e ↦
                let q : a ≡ x = ground (arith, g, e) in
                (
                  ground (arith, ==_iff a x, q),
                  same.key x
                      ∙ subst (λ (t : ℕ). (mid.nodes t).key ≡ k) q (own ∙ (=ᵇ_iff key k).0 e),
                )
            | inr e ↦
                let (m, w) = v.held k x (ground (arith, g, e)) in
                (ground (arith, m), same.key x ∙ ((cell x m).2 ∙ w))
          ];
      bounded = λ x m. rw (same.bound) (in_bounds x a xs v.bounded m);
      sized = rw (same.table) (length-insert_new key a c.cache absent ∙ ap suc v.sized);
    }

-- Evicting the least recently used node takes the last one.
pub evict_lru-IsCache :
    (c : RouteCache) (l : List ℕ) (z : ℕ) → IsCache c (l ++ z ∷ []) → IsCache (evict_lru c) l
unfolding evict_lru
evict_lru-IsCache c l z v =
    let tail : c.tail ≡ some z = v.order.last ∙ final-append none l [] z in
    subst (λ (o : Option ℕ). IsCache (evict_tail o c) l) (sym tail)
      (subst (IsCache (drop_node z (c.nodes z).key c)) (append-nil l)
        (drop_node-IsCache z (c.nodes z).key c l [] v refl))
