-- ===== src/Router/Table/Writes.antt =====
-- internal/router/cache.go: Put writes one key and its handler, and may take another key out.
use icapmock.Prelude.{
  ℕ, ◌+◌, ◌<◌, ◌≡◌, ◌≢◌, ◌⊎◌, refl, ◌∙◌, sym, ap, subst, Bool, true, false, if◌then◌else◌, Option,
  none, some, List, arith, leb, Bytes, ◌=ᵇ◌, =ᵇ_iff, length, inl, inr, Bool-cases, Option-cases,
}
use native.Mathlib.Decide.{ℕ_discrete}
use icapmock.Prelude.Maps.{lookup, insert, lookup-insert}
use icapmock.Router.Cache.{LruNode, RouteCache}
use icapmock.Router.Cache.Methods.{
  build_key, drop_node, evict_tail, evict_lru, set_node, update_node, new_node, add_node, put_node,
  put_handler,
}
use icapmock.Router.Cache.Methods.Entries.{
  remove_node-IsRelinked, add_to_front-IsRelinked, move_to_front-IsRelinked,
}
use icapmock.Router.Cache.Methods.Valid.{IsCache, own_cell}
use icapmock.Router.Table.Reads.{IsRead, drop_node-IsRead, same-IsRead}

-- What the map holds afterwards: the key with its handler, or what it held before.
pub record IsWritten (key : Bytes) (h : ℕ) (c d : RouteCache) : Type 0 where
  pub table :
      (k : Bytes) (x : ℕ)
      → lookup k d.cache ≡ some x
      → ((k ≡ key) × ((d.nodes x).handler ≡ h))
        ⊎ ((lookup k c.cache ≡ some x) × ((d.nodes x).handler ≡ (c.nodes x).handler))

other_handler :
    (a x : ℕ) (n : LruNode) (c : RouteCache)
    → x ≢ a
    → ((set_node a n c).nodes x).handler ≡ (c.nodes x).handler
other_handler a x n c ne = ground arith

update_node-IsWritten :
    (a : ℕ) (key : Bytes) (h now : ℕ) (c : RouteCache) (xs : List ℕ)
    → IsCache c xs
    → lookup key c.cache ≡ some a
    → IsWritten key h c (update_node a h now c)
unfolding update_node
update_node-IsWritten a key h now c xs v at_key =
    let n = record (c.nodes a) {
      handler = h;
      timestamp = now;
      access_count = (c.nodes a).access_count + 1;
    } in
    let d = set_node a n c in
    let same = move_to_front-IsRelinked a d in
    record {
      table = λ k x e.
          let before : lookup k c.cache ≡ some x = ap (lookup k) (sym same.table) ∙ e in
          elim (ℕ_discrete x a) [
            | yes q ↦
                let one = (v.held key a at_key).1 in
                let two = (v.held k a (before ∙ ap some q)).1 in
                let own : (d.nodes a).handler ≡ h =
                  ap (λ (m : LruNode). m.handler) (own_cell a n c) in
                inl (sym two ∙ one, same.handler x ∙ ap (λ (t : ℕ). (d.nodes t).handler) q ∙ own)
            | no ne ↦ inr (before, same.handler x ∙ other_handler a x n c ne)
          ];
    }

-- The nodes in the map have been made.
abbrev IsMade : RouteCache → Type 0
IsMade c = (k : Bytes) (x : ℕ) → lookup k c.cache ≡ some x → x < c.fresh

add_node-IsWritten :
    (key : Bytes) (h now : ℕ) (c : RouteCache) → IsMade c → IsWritten key h c (add_node key h now c)
unfolding add_node
add_node-IsWritten key h now c made =
    let a = c.fresh in
    let n = new_node key h now in
    let d = set_node a n c in
    let mid : RouteCache = record d { cache = insert key a c.cache; fresh = a + 1 } in
    let same = add_to_front-IsRelinked a mid in
    record {
      table = λ k x e.
          let f = rw (same.table, lookup-insert key k a c.cache) at e in
          elim (Bool-cases (key =ᵇ k)) [
            | inl t ↦
                let q : a ≡ x = ground (arith, f, t) in
                let own : (d.nodes a).handler ≡ h =
                  ap (λ (m : LruNode). m.handler) (own_cell a n c) in
                inl (
                  sym ((=ᵇ_iff key k).0 t),
                  same.handler x ∙ ap (λ (t : ℕ). (d.nodes t).handler) (sym q) ∙ own,
                )
            | inr t ↦
                let before : lookup k c.cache ≡ some x = ground (arith, f, t) in
                let low = made k x before in
                let ne : x ≢ a = λ q. omega (arith, q, low) in
                inr (before, same.handler x ∙ other_handler a x n c ne)
          ];
    }

evict_tail-IsRead :
    (o : Option ℕ) (c : RouteCache) → IsRead c (evict_tail o c) × ((evict_tail o c).fresh ≡ c.fresh)
unfolding drop_node
evict_tail-IsRead none c = (same-IsRead c, refl)
evict_tail-IsRead (some t) c =
    (drop_node-IsRead t (c.nodes t).key c, (remove_node-IsRelinked t c).bound)

make_room-IsRead :
    (full : Bool) (c : RouteCache)
    → IsRead c (if full then evict_lru c else c)
      × ((if full then evict_lru c else c).fresh ≡ c.fresh)
unfolding evict_lru
make_room-IsRead false c = (same-IsRead c, refl)
make_room-IsRead true c = evict_tail-IsRead c.tail c

IsWritten-IsRead :
    (key : Bytes) (h : ℕ) (c d e : RouteCache)
    → IsRead c d
    → IsWritten key h d e
    → IsWritten key h c e
IsWritten-IsRead key h c d e r w = record {
  table = λ k x f. elim (w.table k x f) [
    | inl done ↦ inl done
    | inr (before, same) ↦ inr (r.table k x before, same ∙ r.handler x)
  ];
}

pub put_handler-IsWritten :
    (method path : Bytes) (h now : ℕ) (c : RouteCache) (xs : List ℕ)
    → IsCache c xs
    → IsWritten (build_key method path) h c (put_handler method path (some h) now c)
unfolding put_handler
put_handler-IsWritten method path h now c xs v =
    let key = build_key method path in
    elim (Option-cases (lookup key c.cache)) [
      | inl e ↦
          let room = if leb c.max_entries (length c.cache) then evict_lru c else c in
          let (read, bound) = make_room-IsRead (leb c.max_entries (length c.cache)) c in
          let made : IsMade room = λ k x f.
            (let (m, _) = v.held k x (read.table k x f) in
              let low = v.bounded x m in omega (arith, bound, low)) in
          subst (λ (o : Option ℕ). IsWritten key h c (put_node o key h now c)) (sym e)
            (IsWritten-IsRead key h c room (add_node key h now room) read
              (add_node-IsWritten key h now room made))
      | inr (a, e) ↦
          subst (λ (o : Option ℕ). IsWritten key h c (put_node o key h now c)) (sym e)
            (update_node-IsWritten a key h now c xs v e)
    ]
