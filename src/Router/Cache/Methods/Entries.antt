-- ===== src/Router/Cache/Methods/Entries.antt =====
-- internal/router/cache.go: relinking the list leaves the entries of the nodes and the map alone.
use icapmock.Prelude.{
  ℕ, ◌≡◌, refl, ◌∙◌, Option, none, some, arith, inl, inr, Bool-cases, Option-cases,
}
use native.Mathlib.Decide.{ℕ_discrete}
use icapmock.Router.Cache.{
  RouteCache, set_next, set_prev, unlink_prev, unlink_next, remove_node, link_old_head, link_tail,
  add_to_front, is_head, move_to_front,
}

-- The caches differ in the links and the ends of the list only.
pub record IsRelinked (c d : RouteCache) : Type 0 where
  pub key : (x : ℕ) → (d.nodes x).key ≡ (c.nodes x).key
  pub handler : (x : ℕ) → (d.nodes x).handler ≡ (c.nodes x).handler
  pub table : d.cache ≡ c.cache
  pub bound : d.fresh ≡ c.fresh
  pub limit : d.max_entries ≡ c.max_entries

pub IsRelinked-refl : (c : RouteCache) → IsRelinked c c
IsRelinked-refl c = record {
  key = λ x. refl;
  handler = λ x. refl;
  table = refl;
  bound = refl;
  limit = refl;
}

pub IsRelinked-trans : (c d e : RouteCache) → IsRelinked c d → IsRelinked d e → IsRelinked c e
IsRelinked-trans c d e h k = record {
  key = λ x. k.key x ∙ h.key x;
  handler = λ x. k.handler x ∙ h.handler x;
  table = k.table ∙ h.table;
  bound = k.bound ∙ h.bound;
  limit = k.limit ∙ h.limit;
}

set_next-IsRelinked : (a : ℕ) (o : Option ℕ) (c : RouteCache) → IsRelinked c (set_next a o c)
set_next-IsRelinked a o c = record {
  key = λ x. elim (ℕ_discrete x a) [ yes e ↦ rw e (ground arith) | no ne ↦ ground arith ];
  handler = λ x. elim (ℕ_discrete x a) [ yes e ↦ rw e (ground arith) | no ne ↦ ground arith ];
  table = refl;
  bound = refl;
  limit = refl;
}

set_prev-IsRelinked : (a : ℕ) (o : Option ℕ) (c : RouteCache) → IsRelinked c (set_prev a o c)
set_prev-IsRelinked a o c = record {
  key = λ x. elim (ℕ_discrete x a) [ yes e ↦ rw e (ground arith) | no ne ↦ ground arith ];
  handler = λ x. elim (ℕ_discrete x a) [ yes e ↦ rw e (ground arith) | no ne ↦ ground arith ];
  table = refl;
  bound = refl;
  limit = refl;
}

-- Only the ends change.
ends-IsRelinked : (c : RouteCache) (h t : Option ℕ) → IsRelinked c (record c { head = h; tail = t })
ends-IsRelinked c h t = record {
  key = λ x. refl;
  handler = λ x. refl;
  table = refl;
  bound = refl;
  limit = refl;
}

unlink_prev-IsRelinked : (a : ℕ) (c : RouteCache) → IsRelinked c (unlink_prev a c)
unfolding unlink_prev
unlink_prev-IsRelinked a c = elim (Option-cases (c.nodes a).prev) [
  | inl e ↦ rw (unlink_prev, e) (ends-IsRelinked c (c.nodes a).next c.tail)
  | inr (p, e) ↦ rw (unlink_prev, e) (set_next-IsRelinked p (c.nodes a).next c)
]

unlink_next-IsRelinked : (a : ℕ) (c : RouteCache) → IsRelinked c (unlink_next a c)
unfolding unlink_next
unlink_next-IsRelinked a c = elim (Option-cases (c.nodes a).next) [
  | inl e ↦ rw (unlink_next, e) (ends-IsRelinked c c.head (c.nodes a).prev)
  | inr (n, e) ↦ rw (unlink_next, e) (set_prev-IsRelinked n (c.nodes a).prev c)
]

pub remove_node-IsRelinked : (a : ℕ) (c : RouteCache) → IsRelinked c (remove_node a c)
unfolding remove_node
remove_node-IsRelinked a c =
    let d = unlink_prev a c in
    let e = unlink_next a d in
    let f = set_prev a none e in
    IsRelinked-trans c d (set_next a none f) (unlink_prev-IsRelinked a c) (
      IsRelinked-trans d e (set_next a none f) (unlink_next-IsRelinked a d) (
        IsRelinked-trans e f (set_next a none f) (set_prev-IsRelinked a none e)
          (set_next-IsRelinked a none f)))

old_head-IsRelinked :
    (a : ℕ) (c : RouteCache) (o : Option ℕ)
    → IsRelinked c (elim o [ some h ↦ set_prev h (some a) c | none ↦ c ])
old_head-IsRelinked a c none = IsRelinked-refl c
old_head-IsRelinked a c (some h) = set_prev-IsRelinked h (some a) c

link_old_head-IsRelinked : (a : ℕ) (c : RouteCache) → IsRelinked c (link_old_head a c)
unfolding link_old_head
link_old_head-IsRelinked a c = old_head-IsRelinked a c c.head

old_tail-IsRelinked :
    (a : ℕ) (c : RouteCache) (o : Option ℕ)
    → IsRelinked c (elim o [ some t ↦ c | none ↦ record c { tail = some a } ])
old_tail-IsRelinked a c none = ends-IsRelinked c c.head (some a)
old_tail-IsRelinked a c (some t) = IsRelinked-refl c

link_tail-IsRelinked : (a : ℕ) (c : RouteCache) → IsRelinked c (link_tail a c)
unfolding link_tail
link_tail-IsRelinked a c = old_tail-IsRelinked a c c.tail

pub add_to_front-IsRelinked : (a : ℕ) (c : RouteCache) → IsRelinked c (add_to_front a c)
unfolding add_to_front
add_to_front-IsRelinked a c =
    let d = set_prev a none c in
    let e = set_next a c.head d in
    let f = link_old_head a e in
    let g : RouteCache = record f { head = some a } in
    IsRelinked-trans c d (link_tail a g) (set_prev-IsRelinked a none c) (
      IsRelinked-trans d e (link_tail a g) (set_next-IsRelinked a c.head d) (
        IsRelinked-trans e f (link_tail a g) (link_old_head-IsRelinked a e) (
          IsRelinked-trans f g (link_tail a g) (ends-IsRelinked f (some a) f.tail)
            (link_tail-IsRelinked a g))))

pub move_to_front-IsRelinked : (a : ℕ) (c : RouteCache) → IsRelinked c (move_to_front a c)
unfolding move_to_front
move_to_front-IsRelinked a c = elim (Bool-cases (is_head a c.head)) [
  | inl e ↦ rw e (IsRelinked-refl c)
  | inr e ↦ rw e (
      IsRelinked-trans c (remove_node a c) (add_to_front a (remove_node a c))
        (remove_node-IsRelinked a c) (add_to_front-IsRelinked a (remove_node a c)))
]
