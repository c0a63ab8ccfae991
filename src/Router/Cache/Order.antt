-- ===== src/Router/Cache/Order.antt =====
-- internal/router/cache.go: the list through the nodes is a list in order of use.
use icapmock.Prelude.{
  ℕ, ◌≡◌, ◌≢◌, refl, sym, ap, ◌∙◌, Bool, true, false, Option, none, some, List, [], ◌∷◌, ◌++◌,
  arith, ◌==◌, if◌then◌else◌, head?, append-nil, Option-cases, inl, inr,
}
use native.Mathlib.Decide.{ℕ_discrete}
use icapmock.Router.Cache.{
  LruNode, RouteCache, set_next, set_prev, unlink_prev, unlink_next, remove_node, link_old_head,
  link_tail, add_to_front, is_head, move_to_front,
}
use icapmock.Router.Cache.Links.{
  Links, IsLinked, final, elem, IsDistinct, leads_to, IsUnlinked, unlink, neighbours, final-append,
  IsLinked-frame, IsDistinct-drop, final-some, leads_to-final, elem-head, elem-tail, elem-apart,
}

abbrev is_some : Option ℕ → Bool
is_some none = false
is_some (some x) = true

abbrev pub prev_of : RouteCache → Links
prev_of c x = (c.nodes x).prev

abbrev pub next_of : RouteCache → Links
next_of c x = (c.nodes x).next

-- The cache's list is `xs`, the most recently used first.
pub record HasOrder (c : RouteCache) (xs : List ℕ) : Type 0 where
  pub linked : IsLinked (prev_of c) (next_of c) none xs
  pub distinct : IsDistinct xs
  pub first : c.head ≡ head? xs
  pub last : c.tail ≡ final none xs

-- A write of one link, at every cell.
set_next-links :
    (a x : ℕ) (o : Option ℕ) (c : RouteCache)
    → (prev_of (set_next a o c) x ≡ prev_of c x)
      × (next_of (set_next a o c) x ≡ (if a == x then o else next_of c x))
set_next-links a x o c = elim (ℕ_discrete x a) [
  | yes e ↦ rw e (ground arith, ground arith)
  | no ne ↦ (ground arith, ground arith)
]

set_prev-links :
    (a x : ℕ) (o : Option ℕ) (c : RouteCache)
    → (next_of (set_prev a o c) x ≡ next_of c x)
      × (prev_of (set_prev a o c) x ≡ (if a == x then o else prev_of c x))
set_prev-links a x o c = elim (ℕ_discrete x a) [
  | yes e ↦ rw e (ground arith, ground arith)
  | no ne ↦ (ground arith, ground arith)
]

unlink_prev-links :
    (a x : ℕ) (c : RouteCache)
    → (prev_of (unlink_prev a c) x ≡ prev_of c x)
      × (next_of (unlink_prev a c) x
          ≡ (if leads_to (prev_of c a) x then next_of c a else next_of c x))
unfolding unlink_prev
unlink_prev-links a x c = elim (Option-cases (prev_of c a)) [
  | inl e ↦ rw (unlink_prev, e) (refl, refl)
  | inr (p, e) ↦ rw (unlink_prev, e) (set_next-links p x (next_of c a) c)
]

unlink_next-links :
    (a x : ℕ) (c : RouteCache)
    → (next_of (unlink_next a c) x ≡ next_of c x)
      × (prev_of (unlink_next a c) x
          ≡ (if leads_to (next_of c a) x then prev_of c a else prev_of c x))
unfolding unlink_next
unlink_next-links a x c = elim (Option-cases (next_of c a)) [
  | inl e ↦ rw (unlink_next, e) (refl, refl)
  | inr (n, e) ↦ rw (unlink_next, e) (set_prev-links n x (prev_of c a) c)
]

cleared-links :
    (a x : ℕ) (c : RouteCache)
    → x ≢ a
    → (prev_of (set_next a none (set_prev a none c)) x ≡ prev_of c x)
      × (next_of (set_next a none (set_prev a none c)) x ≡ next_of c x)
cleared-links a x c ne = (ground arith, ground arith)

remove_node-IsUnlinked :
    (a : ℕ) (c : RouteCache)
    → leads_to (prev_of c a) a ≡ false
    → IsUnlinked a (prev_of c) (next_of c) (prev_of (remove_node a c)) (next_of (remove_node a c))
unfolding remove_node
remove_node-IsUnlinked a c no_prev =
    let d = unlink_prev a c in
    let e = unlink_next a d in
    let next_a : next_of d a ≡ next_of c a = (unlink_prev-links a a c).1 ∙ rw no_prev refl in
    record {
      prev_of = λ x ne.
          (cleared-links a x e ne).0
          ∙ (unlink_next-links a x d).1
          ∙ rw (next_a, (unlink_prev-links a a c).0, (unlink_prev-links a x c).0) refl;
      next_of = λ x ne.
          (cleared-links a x e ne).1 ∙ (unlink_next-links a x d).0 ∙ (unlink_prev-links a x c).1;
    }

unlink_prev-ends :
    (a : ℕ) (c : RouteCache)
    → ((unlink_prev a c).tail ≡ c.tail)
      × ((unlink_prev a c).head ≡ (if is_some (prev_of c a) then c.head else next_of c a))
unfolding unlink_prev
unlink_prev-ends a c = elim (Option-cases (prev_of c a)) [
  | inl e ↦ rw (unlink_prev, e) (refl, refl)
  | inr (p, e) ↦ rw (unlink_prev, e) (refl, refl)
]

unlink_next-ends :
    (a : ℕ) (c : RouteCache)
    → ((unlink_next a c).head ≡ c.head)
      × ((unlink_next a c).tail ≡ (if is_some (next_of c a) then c.tail else prev_of c a))
unfolding unlink_next
unlink_next-ends a c = elim (Option-cases (next_of c a)) [
  | inl e ↦ rw (unlink_next, e) (refl, refl)
  | inr (n, e) ↦ rw (unlink_next, e) (refl, refl)
]

remove_node-ends :
    (a : ℕ) (c : RouteCache)
    → leads_to (prev_of c a) a ≡ false
    → ((remove_node a c).head ≡ (if is_some (prev_of c a) then c.head else next_of c a))
      × ((remove_node a c).tail ≡ (if is_some (next_of c a) then c.tail else prev_of c a))
unfolding remove_node
remove_node-ends a c no_prev =
    let d = unlink_prev a c in
    let next_a : next_of d a ≡ next_of c a = (unlink_prev-links a a c).1 ∙ rw no_prev refl in
    (
      (unlink_next-ends a d).0 ∙ (unlink_prev-ends a c).1,
      (unlink_next-ends a d).1
          ∙ rw (next_a, (unlink_prev-links a a c).0, (unlink_prev-ends a c).0) refl,
    )

first_left :
    (prev : Option ℕ) (l r : List ℕ) (a : ℕ)
    → prev ≡ final none l
    → (if is_some prev then head? (l ++ a ∷ r) else head? r) ≡ head? (l ++ r)
first_left prev [] r a e = rw e refl
first_left prev (b ∷ l) r a e = let (z, f) = final-some b l in rw (e ∙ f) refl

last_left :
    (next : Option ℕ) (l r : List ℕ) (a : ℕ)
    → next ≡ head? r
    → (if is_some next then final none (l ++ a ∷ r) else final none l) ≡ final none (l ++ r)
last_left next l [] a e = rw (e, append-nil l) refl
last_left next l (n ∷ r) a e = rw e (final-append none l (n ∷ r) a ∙ sym (final-append none l r n))

-- `removeNode` takes a node out of the list, and leaves the others in their order.
pub remove_node-HasOrder :
    (a : ℕ) (c : RouteCache) (l r : List ℕ)
    → HasOrder c (l ++ a ∷ r)
    → HasOrder (remove_node a c) (l ++ r)
remove_node-HasOrder a c l r h =
    let (ds, out, front) = IsDistinct-drop a l r h.distinct in
    let (at_prev, at_next, _) = neighbours (prev_of c) (next_of c) none l r a h.linked in
    let no_prev : leads_to (prev_of c a) a ≡ false = rw at_prev (leads_to-final a l front) in
    let ends = remove_node-ends a c no_prev in
    record {
      linked =
          unlink a (prev_of c) (next_of c) (prev_of (remove_node a c)) (next_of (remove_node a c))
            (remove_node-IsUnlinked a c no_prev) none l r h.linked h.distinct tt;
      distinct = ds;
      first = ends.0 ∙ rw (h.first, at_next) (first_left (prev_of c a) l r a at_prev);
      last = ends.1 ∙ rw (h.last, at_prev) (last_left (next_of c a) l r a at_next);
    }

link_old_head-links :
    (a x : ℕ) (c : RouteCache)
    → (next_of (link_old_head a c) x ≡ next_of c x)
      × (prev_of (link_old_head a c) x ≡ (if leads_to c.head x then some a else prev_of c x))
      × ((link_old_head a c).tail ≡ c.tail)
unfolding link_old_head
link_old_head-links a x c = elim (Option-cases c.head) [
  | inl e ↦ rw (link_old_head, e) (refl, refl, refl)
  | inr (h, e) ↦
      let links = set_prev-links h x (some a) c in rw (link_old_head, e) (links.0, links.1, refl)
]

link_tail-ends :
    (a : ℕ) (c : RouteCache)
    → ((link_tail a c).nodes ≡ c.nodes)
      × ((link_tail a c).head ≡ c.head)
      × ((link_tail a c).tail ≡ (if is_some c.tail then c.tail else some a))
unfolding link_tail
link_tail-ends a c = elim (Option-cases c.tail) [
  | inl e ↦ rw (link_tail, e) (refl, refl, refl)
  | inr (t, e) ↦ rw (link_tail, e) (refl, refl, e)
]

add_to_front-links :
    (a x : ℕ) (c : RouteCache)
    → (prev_of (add_to_front a c) x
        ≡ (if leads_to c.head x then some a else (if a == x then none else prev_of c x)))
      × (next_of (add_to_front a c) x ≡ (if a == x then c.head else next_of c x))
unfolding add_to_front
add_to_front-links a x c =
    let c1 = set_prev a none c in
    let c2 = set_next a c.head c1 in
    let old = link_old_head-links a x c2 in
    let one = set_prev-links a x none c in
    let two = set_next-links a x c.head c1 in
    let same = (link_tail-ends a (record (link_old_head a c2) { head = some a })).0 in
    (
      ap (λ (n : ℕ → LruNode). (n x).prev) same ∙ old.1 ∙ rw (two.0, one.1) refl,
      ap (λ (n : ℕ → LruNode). (n x).next) same ∙ old.0 ∙ two.1 ∙ rw one.0 refl,
    )

add_to_front-ends :
    (a : ℕ) (c : RouteCache)
    → ((add_to_front a c).head ≡ some a)
      × ((add_to_front a c).tail ≡ (if is_some c.tail then c.tail else some a))
unfolding add_to_front
add_to_front-ends a c =
    let c2 = set_next a c.head (set_prev a none c) in
    let ends = link_tail-ends a (record (link_old_head a c2) { head = some a }) in
    (ends.1, ends.2 ∙ rw ((link_old_head-links a a c2).2) refl)

other_test : (x y : ℕ) → y ≢ x → (x == y) ≡ false
other_test x y h = ground (arith, h)

add_to_front_untouched :
    (a b x : ℕ) (c : RouteCache)
    → c.head ≡ some b
    → x ≢ a
    → x ≢ b
    → (prev_of (add_to_front a c) x ≡ prev_of c x) × (next_of (add_to_front a c) x ≡ next_of c x)
add_to_front_untouched a b x c e na nb =
    let links = add_to_front-links a x c in
    let f : leads_to c.head x ≡ false = rw e (other_test b x nb) in
    (links.0 ∙ rw (f, other_test a x na) refl, links.1 ∙ rw (other_test a x na) refl)

-- `addToFront` puts a node that is not in the list in front of it.
pub add_to_front-HasOrder :
    (a : ℕ) (c : RouteCache) (xs : List ℕ)
    → HasOrder c xs
    → elem a xs ≡ false
    → HasOrder (add_to_front a c) (a ∷ xs)
add_to_front-HasOrder a c [] h out =
    let (at_prev, at_next) = add_to_front-links a a c in
    let ends = add_to_front-ends a c in
    let e : leads_to c.head a ≡ false = rw h.first refl in
    record {
      linked = (at_prev ∙ rw e (ground arith), at_next ∙ rw h.first (ground arith), tt);
      distinct = (refl, tt);
      first = ends.0;
      last = ends.1 ∙ rw h.last refl;
    }
add_to_front-HasOrder a c (b ∷ xs) h out =
    let (at_prev, at_next) = add_to_front-links a a c in
    let (b_prev, b_next) = add_to_front-links a b c in
    let ends = add_to_front-ends a c in
    let ne = elem-head a b xs out in
    let e : leads_to c.head a ≡ false = rw h.first (ground (arith, ne)) in
    let f : leads_to c.head b ≡ true = rw h.first (ground arith) in
    let (z, g) = final-some b xs in
    record {
      linked = (
        at_prev ∙ rw e (ground arith),
        at_next ∙ (ground arith ∙ h.first),
        (
          b_prev ∙ rw f refl,
          b_next ∙ rw (other_test a b ne) h.linked.1,
          IsLinked-frame (prev_of c) (next_of c) (prev_of (add_to_front a c))
              (next_of (add_to_front a c)) (some b) xs
              (λ x m.
                add_to_front_untouched a b x c h.first (elem-apart a x xs (elem-tail a b xs out) m)
                  (elem-apart b x xs h.distinct.0 m))
              h.linked.2,
        ),
      );
      distinct = (out, h.distinct);
      first = ends.0;
      last = ends.1 ∙ rw (h.last, g) refl;
    }

-- `moveToFront` makes a node the most recently used one, and leaves the others in their order.
pub move_to_front-HasOrder :
    (a : ℕ) (c : RouteCache) (l r : List ℕ)
    → HasOrder c (l ++ a ∷ r)
    → HasOrder (move_to_front a c) (a ∷ (l ++ r))
unfolding move_to_front
move_to_front-HasOrder a c [] r h =
    let e : is_head a c.head ≡ true = rw h.first (ground arith) in rw e h
move_to_front-HasOrder a c (b ∷ l) r h =
    let (_, out, front) = IsDistinct-drop a (b ∷ l) r h.distinct in
    let e : is_head a c.head ≡ false = rw h.first (other_test b a (elem-front a b l front)) in
    rw e (
      add_to_front-HasOrder a (remove_node a c) (b ∷ (l ++ r))
        (remove_node-HasOrder a c (b ∷ l) r h) out)
  where
    elem-front : (x y : ℕ) (zs : List ℕ) → elem x (y ∷ zs) ≡ false → x ≢ y
    elem-front x y zs k e = elem-head x y zs k (sym e)
