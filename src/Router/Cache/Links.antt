-- ===== src/Router/Cache/Links.antt =====
-- internal/router/cache.go: doubly linked lists, apart from the cells that hold the links.
use icapmock.Prelude.{
  ℕ, ◌≡◌, ◌≢◌, refl, sym, ap, ◌∙◌, Bool, true, false, ◌||◌, Option, none, some, List, [], ◌∷◌, ◌++◌,
  arith, ◌==◌, if◌then◌else◌, head?,
}

abbrev pub Links : Type 0
Links = ℕ → Option ℕ

-- `xs` follow one another from the one behind `p` on.
abbrev pub IsLinked : Links → Links → Option ℕ → List ℕ → Type 0
IsLinked prev next p [] = Unit
IsLinked prev next p (x ∷ xs) = (prev x ≡ p) × (next x ≡ head? xs) × IsLinked prev next (some x) xs

-- The last of `xs`, or `p`.
abbrev pub final : Option ℕ → List ℕ → Option ℕ
final p [] = p
final p (x ∷ xs) = final (some x) xs

abbrev pub elem : ℕ → List ℕ → Bool
elem x [] = false
elem x (y ∷ ys) = y == x || elem x ys

abbrev pub IsDistinct : List ℕ → Type 0
IsDistinct [] = Unit
IsDistinct (x ∷ xs) = (elem x xs ≡ false) × IsDistinct xs

-- The link leads to `x`.
abbrev pub leads_to : Option ℕ → ℕ → Bool
leads_to none x = false
leads_to (some y) x = y == x

abbrev pub IsOutside : Option ℕ → List ℕ → Type 0
IsOutside none xs = Unit
IsOutside (some y) xs = elem y xs ≡ false

elem-append : (x : ℕ) (xs ys : List ℕ) → elem x (xs ++ ys) ≡ (elem x xs || elem x ys)
elem-append x [] ys = refl
elem-append x (y ∷ xs) ys = ground (arith, elem-append x xs ys)

-- A list whose links did not change is still linked.
pub IsLinked-frame :
    (prev next prev' next' : Links) (p : Option ℕ) (xs : List ℕ)
    → ((x : ℕ) → elem x xs ≡ true → (prev' x ≡ prev x) × (next' x ≡ next x))
    → IsLinked prev next p xs
    → IsLinked prev' next' p xs
IsLinked-frame prev next prev' next' p [] same h = tt
IsLinked-frame prev next prev' next' p (x ∷ xs) same (hp, hn, h) =
    let here = same x (ground arith) in
    (
      here.0 ∙ hp,
      here.1 ∙ hn,
      IsLinked-frame prev next prev' next' (some x) xs (λ y m. same y (ground (arith, m))) h,
    )

-- The neighbours of an item.
pub neighbours :
    (prev next : Links) (p : Option ℕ) (l r : List ℕ) (a : ℕ)
    → IsLinked prev next p (l ++ a ∷ r)
    → (prev a ≡ final p l) × (next a ≡ head? r) × IsLinked prev next (some a) r
neighbours prev next p [] r a h = h
neighbours prev next p (b ∷ l) r a (hp, hn, h) = neighbours prev next (some b) l r a h

final-elem : (c : ℕ) (l : List ℕ) → (z : ℕ) × (final (some c) l ≡ some z) × (elem z (c ∷ l) ≡ true)
final-elem c [] = (c, refl, ground arith)
final-elem c (d ∷ l) = let (z, e, m) = final-elem d l in (z, e, ground (arith, m))

pub final-some : (c : ℕ) (l : List ℕ) → (z : ℕ) × (final (some c) l ≡ some z)
final-some c l = let (z, e, _) = final-elem c l in (z, e)

pub final-append : (p : Option ℕ) (l r : List ℕ) (x : ℕ) → final p (l ++ x ∷ r) ≡ final (some x) r
final-append p [] r x = refl
final-append p (b ∷ l) r x = final-append (some b) l r x

-- What unlinking `a` makes of the links of every other item.
pub record IsUnlinked (a : ℕ) (prev next prev' next' : Links) : Type 0 where
  pub prev_of : (x : ℕ) → x ≢ a → prev' x ≡ (if leads_to (next a) x then prev a else prev x)
  pub next_of : (x : ℕ) → x ≢ a → next' x ≡ (if leads_to (prev a) x then next a else next x)

pub elem-head : (x n : ℕ) (r : List ℕ) → elem x (n ∷ r) ≡ false → n ≢ x
elem-head x n r h e = ground (arith, h, e)

pub elem-tail : (x n : ℕ) (r : List ℕ) → elem x (n ∷ r) ≡ false → elem x r ≡ false
elem-tail x n r h = ground (arith, h)

pub elem-apart : (x y : ℕ) (r : List ℕ) → elem x r ≡ false → elem y r ≡ true → y ≢ x
elem-apart x y r h k e = true_not_false (sym k ∙ ap (λ (z : ℕ). elem z r) e ∙ h)
  where
    true_not_false : true ≢ false
    true_not_false q = cc

leads_to-not : (o : Option ℕ) (x y : ℕ) → o ≡ some y → y ≢ x → leads_to o x ≡ false
leads_to-not o x y e h = rw e (ground (arith, h))

IsOutside-apart :
    (p : Option ℕ) (x : ℕ) (xs : List ℕ) → IsOutside p xs → elem x xs ≡ true → leads_to p x ≡ false
IsOutside-apart none x xs o m = refl
IsOutside-apart (some y) x xs o m =
    leads_to-not (some y) x y refl (λ e. elem-apart y x xs o m (sym e))

IsOutside-tail : (p : Option ℕ) (x : ℕ) (xs : List ℕ) → IsOutside p (x ∷ xs) → IsOutside p xs
IsOutside-tail none x xs o = tt
IsOutside-tail (some y) x xs o = elem-tail y x xs o

pub leads_to-final : (a : ℕ) (l : List ℕ) → elem a l ≡ false → leads_to (final none l) a ≡ false
leads_to-final a [] h = refl
leads_to-final a (c ∷ l) h =
    let (z, e, m) = final-elem c l in
    leads_to-not (final (some c) l) a z e (elem-apart a z (c ∷ l) h m)

leads_to-head : (x : ℕ) (r : List ℕ) → elem x r ≡ false → leads_to (head? r) x ≡ false
leads_to-head x [] h = refl
leads_to-head x (y ∷ r) h = leads_to-not (some y) x y refl (elem-head x y r h)

split_or : (x y : Bool) → (x || y) ≡ false → (x ≡ false) × (y ≡ false)
split_or x y h = (ground arith, ground arith)

module _ (a : ℕ) (prev next prev' next' : Links) (u : IsUnlinked a prev next prev' next') where
  -- An item that is no neighbour of `a` keeps its links.
  keeps :
      (x : ℕ)
      → x ≢ a
      → leads_to (next a) x ≡ false
      → leads_to (prev a) x ≡ false
      → (prev' x ≡ prev x) × (next' x ≡ next x)
  keeps x ne no_next no_prev = (u.prev_of x ne ∙ rw no_next refl, u.next_of x ne ∙ rw no_prev refl)

  unlink_first :
      (p : Option ℕ) (r : List ℕ)
      → IsLinked prev next p (a ∷ r)
      → IsDistinct (a ∷ r)
      → IsOutside p (a ∷ r)
      → IsLinked prev' next' p r
  unlink_first p [] h d o = tt
  unlink_first p (n ∷ r) (hp, hn, (hp', hn', h)) (d, (dn, ds)) o =
      let ne = elem-head a n r d in
      let o' = IsOutside-tail p a (n ∷ r) o in
      let lead : leads_to (next a) n ≡ true = rw hn (ground arith) in
      let no_prev : leads_to (prev a) n ≡ false =
        rw hp (IsOutside-apart p n (n ∷ r) o' (ground arith)) in
      (
        u.prev_of n ne ∙ rw lead hp,
        u.next_of n ne ∙ rw no_prev hn',
        IsLinked-frame prev next prev' next' (some n) r
            (λ x m.
              keeps x (elem-apart a x r (elem-tail a n r d) m)
                (leads_to-not (next a) x n hn (λ e. elem-apart n x r dn m (sym e)))
                (rw hp (IsOutside-apart p x r (IsOutside-tail p n r o') m)))
            h,
      )

  -- The link of the item in front of `l`, `a` and `r`.
  unlink_before :
      (b : ℕ) (l r : List ℕ)
      → b ≢ a
      → next b ≡ head? (l ++ a ∷ r)
      → prev a ≡ final (some b) l
      → next a ≡ head? r
      → elem b l ≡ false
      → next' b ≡ head? (l ++ r)
  unlink_before b [] r ne hn at_prev at_next d =
      let lead : leads_to (prev a) b ≡ true = rw at_prev (ground arith) in
      u.next_of b ne ∙ rw lead at_next
  unlink_before b (c ∷ l) r ne hn at_prev at_next d =
      let (z, e, m) = final-elem c l in
      let no_prev = leads_to-not (prev a) b z (at_prev ∙ e) (elem-apart b z (c ∷ l) d m) in
      u.next_of b ne ∙ rw no_prev hn

  -- Unlinking `a` leaves the other items linked in their order.
  pub unlink :
      (p : Option ℕ) (l r : List ℕ)
      → IsLinked prev next p (l ++ a ∷ r)
      → IsDistinct (l ++ a ∷ r)
      → IsOutside p (l ++ a ∷ r)
      → IsLinked prev' next' p (l ++ r)
  unlink p [] r h d o = unlink_first p r h d o
  unlink p (b ∷ l) r (hp, hn, h) (d, ds) o =
      let (at_prev, at_next, _) = neighbours prev next (some b) l r a h in
      let ih = unlink (some b) l r h ds d in
      let d' = split_or (elem b l) (elem b (a ∷ r)) (sym (elem-append b l (a ∷ r)) ∙ d) in
      let ne : b ≢ a = λ e. elem-head b a r d'.1 (sym e) in
      let no_next : leads_to (next a) b ≡ false =
        rw at_next (leads_to-head b r (elem-tail b a r d'.1)) in
      (u.prev_of b ne ∙ rw no_next hp, unlink_before b l r ne hn at_prev at_next d'.0, ih)

-- Dropping `a` leaves distinct items, and none of them is `a`.
pub IsDistinct-drop :
    (a : ℕ) (l r : List ℕ)
    → IsDistinct (l ++ a ∷ r)
    → IsDistinct (l ++ r) × (elem a (l ++ r) ≡ false) × (elem a l ≡ false)
IsDistinct-drop a [] r (d, ds) = (ds, d, refl)
IsDistinct-drop a (b ∷ l) r (d, ds) =
    let (ih, out, front) = IsDistinct-drop a l r ds in
    let d' = split_or (elem b l) (elem b (a ∷ r)) (sym (elem-append b l (a ∷ r)) ∙ d) in
    let ne : (b == a) ≡ false = apart_test b a r d'.1 in
    let gone : elem b (l ++ r) ≡ false = elem-append b l r ∙ rw (d'.0, elem-tail b a r d'.1) refl in
    ((gone, ih), rw (ne, out) refl, rw (ne, front) refl)
  where
    apart_test : (x y : ℕ) (zs : List ℕ) → elem x (y ∷ zs) ≡ false → (x == y) ≡ false
    apart_test x y zs h = ground (arith, h)
