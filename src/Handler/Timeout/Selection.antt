-- ===== src/Handler/Timeout/Selection.antt =====
-- internal/handler/adaptive_timeout.go: quickselect finds the k-th smallest item.
use icapmock.Prelude.{
  ℕ, zero, suc, ◌+◌, ◌-◌, ◌<◌, ◌≤◌, ◌≡◌, refl, ◌∙◌, sym, ap, subst, Bool, true, false, Option, some,
  List, [], ◌++◌, arith, ltb, ◌==◌, ==_iff, inl, inr, Bool-cases,
}
use native.Mathlib.Decide.{ℕ_discrete}
use icapmock.Handler.Timeout.{partition, side, selected, quickselect}
use icapmock.Handler.Timeout.Exchanges.{
  exchange, Within, Within-append, Within-widen, exchange-append, exchange-outside, exchange-Inside,
}
use icapmock.Handler.Timeout.Partition.{IsPartitioned, partition-IsPartitioned}

-- The value stands at its place of an array that is the first one with items exchanged between the
-- bounds; what stands before it there is not above it, and what stands behind it not below.
pub record IsSelected (l r k : ℕ) (arr : ℕ → ℕ) (v : ℕ) (arr' : ℕ → ℕ) : Type 0 where
  pub pairs : List (ℕ × ℕ)
  pub within : Within l r pairs
  pub made : arr' ≡ exchange pairs arr
  pub value : v ≡ arr' k
  pub before : (x : ℕ) → l ≤ x → x < k → arr' x ≤ v
  pub behind : (x : ℕ) → k < x → x ≤ r → v ≤ arr' x

abbrev Selects : ℕ → ℕ → ℕ → (ℕ → ℕ) → Option (ℕ × (ℕ → ℕ)) → Type 0
Selects l r k arr o = (v : ℕ) × (arr' : ℕ → ℕ) × (o ≡ some (v, arr')) × IsSelected l r k arr v arr'

-- The search goes on in front of the pivot.
front-IsSelected :
    (l r k p v : ℕ) (arr mid arr' : ℕ → ℕ)
    → IsPartitioned l r arr p mid
    → IsSelected l (p - 1) k mid v arr'
    → l ≤ k
    → k < p
    → IsSelected l r k arr v arr'
front-IsSelected l r k p v arr mid arr' c s a b =
    let up = c.at_most in
    let inside : arr' k ≤ mid p =
      subst (λ (f : ℕ → ℕ). f k ≤ mid p) (sym s.made)
        (exchange-Inside l (p - 1) (λ y. y ≤ mid p) s.pairs mid s.within
          (λ x m n. c.low x m (omega arith)) k a (omega arith)) in
    record {
      pairs = c.pairs ++ s.pairs;
      within =
          Within-append l r c.pairs s.pairs c.within
            (Within-widen l (p - 1) l r s.pairs (omega arith) (omega arith) s.within);
      made = s.made ∙ ap (exchange s.pairs) c.made ∙ sym (exchange-append c.pairs s.pairs arr);
      value = s.value;
      before = s.before;
      behind = λ x m n. elim (Bool-cases (ltb x p)) [
        | inl e ↦ s.behind x m (ground (arith, e))
        | inr e ↦
            let out =
              ap (λ (f : ℕ → ℕ). f x) s.made
              ∙ exchange-outside l (p - 1) x s.pairs mid s.within
                  (λ q t. ground (arith, e, q, t, b)) in
            let is_value = s.value in
            elim (ℕ_discrete x p) [
              | yes g ↦ let same = ap mid g in omega (arith, out, same, inside, is_value)
              | no ne ↦
                  let above = c.high x (ground (arith, e, ne)) n in
                  omega (arith, out, above, inside, is_value)
            ]
      ];
    }

-- The search goes on behind the pivot.
back-IsSelected :
    (l r k p v : ℕ) (arr mid arr' : ℕ → ℕ)
    → IsPartitioned l r arr p mid
    → IsSelected (p + 1) r k mid v arr'
    → p < k
    → k ≤ r
    → IsSelected l r k arr v arr'
back-IsSelected l r k p v arr mid arr' c s a b =
    let down = c.at_least in
    let inside : mid p ≤ arr' k =
      subst (λ (f : ℕ → ℕ). mid p ≤ f k) (sym s.made)
        (exchange-Inside (p + 1) r (λ y. mid p ≤ y) s.pairs mid s.within
          (λ x m n. c.high x (omega arith) n) k (omega arith) b) in
    record {
      pairs = c.pairs ++ s.pairs;
      within =
          Within-append l r c.pairs s.pairs c.within
            (Within-widen (p + 1) r l r s.pairs (omega arith) (omega arith) s.within);
      made = s.made ∙ ap (exchange s.pairs) c.made ∙ sym (exchange-append c.pairs s.pairs arr);
      value = s.value;
      before = λ x m n. elim (Bool-cases (ltb p x)) [
        | inl e ↦ s.before x (ground (arith, e)) n
        | inr e ↦
            let out =
              ap (λ (f : ℕ → ℕ). f x) s.made
              ∙ exchange-outside (p + 1) r x s.pairs mid s.within (λ q t. ground (arith, e, q)) in
            let is_value = s.value in
            elim (ℕ_discrete x p) [
              | yes g ↦ let same = ap mid g in omega (arith, out, same, inside, is_value)
              | no ne ↦
                  let below = c.low x m (ground (arith, e, ne)) in
                  omega (arith, out, below, inside, is_value)
            ]
      ];
      behind = s.behind;
    }

-- The calls of a search with one more call, for each way that the two tests go.
selected-Selects :
    (fuel : ℕ) (arr : ℕ → ℕ) (l r k p : ℕ) (mid : ℕ → ℕ) (one at_pivot left_side : Bool)
    → (l == r) ≡ one
    → (k == p) ≡ at_pivot
    → ltb k p ≡ left_side
    → l ≤ k
    → k ≤ r
    → r - l < suc fuel
    → IsPartitioned l r arr p mid
    → ((m n : ℕ) → m ≤ k → k ≤ n → n - m < fuel → Selects m n k mid (quickselect fuel mid m n k))
    → Selects l r k arr (
        selected one at_pivot l k arr mid
          (quickselect fuel mid (side left_side l r p).0 (side left_side l r p).1 k))
selected-Selects fuel arr l r k p mid true at_pivot left_side e f g a b h c rest = (
  arr l,
  arr,
  refl,
  record {
    pairs = [];
    within = tt;
    made = refl;
    value = let q = (==_iff l r).0 e in ap arr (omega (arith, q));
    before = λ x m n. absurd (let q = (==_iff l r).0 e in omega (arith, q));
    behind = λ x m n. absurd (let q = (==_iff l r).0 e in omega (arith, q));
  },
)
selected-Selects fuel arr l r k p mid false true left_side e f g a b h c rest =
    let q : k ≡ p = (==_iff k p).0 f in
    (
      mid k,
      mid,
      refl,
      record {
        pairs = c.pairs;
        within = c.within;
        made = c.made;
        value = refl;
        before = λ x m n. rw q (c.low x m (omega (arith, q)));
        behind = λ x m n. rw q (c.high x (omega (arith, q)) n);
      },
    )
selected-Selects fuel arr l r k p mid false false true e f g a b h c rest =
    let q : k < p = ground (arith, g) in
    let up = c.at_most in
    let down = c.at_least in
    let (v, arr', made, s) = rest l (p - 1) a (omega (arith, q)) (omega (arith, q, up, h)) in
    (v, arr', made, front-IsSelected l r k p v arr mid arr' c s a q)
selected-Selects fuel arr l r k p mid false false false e f g a b h c rest =
    let q : p < k = ground (arith, f, g) in
    let up = c.at_most in
    let down = c.at_least in
    let (v, arr', made, s) = rest (p + 1) r (omega (arith, q)) b (omega (arith, q, down, h)) in
    (v, arr', made, back-IsSelected l r k p v arr mid arr' c s q b)

-- quickselect finds the k-th smallest item between the bounds: with as many calls as there are items it
-- returns, it only exchanges items between the bounds, and then the item at `k` is the result, no item
-- before it is above it and none behind it below.
pub quickselect-Selects :
    (fuel : ℕ) (arr : ℕ → ℕ) (left right k : ℕ)
    → left ≤ k
    → k ≤ right
    → right - left < fuel
    → (v : ℕ) × (arr' : ℕ → ℕ) × (quickselect fuel arr left right k ≡ some (v, arr'))
      × IsSelected left right k arr v arr'
unfolding quickselect
quickselect-Selects zero arr left right k a b h = absurd (omega arith)
quickselect-Selects (suc fuel) arr left right k a b h =
    let p = (partition arr left right).0 in
    let mid = (partition arr left right).1 in
    selected-Selects fuel arr left right k p mid (left == right) (k == p) (ltb k p) refl refl refl a
      b h (partition-IsPartitioned arr left right (omega (arith, a, b)))
      (λ m n x y z. quickselect-Selects fuel mid m n k x y z)
