-- ===== src/Handler/Timeout/Partition.antt =====
-- internal/handler/adaptive_timeout.go: partition splits an array at its last item.
use icapmock.Prelude.{
  ℕ, zero, suc, ◌+◌, ◌-◌, ◌<◌, ◌≤◌, ◌≡◌, refl, ◌∙◌, sym, ap, Bool, true, false, List, [], ◌∷◌, ◌++◌,
  arith, leb, leb→le,
}
use native.Mathlib.Decide.{ℕ_discrete}
use icapmock.Handler.Timeout.{swap, sifted, partition_from, partition}
use icapmock.Handler.Timeout.Exchanges.{exchange, Within, exchange-append, Within-append}

-- How the array stands around an index, after exchanges of the first one.
record IsSplit (l r : ℕ) (arr : ℕ → ℕ) (i : ℕ) (arr' : ℕ → ℕ) (pivot : ℕ) : Type 0 where
  pairs : List (ℕ × ℕ)
  within : Within l r pairs
  made : arr' ≡ exchange pairs arr
  at_least : l ≤ i
  at_most : i ≤ r
  low : (x : ℕ) → l ≤ x → x < i → arr' x ≤ pivot
  high : (x : ℕ) → i ≤ x → x ≤ r → pivot ≤ arr' x
  last : arr' r ≡ pivot

abbrev Split : ℕ → ℕ → (ℕ → ℕ) → ℕ → ℕ × (ℕ → ℕ) → Type 0
Split l r arr pivot (i, arr') = IsSplit l r arr i arr' pivot

swap_low :
    (l i j pivot : ℕ) (arr : ℕ → ℕ)
    → arr j ≤ pivot
    → i ≤ j
    → ((x : ℕ) → l ≤ x → x < i → arr x ≤ pivot)
    → ((x : ℕ) → l ≤ x → x < i + 1 → swap i j arr x ≤ pivot)
swap_low l i j pivot arr small b low x p q = elim (ℕ_discrete x i) [
  | yes e ↦ ground (arith, e, small)
  | no ne ↦ let h = low x p (omega (arith, ne)) in ground (arith, ne, h)
]

swap_high :
    (i j pivot : ℕ) (arr : ℕ → ℕ)
    → ((x : ℕ) → i ≤ x → x < j → pivot ≤ arr x)
    → ((x : ℕ) → i + 1 ≤ x → x < j + 1 → pivot ≤ swap i j arr x)
swap_high i j pivot arr high x p q = elim (ℕ_discrete x j) [
  | yes e ↦ let h = high i (omega arith) (omega (arith, e)) in ground (arith, e, h)
  | no ne ↦ let h = high x (omega arith) (omega (arith, ne)) in ground (arith, ne, h)
]

swap_last : (i j r pivot : ℕ) (arr : ℕ → ℕ) → i < r → j < r → arr r ≡ pivot → swap i j arr r ≡ pivot
swap_last i j r pivot arr a b e = ground (arith, e)

-- The loop from an index on ends in a split, if it starts in one.
abbrev Splits : ℕ → ℕ → ℕ → ℕ → ℕ → Type 0
Splits n l r j pivot =
    (i : ℕ) (arr : ℕ → ℕ)
    → l ≤ i
    → i ≤ j
    → ((x : ℕ) → l ≤ x → x < i → arr x ≤ pivot)
    → ((x : ℕ) → i ≤ x → x < j → pivot ≤ arr x)
    → arr r ≡ pivot
    → Split l r arr pivot (partition_from n pivot j i arr)

sifted-Split :
    (n l r j i pivot : ℕ) (arr : ℕ → ℕ) (t : Bool)
    → j < r
    → l ≤ i
    → i ≤ j
    → ((x : ℕ) → l ≤ x → x < i → arr x ≤ pivot)
    → ((x : ℕ) → i ≤ x → x < j → pivot ≤ arr x)
    → arr r ≡ pivot
    → leb (arr j) pivot ≡ t
    → Splits n l r (j + 1) pivot
    → Split l r arr pivot (partition_from n pivot (j + 1) (sifted t j i arr).0 (sifted t j i arr).1)
sifted-Split n l r j i pivot arr true e a b low high last f rest =
    let small = leb→le (arr j) pivot f in
    let s =
      rest (i + 1) (swap i j arr) (omega arith) (omega arith) (swap_low l i j pivot arr small b low)
        (swap_high i j pivot arr high) (swap_last i j r pivot arr (omega arith) e last) in
    record {
      pairs = (i, j) ∷ s.pairs;
      within = (a, omega arith, omega arith, omega arith, s.within);
      made = s.made;
      at_least = s.at_least;
      at_most = s.at_most;
      low = s.low;
      high = s.high;
      last = s.last;
    }
sifted-Split n l r j i pivot arr false e a b low high last f rest =
    rest i arr a (omega arith) low
      (λ x p q. elim (ℕ_discrete x j) [
        | yes g ↦ rw g (ground (arith, f))
        | no ne ↦ high x p (omega (arith, ne))
      ])
      last

partition_from-Split : (n l r j pivot : ℕ) → j + n ≡ r → Splits n l r j pivot
unfolding partition_from
partition_from-Split zero l r j pivot e i arr a b low high last = record {
  pairs = [];
  within = tt;
  made = refl;
  at_least = a;
  at_most = omega (arith, e);
  low = low;
  high = λ x p q. elim (ℕ_discrete x r) [
    | yes f ↦ rw f (omega (arith, last))
    | no ne ↦ high x p (omega (arith, ne, e))
  ];
  last = last;
}
partition_from-Split (suc n) l r j pivot e i arr a b low high last =
    sifted-Split n l r j i pivot arr (leb (arr j) pivot) (omega (arith, e)) a b low high last refl
      (partition_from-Split n l r (j + 1) pivot (omega (arith, e)))

-- The array around the index of the pivot.
pub record IsPartitioned (l r : ℕ) (arr : ℕ → ℕ) (p : ℕ) (arr' : ℕ → ℕ) : Type 0 where
  pub pairs : List (ℕ × ℕ)
  pub within : Within l r pairs
  pub made : arr' ≡ exchange pairs arr
  pub at_least : l ≤ p
  pub at_most : p ≤ r
  pub low : (x : ℕ) → l ≤ x → x < p → arr' x ≤ arr' p
  pub high : (x : ℕ) → p < x → x ≤ r → arr' p ≤ arr' x

pub partition-IsPartitioned :
    (arr : ℕ → ℕ) (l r : ℕ)
    → l ≤ r
    → IsPartitioned l r arr (partition arr l r).0 (partition arr l r).1
unfolding partition
partition-IsPartitioned arr l r h =
    let n = r - l in
    let pivot = arr r in
    let i = (partition_from n pivot l l arr).0 in
    let arr' = (partition_from n pivot l l arr).1 in
    let s : IsSplit l r arr i arr' pivot =
      partition_from-Split n l r l pivot (omega arith) l arr (omega arith) (omega arith)
        (λ x p q. absurd (omega arith)) (λ x p q. absurd (omega arith)) refl in
    let up = s.at_most in
    let down = s.at_least in
    let top = s.last in
    record {
      pairs = s.pairs ++ (i, r) ∷ [];
      within =
          Within-append l r s.pairs ((i, r) ∷ []) s.within (down, up, omega arith, omega arith, tt);
      made =
          ap (λ (a : ℕ → ℕ). swap i r a) s.made ∙ sym (exchange-append s.pairs ((i, r) ∷ []) arr);
      at_least = down;
      at_most = up;
      low = λ x p q. let k = s.low x p q in ground (arith, k, top, up, q);
      high = λ x p q.
          let k = s.high x (omega arith) q in
          let k' = s.high i (omega arith) up in ground (arith, k, k', top, p, q);
    }
