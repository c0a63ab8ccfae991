-- ===== src/Handler/Timeout/Exchanges.antt =====
-- internal/handler/adaptive_timeout.go: exchanges of items of an array.
use icapmock.Prelude.{
  ℕ, ◌≤◌, ◌≡◌, ◌≢◌, refl, ◌∙◌, List, [], ◌∷◌, ◌++◌, arith, ◌==◌, inl, inr, Bool-cases,
}
use icapmock.Handler.Timeout.{swap}

-- The array after exchanging items, pair by pair.
abbrev pub exchange : List (ℕ × ℕ) → (ℕ → ℕ) → ℕ → ℕ
exchange [] arr = arr
exchange ((i, j) ∷ pairs) arr = exchange pairs (swap i j arr)

abbrev pub Within : ℕ → ℕ → List (ℕ × ℕ) → Type 0
Within l r [] = Unit
Within l r ((i, j) ∷ pairs) = (l ≤ i) × (i ≤ r) × (l ≤ j) × (j ≤ r) × Within l r pairs

pub exchange-append :
    (ps qs : List (ℕ × ℕ)) (arr : ℕ → ℕ) → exchange (ps ++ qs) arr ≡ exchange qs (exchange ps arr)
exchange-append [] qs arr = refl
exchange-append ((i, j) ∷ ps) qs arr = exchange-append ps qs (swap i j arr)

pub Within-append :
    (l r : ℕ) (ps qs : List (ℕ × ℕ)) → Within l r ps → Within l r qs → Within l r (ps ++ qs)
Within-append l r [] qs h k = k
Within-append l r ((i, j) ∷ ps) qs (a, b, c, d, h) k = (a, b, c, d, Within-append l r ps qs h k)

pub Within-widen :
    (l r l' r' : ℕ) (ps : List (ℕ × ℕ)) → l' ≤ l → r ≤ r' → Within l r ps → Within l' r' ps
Within-widen l r l' r' [] p q h = tt
Within-widen l r l' r' ((i, j) ∷ ps) p q (a, b, c, d, h) =
    (omega arith, omega arith, omega arith, omega arith, Within-widen l r l' r' ps p q h)

-- Items outside stay.
pub exchange-outside :
    (l r x : ℕ) (ps : List (ℕ × ℕ)) (arr : ℕ → ℕ)
    → Within l r ps
    → ((l ≤ x) → (x ≤ r) → ⊥)
    → exchange ps arr x ≡ arr x
exchange-outside l r x [] arr h out = refl
exchange-outside l r x ((i, j) ∷ ps) arr (a, b, c, d, h) out =
    let ni : x ≢ i = λ e. out (omega (arith, e)) (omega (arith, e)) in
    let nj : x ≢ j = λ e. out (omega (arith, e)) (omega (arith, e)) in
    exchange-outside l r x ps (swap i j arr) h out ∙ ground (arith, ni, nj)

-- What holds of all the items inside holds of them afterwards.
abbrev pub Inside : ℕ → ℕ → (ℕ → Type 0) → (ℕ → ℕ) → Type 0
Inside l r P arr = (x : ℕ) → l ≤ x → x ≤ r → P (arr x)

swap-Inside :
    (l r i j : ℕ) (P : ℕ → Type 0) (arr : ℕ → ℕ)
    → l ≤ i
    → i ≤ r
    → l ≤ j
    → j ≤ r
    → Inside l r P arr
    → Inside l r P (swap i j arr)
swap-Inside l r i j P arr a b c d h x p q = elim (Bool-cases (x == i)) [
  | inl e ↦ rw e (h j c d)
  | inr e ↦ elim (Bool-cases (x == j)) [ inl f ↦ rw (e, f) (h i a b) | inr f ↦ rw (e, f) (h x p q) ]
]

pub exchange-Inside :
    (l r : ℕ) (P : ℕ → Type 0) (ps : List (ℕ × ℕ)) (arr : ℕ → ℕ)
    → Within l r ps
    → Inside l r P arr
    → Inside l r P (exchange ps arr)
exchange-Inside l r P [] arr h k = k
exchange-Inside l r P ((i, j) ∷ ps) arr (a, b, c, d, h) k =
    exchange-Inside l r P ps (swap i j arr) h (swap-Inside l r i j P arr a b c d k)
