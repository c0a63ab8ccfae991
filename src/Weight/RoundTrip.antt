-- ===== src/Weight/RoundTrip.antt =====
-- internal/weight/percentage.go: `Parse` reads back what `String` prints.
use icapmock.Prelude.{
  ℕ, zero, suc, ◌+◌, ◌*◌, ◌/◌, ◌%◌, ◌^◌, ◌≤◌, ◌<◌, ◌≡◌, refl, ◌∙◌, Bool, true, ◌&&◌, [], ◌∷◌, ◌++◌,
  arith, ltb, ◌==◌, if◌then◌else◌, Bytes, length, All, all_of,
}
use native.Mathlib.Nat.{mod-lt}
use native.Mathlib.Decide.{ℕ_discrete}
use icapmock.Prelude.Radix.{format_uint, digits, digit_char}
use icapmock.Weight.{
  parsed, scale, total_units, is_digit, three_digits, to_string, parse, fixed_point,
}
use icapmock.Weight.Rounding.{IsDigit, decimal}
use icapmock.Weight.Decimals.{percentage_of, nearest, nearest_unique, parse-written}

-- The test holds of every number below the second argument.
holds_below : (ℕ → Bool) → ℕ → Bool
holds_below test zero = true
holds_below test (suc top) = holds_below test top && test top

holds_below-at :
    (test : ℕ → Bool) (top i : ℕ) → i < top → holds_below test top ≡ true → test i ≡ true
unfolding holds_below
holds_below-at test zero i lt ok = absurd (omega arith)
holds_below-at test (suc top) i lt ok = elim (ℕ_discrete i top) [
  | yes e ↦ rw e (ground arith)
  | no ne ↦ holds_below-at test top i (omega arith) (ground arith)
]

-- `s` is `k` digits, or one and more for `k` = 0, that spell `n`.
spells : ℕ → ℕ → Bytes → Bool
spells k n s =
    all_of is_digit s && decimal 0 s == n && (if k == 0 then ltb 0 (length s) else length s == k)

spells_whole : holds_below (λ w. spells 0 w (format_uint 10 w)) 101 ≡ true
unfolding holds_below spells format_uint digits digit_char
spells_whole = refl

spells_thousandths : holds_below (λ m. spells 3 m (three_digits m)) 1000 ≡ true
unfolding holds_below spells three_digits format_uint digits digit_char
spells_thousandths = refl

all_of-IsDigit : (s : Bytes) → all_of is_digit s ≡ true → All IsDigit s
all_of-IsDigit [] h = tt
all_of-IsDigit (c ∷ s) h = (ground arith, all_of-IsDigit s (ground arith))

percentage_of-parts :
    (p w m k : ℕ)
    → 0 < p
    → p ≤ total_units
    → w ≡ p / scale
    → m ≡ p % scale
    → k ≡ 3
    → percentage_of (w * 10 ^ k + m) (10 ^ k) ≡ parsed p
percentage_of-parts p w m k pos le ew em ek =
    let n = p / 1000 * 10 ^ 3 + p % 1000 in
    let near : nearest n (10 ^ 3) ≡ p = nearest_unique p n (10 ^ 3) (omega arith, omega arith) in
    rw (ew, em, ek) (ground (arith, near))

parse_spelled :
    (p : ℕ) (s f : Bytes)
    → 0 < p
    → p ≤ total_units
    → spells 0 (p / scale) s ≡ true
    → spells 3 (p % scale) f ≡ true
    → parse (s ++ b'.' ∷ f) ≡ parsed p
unfolding spells
parse_spelled p s [] pos le h k = absurd (ground arith)
parse_spelled p [] (d ∷ f) pos le h k = absurd (ground arith)
parse_spelled p (c ∷ s) (d ∷ f) pos le h k =
    let e1 : decimal 0 (c ∷ s) ≡ p / scale = ground arith in
    let e2 : decimal 0 (d ∷ f) ≡ p % scale = ground arith in
    let e3 : length (d ∷ f) ≡ 3 = ground arith in
    let main =
      parse-written c s (d ∷ f) (all_of-IsDigit (c ∷ s) (ground arith))
        (all_of-IsDigit (d ∷ f) (ground arith)) (omega arith) in
    main
    ∙ percentage_of-parts p (decimal 0 (c ∷ s)) (decimal 0 (d ∷ f)) (length (d ∷ f)) pos le e1 e2 e3

-- Every percentage from 0.001 to 100 is printed as a text that `Parse` reads as that percentage.
pub parse-to_string : (p : ℕ) → 0 < p → p ≤ total_units → parse (to_string p) ≡ parsed p
unfolding to_string
parse-to_string p pos le =
    let lt = mod-lt p {m = scale} (omega arith) in
    parse_spelled p (format_uint 10 (p / scale)) (three_digits (p % scale)) pos le
      (holds_below-at _ 101 (p / scale) (omega arith) spells_whole)
      (holds_below-at _ 1000 (p % scale) lt spells_thousandths)

-- A percentage that `Parse` returns is at least 0.001 and at most 100.
parse_range : (s : Bytes) (p : ℕ) → parse s ≡ parsed p → (0 < p) × (p ≤ total_units)
unfolding parse fixed_point
parse_range s p h = ground arith
