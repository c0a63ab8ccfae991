-- ===== src/Weight/Decimals.antt =====
-- internal/weight/percentage.go: what `Parse` makes of a decimal number.
use icapmock.Prelude.{
  ℕ, ◌+◌, ◌*◌, ◌-◌, ◌/◌, ◌^◌, ◌≤◌, ◌<◌, ◌≡◌, refl, ap, subst, ◌↔◌, true, false, some, [], ◌∷◌, ◌++◌,
  arith, ltb, ◌==◌, if◌then◌else◌, Bytes, codes, length, All, All-append, all_of, has_prefix,
  split_byte-lacks, split_byte_at, lacks, trim_space-All, IsPlain,
}
use native.Mathlib.Nat.{one-le-pow, mul-le-mul_left, mul-le-mul_right, div-eq_of_lt-le}
use native.Mathlib.Decide.{ℕ_discrete, dec_le, dec_lt}
use icapmock.Prelude.Int64.{pos, max_int64}
use icapmock.Prelude.Radix.{
  max_uint64, parse_int, parse_magnitude, signed, parse_uint, scan_uint, digit_value,
}
use icapmock.Weight.{
  Parsed, parsed, refused, above_hundred, rounds_to_zero, scale, total_units, is_digit,
  decimal_texts, decimal_value, parse_decimal_parts, fixed_point, rounded_thousandths, only_zeros,
  parse,
}
use icapmock.Weight.Rounding.{
  IsDigit, decimal, decimal_split, decimal-lt, IsNearest, rounded_thousandths-IsNearest,
}

-- The decimal number with these digits before and behind the dot; without digits behind it, no dot.
abbrev pub written : Bytes → Bytes → Bytes
written whole [] = whole
written whole (c ∷ fraction) = whole ++ b'.' ∷ c ∷ fraction

IsDigit-IsPlain : (s : Bytes) → All IsDigit s → All IsPlain s
IsDigit-IsPlain [] h = tt
IsDigit-IsPlain (c ∷ s) (h, hs) = ((omega arith, omega arith), IsDigit-IsPlain s hs)

IsDigit-lacks : (s : Bytes) → All IsDigit s → lacks b'.' s ≡ true
IsDigit-lacks [] h = refl
IsDigit-lacks (c ∷ s) (h, hs) = ground (arith, IsDigit-lacks s hs)

IsDigit-all_of : (s : Bytes) → All IsDigit s → all_of is_digit s ≡ true
IsDigit-all_of [] h = refl
IsDigit-all_of (c ∷ s) (h, hs) = ground (arith, IsDigit-all_of s hs)

written-IsPlain : (s f : Bytes) → All IsDigit s → All IsDigit f → All IsPlain (written s f)
written-IsPlain s [] h k = IsDigit-IsPlain s h
written-IsPlain s (c ∷ f) h k =
    All-append IsPlain s (b'.' ∷ c ∷ f) (IsDigit-IsPlain s h)
      ((omega arith, omega arith), IsDigit-IsPlain (c ∷ f) k)

decimal_texts-written :
    (c : ℕ) (s f : Bytes)
    → All IsDigit (c ∷ s)
    → All IsDigit f
    → decimal_texts (written (c ∷ s) f) ≡ some (c ∷ s, f)
unfolding decimal_texts
decimal_texts-written c s [] h k =
    let e = split_byte-lacks b'.' (c ∷ s) (IsDigit-lacks (c ∷ s) h) in ground (arith, e)
decimal_texts-written c s (d ∷ f) h k =
    let e = split_byte_at b'.' (c ∷ s) (d ∷ f) (IsDigit-lacks (c ∷ s) h) in
    let e' = split_byte-lacks b'.' (d ∷ f) (IsDigit-lacks (d ∷ f) k) in ground (arith, e, e')

written_head : (c : ℕ) (s f : Bytes) → written (c ∷ s) f ≡ c ∷ written s f
written_head c s [] = refl
written_head c s (d ∷ f) = refl

unsigned :
    (c : ℕ) (s : Bytes)
    → IsDigit c
    → (has_prefix (c ∷ s) (codes "-") ≡ false) × (has_prefix (c ∷ s) (codes "+") ≡ false)
unfolding has_prefix
unsigned c s h = (ground arith, ground arith)

decimal_value-digits :
    (s f : Bytes) (w : ℕ)
    → All IsDigit f
    → parse_int 10 s ≡ some (pos w)
    → decimal_value (s, f) ≡ parsed (pos w, f)
unfolding decimal_value
decimal_value-digits s f w k e = let all = IsDigit-all_of f k in ground (arith, e, all)

parse_decimal_parts-written :
    (c : ℕ) (s f : Bytes) (w : ℕ)
    → All IsDigit (c ∷ s)
    → All IsDigit f
    → parse_int 10 (c ∷ s) ≡ some (pos w)
    → parse_decimal_parts (written (c ∷ s) f) ≡ parsed (pos w, f)
unfolding parse_decimal_parts
parse_decimal_parts-written c s f w h k e =
    let (no_minus, no_plus) = unsigned c (written s f) h.0 in
    let texts =
      subst (λ t. decimal_texts t ≡ some (c ∷ s, f)) (written_head c s f)
        (decimal_texts-written c s f h k) in
    rw
      (
        trim_space-All (written (c ∷ s) f) (written-IsPlain (c ∷ s) f h k),
        written_head c s f,
        no_minus,
        no_plus,
        texts,
      )
      (decimal_value-digits (c ∷ s) f w k e)

decimal_lower : (n : ℕ) (s : Bytes) → n ≤ decimal n s
decimal_lower n [] = omega arith
decimal_lower n (c ∷ s) = omega (arith, decimal_lower (10 * n + (c - b'0')) s)

scan_uint-decimal :
    (s : Bytes) (n : ℕ)
    → All IsDigit s
    → decimal n s ≤ max_uint64
    → scan_uint 10 s n ≡ some (decimal n s)
unfolding scan_uint digit_value
scan_uint-decimal [] n h fits = refl
scan_uint-decimal (c ∷ s) n (h, hs) fits =
    ground
      (arith, decimal_lower (10 * n + (c - b'0')) s, scan_uint-decimal s (10 * n + (c - b'0')) hs)

parse_int-decimal :
    (c : ℕ) (s : Bytes)
    → All IsDigit (c ∷ s)
    → decimal 0 (c ∷ s) ≤ max_int64
    → parse_int 10 (c ∷ s) ≡ some (pos (decimal 0 (c ∷ s)))
unfolding parse_int parse_magnitude signed parse_uint
parse_int-decimal c s h fits =
    let scan = scan_uint-decimal (c ∷ s) 0 h (omega arith) in ground arith

-- The nearest whole number of thousandths to `n / d`, half up.
abbrev pub nearest : ℕ → ℕ → ℕ
nearest n d = (2 * (1000 * n) + d) / (2 * d)

-- The result of `Parse` for the number `n / d`.
abbrev pub percentage_of : ℕ → ℕ → Parsed ℕ
percentage_of n d =
    if ltb (100 * d) n
    then refused above_hundred
    else if ltb (2 * (1000 * n)) d
    then refused rounds_to_zero
    else parsed (nearest n d)

pub nearest_unique : (u n d : ℕ) → IsNearest u n d → nearest n d ≡ u
nearest_unique u n d (low, high) = div-eq_of_lt-le (2 * d) (omega arith) (grind arith)

only_zeros_iff : (f : Bytes) → All IsDigit f → (only_zeros f ≡ true) ↔ (decimal 0 f ≡ 0)
only_zeros_iff [] h = (λ _. refl, λ _. refl)
only_zeros_iff (c ∷ f) (h, hf) =
    let p = one-le-pow (length f) 10 (omega arith) in
    let scaled : 1 ≤ c - b'0' → 10 ^ length f * 1 ≤ 10 ^ length f * (c - b'0') =
      λ q. mul-le-mul_left (10 ^ length f) q in
    let split = decimal_split (10 * 0 + (c - b'0')) f in
    ground (arith, only_zeros_iff f hf, scaled, split)

-- The units of a number up to 100, zero or clamped.
fixed_units :
    (u n d : ℕ)
    → 0 < d
    → n ≤ 100 * d
    → IsNearest u n d
    → (if u == 0
        then refused rounds_to_zero
        else parsed (if ltb total_units u then total_units else u))
      ≡ percentage_of n d
fixed_units u n d p le near =
    let one : 1 ≤ u → d * 1 ≤ d * u = λ q. mul-le-mul_left d q in
    let over : 100001 ≤ u → d * 100001 ≤ d * u = λ q. mul-le-mul_left d q in
    elim (ℕ_discrete u 0) [
      | yes z ↦ let near' = subst (λ x. IsNearest x n d) z near in ground (arith, near'.1)
      | no nz ↦
          let few : u ≤ total_units = elim (dec_le u total_units) [
            | yes q ↦ q
            | no q ↦ absurd (omega (arith, over (omega arith), near.0))
          ] in
          ground (arith, one (omega arith), near.0, nearest_unique u n d near)
    ]

shift_units : (w m f d : ℕ) → IsNearest m f d → IsNearest (w * scale + m) (w * d + f) d
shift_units w m f d (low, high) = (grind arith, grind arith)

fixed_point_lem :
    (w : ℕ) (f : Bytes)
    → All IsDigit f
    → fixed_point (pos w) f ≡ percentage_of (w * 10 ^ length f + decimal 0 f) (10 ^ length f)
unfolding fixed_point
fixed_point_lem w f h =
    let d = 10 ^ length f in
    let m = decimal 0 f in
    let p = one-le-pow (length f) 10 (omega arith) in
    let below = decimal-lt f h in
    let zeros = only_zeros_iff f h in
    let near = shift_units w (rounded_thousandths f) m d (rounded_thousandths-IsNearest f h) in
    elim (dec_lt w 100) [
      | yes q ↦
          let le : (w + 1) * d ≤ 100 * d = mul-le-mul_right d (omega arith) in
          let units =
            fixed_units (w * scale + rounded_thousandths f) (w * d + m) d p (omega arith) near in
          ground (arith, units)
      | no q ↦ elim (dec_lt 100 w) [
        | yes q' ↦ let le : 101 * d ≤ w * d = mul-le-mul_right d (omega arith) in ground (arith, le)
        | no q' ↦
            let e : w ≡ 100 = omega arith in
            let wd : w * d ≡ 100 * d = ap (λ (x : ℕ). x * d) e in
            elim (ℕ_discrete m 0) [
              | yes z ↦
                  let units =
                    fixed_units (w * scale + rounded_thousandths f) (w * d + m) d p (omega arith)
                      near in
                  ground (arith, units, zeros)
              | no z ↦ ground (arith, zeros, wd)
            ]
      ]
    ]

-- A decimal number of any length, with a digit before the dot and below 2^63 there: a value above 100 is refused, so is
-- one below half a thousandth, and any other is rounded to the nearest thousandth, half up.
pub parse-written :
    (c : ℕ) (s f : Bytes)
    → All IsDigit (c ∷ s)
    → All IsDigit f
    → decimal 0 (c ∷ s) ≤ max_int64
    → parse (written (c ∷ s) f)
      ≡ percentage_of (decimal 0 (c ∷ s) * 10 ^ length f + decimal 0 f) (10 ^ length f)
unfolding parse
parse-written c s f h k fits =
    rw
      (
        parse,
        parse_decimal_parts-written c s f (decimal 0 (c ∷ s)) h k (parse_int-decimal c s h fits),
      )
      (fixed_point_lem (decimal 0 (c ∷ s)) f k)
