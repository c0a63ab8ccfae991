-- ===== src/Weight/Rounding.antt =====
-- internal/weight/percentage.go: rounding a decimal fraction half up to thousandths.
use icapmock.Prelude.{
  ℕ, suc, ◌+◌, ◌*◌, ◌-◌, ◌^◌, ◌≤◌, ◌<◌, ◌≡◌, sym, ap, ◌∙◌, some, [], ◌∷◌, arith, leb, if◌then◌else◌,
  Bytes, length, All, Bool-cases, leb→le, inl, inr,
}
use native.Mathlib.Nat.{pow-suc, mul-le-mul_left}
use icapmock.Prelude.Int64.{pos}
use icapmock.Prelude.Radix.{parse_int, parse_magnitude, signed, parse_uint, scan_uint, digit_value}
use icapmock.Weight.{rounded_thousandths}

abbrev pub IsDigit : ℕ → Type 0
IsDigit c = (b'0' ≤ c) × (c ≤ b'9')

-- The number that digits spell, behind those that spell `n`.
abbrev pub decimal : ℕ → Bytes → ℕ
decimal n [] = n
decimal n (c ∷ s) = decimal (10 * n + (c - b'0')) s

-- `u` thousandths are the nearest to `n / d`, the upper ones of two that are as near.
abbrev pub IsNearest : ℕ → ℕ → ℕ → Type 0
IsNearest u n d = (2 * (d * u) ≤ 2 * (1000 * n) + d) × (2 * (1000 * n) + d < 2 * (d * u) + 2 * d)

parse_three :
    (a b c : ℕ)
    → IsDigit a
    → IsDigit b
    → IsDigit c
    → parse_int 10 (a ∷ b ∷ c ∷ []) ≡ some (pos (decimal 0 (a ∷ b ∷ c ∷ [])))
unfolding parse_int parse_magnitude signed parse_uint scan_uint digit_value
parse_three a b c ha hb hc = ground arith

rounded_four :
    (a b c d : ℕ) (s : Bytes)
    → IsDigit a
    → IsDigit b
    → IsDigit c
    → rounded_thousandths (a ∷ b ∷ c ∷ d ∷ s)
      ≡ (if leb b'5' d then decimal 0 (a ∷ b ∷ c ∷ []) + 1 else decimal 0 (a ∷ b ∷ c ∷ []))
unfolding rounded_thousandths
rounded_four a b c d s ha hb hc = rw (parse_three a b c ha hb hc)

shift_digit : (n d p e : ℕ) → (10 * n + d) * p + e ≡ n * (p * 10) + ((10 * 0 + d) * p + e)
shift_digit n d p e = grind arith

pub decimal_split : (n : ℕ) (s : Bytes) → decimal n s ≡ n * 10 ^ length s + decimal 0 s
decimal_split n [] = omega arith
decimal_split n (c ∷ s) =
    let p = pow-suc 10 (length s) in
    let left = decimal_split (10 * n + (c - b'0')) s in
    let right = decimal_split (10 * 0 + (c - b'0')) s in
    rw p (
      left
      ∙ shift_digit n (c - b'0') (10 ^ length s) (decimal 0 s)
      ∙ ap (λ (x : ℕ). n * (10 ^ length s * 10) + x) (sym right))

digit_below : (d p e : ℕ) → d ≤ 9 → e < p → (0 + d) * p + e < p * 10
digit_below d p e h k = grind arith

pub decimal-lt : (s : Bytes) → All IsDigit s → decimal 0 s < 10 ^ length s
decimal-lt [] h = omega arith
decimal-lt (c ∷ s) (h, hs) =
    let ih = decimal-lt s hs in
    let below = digit_below (c - b'0') (10 ^ length s) (decimal 0 s) (omega arith) ih in
    omega (arith, below, decimal_split (10 * 0 + (c - b'0')) s, pow-suc 10 (length s))

-- With `p` units for the digits behind the fourth, whose part is `e`.
round_up :
    (m d p e : ℕ)
    → 5 ≤ d
    → d ≤ 9
    → e < p
    → IsNearest (m + 1) ((10 * m + d) * p + e) (p * 10 * 10 * 10 * 10)
round_up m d p e h le k =
    let low : p * 5 ≤ p * d = mul-le-mul_left p h in
    let high : p * d ≤ p * 9 = mul-le-mul_left p le in (omega arith, omega arith)

round_down :
    (m d p e : ℕ) → d < 5 → e < p → IsNearest m ((10 * m + d) * p + e) (p * 10 * 10 * 10 * 10)
round_down m d p e h k =
    let high : p * d ≤ p * 4 = mul-le-mul_left p (omega arith) in (omega arith, omega arith)

round_long :
    (a b c d : ℕ) (s : Bytes)
    → All IsDigit (a ∷ b ∷ c ∷ d ∷ s)
    → IsNearest
        (rounded_thousandths (a ∷ b ∷ c ∷ d ∷ s))
        (decimal 0 (a ∷ b ∷ c ∷ d ∷ s))
        (10 ^ length (a ∷ b ∷ c ∷ d ∷ s))
round_long a b c d s (ha, (hb, (hc, (hd, hs)))) =
    let m = decimal 0 (a ∷ b ∷ c ∷ []) in
    let k = length s in
    let p = 10 ^ k in
    let e = decimal 0 s in
    let below = decimal-lt s hs in
    rw
      (
        rounded_four a b c d s ha hb hc,
        decimal_split (10 * m + (d - b'0')) s,
        pow-suc 10 (suc (suc (suc k))),
        pow-suc 10 (suc (suc k)),
        pow-suc 10 (suc k),
        pow-suc 10 k,
      )
      (elim (Bool-cases (leb b'5' d)) [
        | inl up ↦
            rw up (round_up m (d - b'0') p e (omega (arith, leb→le b'5' d up)) (omega arith) below)
        | inr down ↦ rw down (round_down m (d - b'0') p e (ground arith) below)
      ])

pub rounded_thousandths-IsNearest :
    (f : Bytes) → All IsDigit f → IsNearest (rounded_thousandths f) (decimal 0 f) (10 ^ length f)
unfolding rounded_thousandths
rounded_thousandths-IsNearest [] h = ground (arith, parse_three b'0' b'0' b'0')
rounded_thousandths-IsNearest (a ∷ []) h = ground (arith, parse_three a b'0' b'0')
rounded_thousandths-IsNearest (a ∷ b ∷ []) h = ground (arith, parse_three a b b'0')
rounded_thousandths-IsNearest (a ∷ b ∷ c ∷ []) h = ground (arith, parse_three a b c)
rounded_thousandths-IsNearest (a ∷ b ∷ c ∷ d ∷ s) h = round_long a b c d s h
