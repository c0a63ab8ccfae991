-- ===== src/Prelude/Radix/RoundTrip.antt =====
-- Every number is read back from its print, and a print is made of digits and lower-case letters.
use Prim.Native.Nat.{ℕ, zero, suc, ◌/◌, ◌%◌, ◌^◌, ◌≤◌, ◌<◌}
use native.Mathlib.Nat.{div-lt_self, mod-lt, div-add-mod', div-le_self}
use mathlib.Core.Path.{◌≡◌, refl, ◌∙◌}
use mathlib.Core.Logic.{◌⊎◌, inl, inr, ◌≢◌}
use mathlib.Core.Bool.{true, false}
use mathlib.Core.Option.{some}
use mathlib.Core.List.{[], ◌∷◌}
use native.Mathlib.Decide.{ℕ_discrete}
use native.Mathlib.Omega.{arith}
use icapmock.Prelude.Tests.{◌==◌, Bool-cases}
use icapmock.Prelude.Lists.{All}
use icapmock.Prelude.Strings.{Bytes, IsPlain, lacks}
use icapmock.Prelude.Int64.{pos}
use icapmock.Prelude.Radix.{
  max_uint64, digit_value, scan_uint, parse_uint, signed, parse_magnitude, parse_int, digit_char,
  digits, format_uint,
}

abbrev pub IsBase : ℕ → Type 0
IsBase base = (2 ≤ base) × (base ≤ 36)

-- A decimal digit or a lower-case letter.
abbrev pub IsAlnum : ℕ → Type 0
IsAlnum c = ((b'0' ≤ c) × (c ≤ b'9')) ⊎ ((b'a' ≤ c) × (c ≤ b'z'))

digit_value-digit_char : (d : ℕ) → d < 36 → digit_value (digit_char d) ≡ some d
unfolding digit_value digit_char
digit_value-digit_char d h = ground arith

digit_char-IsAlnum : (d : ℕ) → d < 36 → IsAlnum (digit_char d)
unfolding digit_char
digit_char-IsAlnum d h = ground arith

-- Reading the last digit of `n` after the number that the digits before it spell.
scan_uint_last :
    (base n : ℕ) (out : Bytes)
    → IsBase base
    → n ≤ max_uint64
    → scan_uint base (digit_char (n % base) ∷ out) (n / base) ≡ scan_uint base out n
unfolding scan_uint
scan_uint_last base n out h fits =
    let lt = mod-lt n {m = base} (omega arith) in
    let whole = div-add-mod' n base in
    ground (arith, digit_value-digit_char (n % base) (omega arith))

scan_uint-digits :
    (base rounds n : ℕ) (out : Bytes)
    → IsBase base
    → n ≤ rounds
    → n ≤ max_uint64
    → scan_uint base (digits base rounds n out) 0 ≡ scan_uint base out n
unfolding digits
scan_uint-digits base zero n out h k fits = let e : n ≡ 0 = omega arith in rw e
scan_uint-digits base (suc rounds) n out h k fits = elim (ℕ_discrete n 0) [
  | yes e ↦ rw e
  | no ne ↦
      let smaller = div-lt_self {n = n} {k = base} (omega arith) (omega arith) in
      let step = scan_uint_last base n out h fits in
      let ih =
        scan_uint-digits base rounds (n / base) (digit_char (n % base) ∷ out) h (omega arith)
          (omega arith) in
      ground arith
]

digits-All :
    (base rounds n : ℕ) (out : Bytes)
    → IsBase base
    → All IsAlnum out
    → All IsAlnum (digits base rounds n out)
unfolding digits
digits-All base zero n out h a = a
digits-All base (suc rounds) n out h a = elim (Bool-cases (n == 0)) [
  | inl done ↦ rw done a
  | inr more ↦
      let lt = mod-lt n {m = base} (omega arith) in
      rw more (
        digits-All base rounds (n / base) (digit_char (n % base) ∷ out) h
          (digit_char-IsAlnum (n % base) (omega arith), a))
]

digits-ne-nil : (base rounds n : ℕ) (out : Bytes) → out ≢ [] → digits base rounds n out ≢ []
unfolding digits
digits-ne-nil base zero n out h = h
digits-ne-nil base (suc rounds) n out h = elim (Bool-cases (n == 0)) [
  | inl done ↦ rw done h
  | inr more ↦
      rw more (digits-ne-nil base rounds (n / base) (digit_char (n % base) ∷ out) (λ e. cc))
]

pub format_uint-All : (base n : ℕ) → IsBase base → All IsAlnum (format_uint base n)
unfolding format_uint
format_uint-All base n h = elim (Bool-cases (n == 0)) [
  | inl e ↦ rw e (ground arith)
  | inr e ↦ rw e (digits-All base n n [] h tt)
]

format_uint-suc :
    (base n : ℕ)
    → format_uint base (suc n) ≡ digits base n (suc n / base) (digit_char (suc n % base) ∷ [])
unfolding format_uint digits
format_uint-suc base n = ground arith

pub format_uint-ne-nil : (base n : ℕ) → format_uint base n ≢ []
unfolding format_uint
format_uint-ne-nil base zero e = cc
format_uint-ne-nil base (suc n) e =
    digits-ne-nil base n (suc n / base) (digit_char (suc n % base) ∷ []) (λ p. cc)
      (rw (format_uint-suc base n) at e)

parse_uint-scan_uint : (base : ℕ) (s : Bytes) → s ≢ [] → parse_uint base s ≡ scan_uint base s 0
unfolding parse_uint
parse_uint-scan_uint base [] h = absurd (h refl)
parse_uint-scan_uint base (c ∷ s) h = refl

scan_uint-format_uint :
    (base n : ℕ) → IsBase base → n ≤ max_uint64 → scan_uint base (format_uint base n) 0 ≡ some n
scan_uint-format_uint base zero h fits = unfold format_uint scan_uint digit_value in ground arith
scan_uint-format_uint base (suc n) h fits = rw (format_uint-suc base n) (
    scan_uint-digits base n (suc n / base) (digit_char (suc n % base) ∷ []) h
      (omega (arith, div-lt_self {n = suc n} {k = base} (omega arith) (omega arith)))
      (omega (arith, div-le_self (suc n) base))
    ∙ scan_uint_last base (suc n) [] h fits
    ∙ unfold scan_uint in refl)

pub parse_uint-format_uint :
    (base n : ℕ) → IsBase base → n ≤ max_uint64 → parse_uint base (format_uint base n) ≡ some n
parse_uint-format_uint base n h fits =
    parse_uint-scan_uint base (format_uint base n) (format_uint-ne-nil base n)
    ∙ scan_uint-format_uint base n h fits

-- A text of digits and letters has no sign to strip.
parse_int-parse_magnitude :
    (base : ℕ) (s : Bytes)
    → s ≢ []
    → All IsAlnum s
    → parse_int base s ≡ parse_magnitude false base s
unfolding parse_int
parse_int-parse_magnitude base [] h a = absurd (h refl)
parse_int-parse_magnitude base (c ∷ s) h (a, _) = ground arith

-- Every non-negative int64 is read back.
pub parse_int-format_uint :
    (base n : ℕ) → IsBase base → n < 2 ^ 63 → parse_int base (format_uint base n) ≡ some (pos n)
unfolding parse_magnitude signed
parse_int-format_uint base n h fits =
    parse_int-parse_magnitude base (format_uint base n) (format_uint-ne-nil base n)
      (format_uint-All base n h)
    ∙ ground (arith, parse_uint-format_uint base n h (omega arith))

pub IsAlnum-IsPlain : (s : Bytes) → All IsAlnum s → All IsPlain s
IsAlnum-IsPlain [] h = tt
IsAlnum-IsPlain (c ∷ s) (p, h) = (ground arith, IsAlnum-IsPlain s h)

-- Digits and letters hold no separator.
pub IsAlnum-lacks : (b : ℕ) (s : Bytes) → ¬ IsAlnum b → All IsAlnum s → lacks b s ≡ true
IsAlnum-lacks b [] no_b h = refl
IsAlnum-lacks b (c ∷ s) no_b (p, h) = ground (arith, IsAlnum-lacks b s no_b h)
