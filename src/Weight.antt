-- ===== src/Weight.antt =====
-- internal/weight/percentage.go: exact percentages, in thousandths of one percent.
pub mod Rounding
pub mod Decimals
pub mod RoundTrip
use icapmock.Prelude.{
  ℕ, zero, suc, ◌+◌, ◌*◌, ◌-◌, ◌/◌, ◌%◌, Bool, true, false, not, ◌&&◌, ◌||◌, Option, none, some,
  List, [], ◌∷◌, ◌++◌, ltb, leb, ◌==◌, if◌then◌else◌, Bytes, codes, length, take, drop, is_nil,
  all_of, has_prefix, split_byte, trim_space,
}
use icapmock.Prelude.Int64.{ℤ, pos, pos_part, int_ltb, int_eq}
use icapmock.Prelude.Radix.{parse_int, format_uint}

abbrev pub scale : ℕ
scale = 1000

abbrev pub total_units : ℕ
total_units = 100 * scale

pub data WeightError : Type 0 where
  required not_positive not_decimal above_hundred rounds_to_zero : WeightError

pub data Parsed (A : Type 0) : Type 0 where
  parsed : A → Parsed A
  refused : WeightError → Parsed A

abbrev pub is_digit : ℕ → Bool
is_digit c = leb b'0' c && leb c b'9'

-- The two texts that the first dot separates, the second empty without a dot; `none` for two dots,
-- or a dot with nothing on a side.
unfoldable pub decimal_texts : Bytes → Option (Bytes × Bytes)
decimal_texts s =
    let (first, others) = split_byte b'.' s in
    elim others [
      | [] ↦ if is_nil first then none else some (first, [])
      | second ∷ further ↦
          if not (is_nil further) || is_nil first || is_nil second
          then none
          else some (first, second)
    ]

-- `strconv.Atoi` of the whole part, and the check of the fraction's digits.
unfoldable pub decimal_value : Bytes × Bytes → Parsed (ℤ × Bytes)
decimal_value (first, fraction) = elim (parse_int 10 first) [
  | none ↦ refused not_decimal
  | some whole ↦ if all_of is_digit fraction then parsed (whole, fraction) else refused not_decimal
]

unfoldable pub parse_decimal_parts : Bytes → Parsed (ℤ × Bytes)
parse_decimal_parts value =
    let normalized = trim_space value in
    if is_nil normalized
    then refused required
    else if has_prefix normalized (codes "-")
    then refused not_positive
    else if has_prefix normalized (codes "+")
    then refused not_decimal
    else elim (decimal_texts normalized) [ none ↦ refused not_decimal | some t ↦ decimal_value t ]

-- `padded[3]`, which is always there.
abbrev pub fourth : Bytes → ℕ
fourth (a ∷ b ∷ c ∷ d ∷ s) = d
fourth _ = 0

unfoldable pub rounded_thousandths : Bytes → ℕ
rounded_thousandths fraction =
    let padded = fraction ++ codes "0000" in
    let milli : ℕ = elim (parse_int 10 (take 3 padded)) [ none ↦ 0 | some v ↦ pos_part v ] in
    if leb b'5' (fourth padded) then milli + 1 else milli

-- `strings.Trim(fraction, "0") == ""`.
abbrev pub only_zeros : Bytes → Bool
only_zeros fraction = all_of (λ c. c == b'0') fraction

-- The rest of `Parse`. The whole part has no sign, so it is its own positive part.
unfoldable pub fixed_point : ℤ → Bytes → Parsed ℕ
fixed_point whole fraction =
    if int_ltb (pos 100) whole || int_eq whole (pos 100) && not (only_zeros fraction)
    then refused above_hundred
    else let units = pos_part whole * scale + rounded_thousandths fraction in
      if units == 0
      then refused rounds_to_zero
      else parsed (if ltb total_units units then total_units else units)

unfoldable pub parse : Bytes → Parsed ℕ
parse value = elim (parse_decimal_parts value) [
  | refused e ↦ refused e
  | parsed (whole, fraction) ↦ fixed_point whole fraction
]

-- `%03d`.
unfoldable pub three_digits : ℕ → Bytes
three_digits n =
    let s = format_uint 10 n in
    if length s == 1 then codes "00" ++ s else if length s == 2 then codes "0" ++ s else s

-- `String` of a percentage that is not negative.
unfoldable pub to_string : ℕ → Bytes
to_string p = format_uint 10 (p / scale) ++ b'.' ∷ three_digits (p % scale)
