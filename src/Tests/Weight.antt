-- ===== src/Tests/Weight.antt =====
-- internal/weight/percentage.go: the theorems on runs.
use icapmock.Prelude.{◌≡◌, refl, arith, codes, trim_space, has_prefix, split_byte}
use icapmock.Weight.{
  parse, parsed, refused, to_string, above_hundred, parse_decimal_parts, decimal_texts,
  decimal_value, fixed_point, rounded_thousandths,
}
use icapmock.Prelude.Radix.{parse_int, parse_magnitude, signed, parse_uint, scan_uint, digit_value}
use icapmock.Weight.Decimals.{parse-written}
use icapmock.Weight.RoundTrip.{parse-to_string}

parse_half : parse (codes " 0.5 ") ≡ parsed 500
unfolding parse parse_decimal_parts trim_space has_prefix decimal_texts split_byte decimal_value
    parse_int parse_magnitude signed parse_uint scan_uint digit_value fixed_point
    rounded_thousandths
parse_half = refl

over_hundred : parse (codes "100.0001") ≡ refused above_hundred
unfolding parse_half
over_hundred = refl

-- 12.3455 is rounded up.
parse-written_example : parse (codes "12.3455") ≡ parsed 12346
parse-written_example =
    parse-written b'1' (codes "2") (codes "3455") (omega arith) (omega arith) (omega arith)

parse-to_string_example : parse (to_string 1050) ≡ parsed 1050
parse-to_string_example = parse-to_string 1050 (omega arith) (omega arith)
