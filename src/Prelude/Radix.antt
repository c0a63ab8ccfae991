-- ===== src/Prelude/Radix.antt =====
-- Go's `strconv`: numbers in a base from 2 to 36, read and printed.
pub mod RoundTrip
use Prim.Native.Nat.{ℕ, zero, suc, ◌+◌, ◌-◌, ◌*◌, ◌/◌, ◌%◌, ◌^◌}
use mathlib.Core.Path.{◌≡◌, refl}
use mathlib.Core.Bool.{Bool, true, false, ◌&&◌}
use mathlib.Core.Option.{Option, none, some}
use mathlib.Core.List.{List, [], ◌∷◌}
use icapmock.Prelude.Tests.{ltb, leb, ◌==◌, if◌then◌else◌}
use icapmock.Prelude.Strings.{Bytes}
use icapmock.Prelude.Int64.{ℤ, pos, negsuc}

abbrev pub max_uint64 : ℕ
max_uint64 = 2 ^ 64 - 1

-- A decimal digit, or a letter in either case.
unfoldable pub digit_value : ℕ → Option ℕ
digit_value c =
    if leb b'0' c && leb c b'9'
    then some (c - b'0')
    else if leb b'a' c && leb c b'z'
    then some (c - b'a' + 10)
    else if leb b'A' c && leb c b'Z'
    then some (c - b'A' + 10)
    else none

-- The digits of `s` behind the number `n`; `none` for another byte, or past 64 bits.
unfoldable pub scan_uint : ℕ → Bytes → ℕ → Option ℕ
scan_uint base [] n = some n
scan_uint base (c ∷ s) n = elim (digit_value c) [
  | none ↦ none
  | some d ↦
      let m = n * base + d in
      if leb base d then none else if ltb max_uint64 m then none else scan_uint base s m
]

-- `strconv.ParseUint(s, base, 64)` with an explicit base.
unfoldable pub parse_uint : ℕ → Bytes → Option ℕ
parse_uint base [] = none
parse_uint base (c ∷ s) = scan_uint base (c ∷ s) 0

unfoldable pub signed : Bool → ℕ → Option ℤ
signed false n = if leb (2 ^ 63) n then none else some (pos n)
signed true zero = some (pos 0)
signed true (suc n) = if ltb (2 ^ 63) (suc n) then none else some (negsuc n)

unfoldable pub parse_magnitude : Bool → ℕ → Bytes → Option ℤ
parse_magnitude negative base s = elim (parse_uint base s) [
  | none ↦ none
  | some n ↦ signed negative n
]

-- `strconv.ParseInt(s, base, 64)` with an explicit base; `strconv.Atoi` is base 10.
unfoldable pub parse_int : ℕ → Bytes → Option ℤ
parse_int base [] = none
parse_int base (c ∷ s) =
    if c == b'-'
    then parse_magnitude true base s
    else if c == b'+'
    then parse_magnitude false base s
    else parse_magnitude false base (c ∷ s)

unfoldable pub digit_char : ℕ → ℕ
digit_char d = if ltb d 10 then b'0' + d else b'a' + (d - 10)

-- One round for each digit; `n` rounds are enough for the number `n`.
unfoldable pub digits : ℕ → ℕ → ℕ → Bytes → Bytes
digits base zero n out = out
digits base (suc rounds) n out =
    let rest = digits base rounds (n / base) (digit_char (n % base) ∷ out) in
    if n == 0 then out else rest

-- `strconv.FormatUint(n, base)`.
unfoldable pub format_uint : ℕ → ℕ → Bytes
format_uint base n = if n == 0 then b'0' ∷ [] else digits base n n []
