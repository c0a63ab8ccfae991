-- ===== src/Prelude/Strings/Space.antt =====
-- `strings.TrimSpace` on the bytes of a text: what it takes for white space is the encoding of a
-- code point with the Unicode property White_Space, as in Go's `unicode.IsSpace`.
use Prim.Native.Nat.{ℕ, zero, suc, ◌<◌}
use mathlib.Core.Path.{◌≡◌, refl}
use mathlib.Core.Bool.{Bool, ◌&&◌, ◌||◌}
use mathlib.Core.List.{[], ◌∷◌, reverse, reverse-reverse}
use native.Mathlib.Omega.{arith}
use icapmock.Prelude.Tests.{leb, ◌==◌, if◌then◌else◌}
use icapmock.Prelude.Lists.{length, drop, All, All-reverse}
use icapmock.Prelude.Strings.Text.{Bytes}

-- A tab, newline, vertical tab, form feed, carriage return or blank.
abbrev pub is_ascii_space : ℕ → Bool
is_ascii_space c = c == 32 || leb 9 c && leb c 13

-- The second byte of U+0085 or U+00A0, after 0xC2.
abbrev is_latin_space : ℕ → Bool
is_latin_space d = d == 0x85 || d == 0xA0

-- The three bytes of U+1680, U+2000 to U+200A, U+2028, U+2029, U+202F, U+205F or U+3000.
abbrev is_wide_space : ℕ → ℕ → ℕ → Bool
is_wide_space a b c =
    a == 0xE1 && b == 0x9A && c == 0x80
    || a == 0xE2 && b == 0x80 && (leb 0x80 c && leb c 0x8A || c == 0xA8 || c == 0xA9 || c == 0xAF)
    || a == 0xE2 && b == 0x81 && c == 0x9F
    || a == 0xE3 && b == 0x80 && c == 0x80

-- How many bytes the white space at the front takes; 0 if there is none.
unfoldable pub space_width : Bytes → ℕ
space_width [] = 0
space_width (a ∷ []) = if is_ascii_space a then 1 else 0
space_width (a ∷ b ∷ []) =
    if is_ascii_space a then 1 else if a == 0xC2 && is_latin_space b then 2 else 0
space_width (a ∷ b ∷ c ∷ s) =
    if is_ascii_space a
    then 1
    else if a == 0xC2 && is_latin_space b
    then 2
    else if is_wide_space a b c
    then 3
    else 0

-- The same for the white space at the end of a text, whose bytes are given from the last.
unfoldable pub space_width_back : Bytes → ℕ
space_width_back [] = 0
space_width_back (a ∷ []) = if is_ascii_space a then 1 else 0
space_width_back (b ∷ a ∷ []) =
    if is_ascii_space b then 1 else if a == 0xC2 && is_latin_space b then 2 else 0
space_width_back (c ∷ b ∷ a ∷ s) =
    if is_ascii_space c
    then 1
    else if b == 0xC2 && is_latin_space c
    then 2
    else if is_wide_space a b c
    then 3
    else 0

-- One round for each byte is enough, since a round drops a byte or stops.
trim_by : (Bytes → ℕ) → ℕ → Bytes → Bytes
trim_by width zero s = s
trim_by width (suc rounds) s =
    let rest = trim_by width rounds (drop (width s) s) in if width s == 0 then s else rest

unfoldable pub trim_space : Bytes → Bytes
unfolding trim_by space_width space_width_back
trim_space s =
    let s' = trim_by space_width (length s) s in
    reverse (trim_by space_width_back (length s') (reverse s'))

-- Printable ASCII other than the blank: no white space begins or ends with such a byte.
abbrev pub IsPlain : ℕ → Type 0
IsPlain c = (32 < c) × (c < 128)

space_width_plain : (c : ℕ) (s : Bytes) → IsPlain c → space_width (c ∷ s) ≡ 0
unfolding space_width
space_width_plain c [] h = ground arith
space_width_plain c (b ∷ []) h = ground arith
space_width_plain c (b ∷ a ∷ s) h = ground arith

space_width_back_plain : (c : ℕ) (s : Bytes) → IsPlain c → space_width_back (c ∷ s) ≡ 0
unfolding space_width_back
space_width_back_plain c [] h = ground arith
space_width_back_plain c (b ∷ []) h = ground arith
space_width_back_plain c (b ∷ a ∷ s) h = ground arith

trim_by_zero :
    (width : Bytes → ℕ) (rounds : ℕ) (s : Bytes) → width s ≡ 0 → trim_by width rounds s ≡ s
unfolding trim_by
trim_by_zero width zero s h = refl
trim_by_zero width (suc rounds) s h = rw h

space_width-All : (s : Bytes) → All IsPlain s → space_width s ≡ 0
unfolding space_width
space_width-All [] h = refl
space_width-All (c ∷ s) (p, _) = space_width_plain c s p

space_width_back-All : (s : Bytes) → All IsPlain s → space_width_back s ≡ 0
unfolding space_width_back
space_width_back-All [] h = refl
space_width_back-All (c ∷ s) (p, _) = space_width_back_plain c s p

-- A text with no white space is left as it is.
pub trim_space-All : (s : Bytes) → All IsPlain s → trim_space s ≡ s
unfolding trim_space
trim_space-All s h = rw (trim_by_zero space_width (length s) s (space_width-All s h)) (
    rw
      (trim_by_zero space_width_back (length s) (reverse s)
        (space_width_back-All (reverse s) (All-reverse IsPlain s h)))
      (reverse-reverse s))

space_width_blank : (s : Bytes) → space_width (32 ∷ s) ≡ 1
unfolding space_width
space_width_blank [] = refl
space_width_blank (b ∷ []) = refl
space_width_blank (b ∷ c ∷ s) = refl

-- A blank in front makes no difference.
pub trim_space-blank : (s : Bytes) → trim_space (32 ∷ s) ≡ trim_space s
unfolding trim_space
trim_space-blank s = rw (trim_by_blank s) refl
  where
    trim_by_blank :
        (t : Bytes)
        → trim_by space_width (length (32 ∷ t)) (32 ∷ t) ≡ trim_by space_width (length t) t
    trim_by_blank t = rw (space_width_blank t) refl
