-- ===== src/Icap/Chunked/Encoded.antt =====
-- pkg/icap/encoding.go: what the reader makes of the lines of a well-formed chunked body.
use mathlib.Core.List.{reverse-append, reverse-reverse}
use native.Mathlib.Nat.{div-lt_iff_lt-mul, pow-suc, pow-zero}
use icapmock.Prelude.{
  ℕ, zero, suc, ◌+◌, ◌/◌, ◌^◌, ◌≤◌, ◌<◌, ◌≡◌, ◌≢◌, refl, sym, ap, ◌∙◌, true, false, none, [], ◌∷◌,
  ◌++◌, reverse, append_assoc, arith, ltb, ◌==◌, if◌then◌else◌, Bool-cases, Bytes, codes, All,
  All-reverse, length, length-append, is_nil, lacks, lacks-append, inl, inr, split_byte,
  split_byte-lacks, has_prefix, trim_suffix, trim_space-All, index_byte,
}
use icapmock.Prelude.Radix.{format_uint, digit_char, digits}
use Prim.Native.Nat.{◌%◌}
use icapmock.Prelude.Radix.RoundTrip.{
  IsAlnum, format_uint-All, format_uint-ne-nil, parse_int-format_uint, IsAlnum-IsPlain,
  IsAlnum-lacks,
}
use icapmock.Icap.Chunked.Source.{Error, chunk_too_large, line, bounded_line}
use icapmock.Icap.Chunked.Header.{
  parsed, malformed, max_chunk_size, before_byte, parse_chunk_size, format_chunk_size,
  parse_chunk_header,
}

-- A line is read through its newline, and what follows stays in the stream.
pub bounded_line-lacks :
    (room : ℕ) (limit_error stop : Error) (s rest : Bytes)
    → lacks b'\n' s ≡ true
    → length s < room
    → bounded_line room limit_error (s ++ b'\n' ∷ rest) stop
      ≡ line (s ++ b'\n' ∷ []) (record { bytes = rest; stop = stop })
unfolding bounded_line
bounded_line-lacks zero e stop s rest h lt = absurd (omega arith)
bounded_line-lacks (suc room) e stop [] rest h lt = refl
bounded_line-lacks (suc room) e stop (c ∷ s) rest h lt =
    ground (arith, bounded_line-lacks room e stop s rest)

trim_crlf : (s : Bytes) → trim_suffix (s ++ codes "\r\n") (codes "\r\n") ≡ s
unfolding trim_suffix has_prefix
trim_crlf s = rw (reverse-append s (codes "\r\n")) (reverse-reverse s)

no_lf_first : (t : Bytes) → All IsAlnum t → has_prefix t (codes "\n") ≡ false
unfolding has_prefix
no_lf_first [] h = refl
no_lf_first (c ∷ t) (p, h) = ground arith

trim_lf-All : (s : Bytes) → All IsAlnum s → trim_suffix s (codes "\n") ≡ s
unfolding trim_suffix
trim_lf-All s h = rw (no_lf_first (reverse s) (All-reverse IsAlnum s h), trim_suffix)

index_byte-lacks : (b : ℕ) (s : Bytes) → lacks b s ≡ true → index_byte s b ≡ none
unfolding index_byte
index_byte-lacks b [] h = refl
index_byte-lacks b (c ∷ s) h = ground (arith, index_byte-lacks b s)

before_byte-lacks : (b : ℕ) (s : Bytes) → lacks b s ≡ true → before_byte b s ≡ s
unfolding before_byte
before_byte-lacks b s h = ground (arith, index_byte-lacks b s h)

is_nil-ne : (s : Bytes) → s ≢ [] → is_nil s ≡ false
is_nil-ne [] h = absurd (h refl)
is_nil-ne (c ∷ s) h = refl

-- A size is read back from its hexadecimal print.
pub parse_chunk_size-format_chunk_size :
    (n : ℕ) → n < 2 ^ 63 → parse_chunk_size (format_chunk_size n) ≡ parsed n
unfolding parse_chunk_size format_chunk_size
parse_chunk_size-format_chunk_size n h =
    let digits_only = format_uint-All 16 n (omega arith) in
    let text = format_uint 16 n in
    ground (
      arith,
      trim_space-All text (IsAlnum-IsPlain text digits_only),
      before_byte-lacks b';' text (IsAlnum-lacks b';' text (λ p. omega arith) digits_only),
      is_nil-ne text (format_uint-ne-nil 16 n),
      parse_int-format_uint 16 n (omega arith) h,
    )

-- The header line of a chunk that the writer makes.
parse_chunk_header-eq :
    (n : ℕ)
    → n < 2 ^ 63
    → parse_chunk_header (format_chunk_size n ++ codes "\r\n") ≡ (
        if ltb max_chunk_size n
        then malformed chunk_too_large
        else parsed (record { extensions = []; size = n }))
unfolding parse_chunk_header
parse_chunk_header-eq n h =
    let text = format_chunk_size n in
    let digits_only : All IsAlnum text =
      unfold format_chunk_size in format_uint-All 16 n (omega arith) in
    let size = parse_chunk_size-format_chunk_size n h in
    let one_field = IsAlnum-lacks b';' text (λ p. omega arith) digits_only in
    let fields : split_byte b';'
          (trim_suffix (trim_suffix (text ++ codes "\r\n") (codes "\r\n")) (codes "\n"))
        ≡ (text, []) =
      rw (trim_crlf text)
        (rw (trim_lf-All text digits_only) (split_byte-lacks b';' text one_field)) in
    ground arith

pub parse_chunk_header-format_chunk_size :
    (n : ℕ)
    → n ≤ max_chunk_size
    → parse_chunk_header (format_chunk_size n ++ codes "\r\n")
      ≡ parsed (record { extensions = []; size = n })
parse_chunk_header-format_chunk_size n h = parse_chunk_header-eq n (omega arith) ∙ ground arith

pub parse_chunk_header_oversize :
    (n : ℕ)
    → max_chunk_size < n
    → n < 2 ^ 63
    → parse_chunk_header (format_chunk_size n ++ codes "\r\n") ≡ malformed chunk_too_large
parse_chunk_header_oversize n h k = parse_chunk_header-eq n k ∙ ground arith

length-digits :
    (base rounds n k : ℕ) (out : Bytes)
    → 2 ≤ base
    → n < base ^ k
    → length (digits base rounds n out) ≤ k + length out
unfolding digits
length-digits base zero n k out h lt = omega arith
length-digits base (suc rounds) n zero out h lt =
    let none_left : n ≡ 0 = omega (arith, pow-zero base) in rw none_left (omega arith)
length-digits base (suc rounds) n (suc k) out h lt = elim (Bool-cases (n == 0)) [
  | inl done ↦ rw done (omega arith)
  | inr more ↦
      let fewer = (div-lt_iff_lt-mul {k = base} (omega arith)).1 (rw pow-suc at lt) in
      let ih = length-digits base rounds (n / base) k (digit_char (n % base) ∷ out) h fewer in
      rw more (omega (arith, ih))
]

length-format_chunk_size : (n : ℕ) → n < 2 ^ 63 → length (format_chunk_size n) ≤ 16
unfolding format_chunk_size format_uint
length-format_chunk_size n h =
    ground (arith, length-digits 16 n n 16 [] (omega arith) (omega arith))

-- The line that opens a chunk is short enough for the reader, and ends at its newline.
pub bounded_line-format_chunk_size :
    (n room : ℕ) (limit_error stop : Error) (rest : Bytes)
    → n < 2 ^ 63
    → 18 ≤ room
    → bounded_line room limit_error (format_chunk_size n ++ b'\r' ∷ b'\n' ∷ rest) stop
      ≡ line (format_chunk_size n ++ codes "\r\n") (record { bytes = rest; stop = stop })
bounded_line-format_chunk_size n room e stop rest h k =
    let text = format_chunk_size n in
    let digits_only : All IsAlnum text =
      unfold format_chunk_size in format_uint-All 16 n (omega arith) in
    let head = text ++ b'\r' ∷ [] in
    let short = length-append text (b'\r' ∷ []) in
    let one_line : lacks b'\n' head ≡ true =
      lacks-append b'\n' text (b'\r' ∷ []) (IsAlnum-lacks b'\n' text (λ p. omega arith) digits_only)
        refl in
    ap (λ (x : Bytes). bounded_line room e x stop) (sym (append_assoc text (b'\r' ∷ []) _))
    ∙ bounded_line-lacks room e stop head rest one_line
        (omega (arith, short, length-format_chunk_size n h))
    ∙ ap (λ (x : Bytes). line x (record { bytes = rest; stop = stop }))
        (append_assoc text (b'\r' ∷ []) (b'\n' ∷ []))
