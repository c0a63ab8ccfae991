-- ===== src/Icap/Chunked/Header.antt =====
-- pkg/icap/encoding.go: chunk-size lines, `ParseChunkSize` and `FormatChunkSize`.
use icapmock.Prelude.{
  ℕ, ◌^◌, Bool, none, some, List, map, ltb, if◌then◌else◌, Bytes, codes, ◌=ᵇ◌, is_nil, take, any_of,
  index_byte, split_byte, trim_space, trim_suffix, lower_ascii,
}
use icapmock.Prelude.Int64.{pos, negsuc}
use icapmock.Prelude.Radix.{parse_int, format_uint}
use icapmock.Icap.Chunked.Source.{
  Error, empty_chunk_size, invalid_chunk_size, negative_chunk_size, chunk_too_large,
}

abbrev pub max_chunk_size : ℕ
max_chunk_size = 2 ^ 20

abbrev pub max_chunk_header_length : ℕ
max_chunk_header_length = 4096

pub data Parsed {ℓ} (A : Type ℓ) : Type ℓ where
  parsed : A → Parsed A
  malformed : Error → Parsed A

-- The text before the first `b`, or all of it: `s[:idx]`, and the first part of `strings.Cut`.
unfoldable pub before_byte : ℕ → Bytes → Bytes
before_byte b s = elim (index_byte s b) [ none ↦ s | some i ↦ take i s ]

unfoldable pub parse_chunk_size : Bytes → Parsed ℕ
parse_chunk_size text =
    let s = trim_space text in
    if is_nil s then malformed empty_chunk_size else elim (parse_int 16 (before_byte b';' s)) [
      | none ↦ malformed invalid_chunk_size
      | some (pos n) ↦ parsed n
      | some (negsuc n) ↦ malformed negative_chunk_size
    ]

-- `strconv.FormatInt(n, 16)` of a size.
unfoldable pub format_chunk_size : ℕ → Bytes
format_chunk_size n = format_uint 16 n

pub record ParsedChunkHeader : Type 0 where
  pub extensions : List Bytes
  pub size : ℕ

-- `strings.EqualFold` with an ASCII word that has no `k` or `s`, the letters that also fold with
-- a letter beyond ASCII.
unfoldable pub equal_fold : Bytes → Bytes → Bool
equal_fold s word = map lower_ascii s =ᵇ map lower_ascii word

abbrev pub extension_name : Bytes → Bytes
extension_name extension = trim_space (before_byte b'=' (trim_space extension))

unfoldable pub has_extension : ParsedChunkHeader → Bytes → Bool
unfolding equal_fold before_byte
has_extension h name = any_of (λ e. equal_fold (extension_name e) name) h.extensions

-- What `readChunkHeader` makes of the line that it read.
unfoldable pub parse_chunk_header : Bytes → Parsed ParsedChunkHeader
parse_chunk_header raw =
    let text = trim_suffix (trim_suffix raw (codes "\r\n")) (codes "\n") in
    let (first, others) = split_byte b';' text in
    elim (parse_chunk_size first) [
      | malformed e ↦ malformed e
      | parsed size ↦
          if ltb max_chunk_size size
          then malformed chunk_too_large
          else parsed (record { extensions = others; size = size })
    ]
