-- ===== src/Icap/Chunked/Reader.antt =====
-- pkg/icap/encoding.go: `ChunkedReader`. A method that can fail is a state transformer that keeps
-- the reader's state with its error.
use icapmock.Prelude.{
  ℕ, zero, suc, ◌+◌, ◌*◌, ◌-◌, Bool, true, false, not, ◌&&◌, ◌||◌, Option, none, some, [], ◌++◌,
  ltb, ◌==◌, if◌then◌else◌, Bytes, codes, ◌=ᵇ◌, length, min,
}
use icapmock.Icap.Chunked.Source.{
  Error, eof, unexpected_eof, chunk_header_too_long, trailer_line_too_long, too_many_trailers,
  trailers_too_large, preview_not_enabled, preview_not_at_boundary, preview_ieof,
  preview_already_continued, malformed_terminator, is_eof, Source, read_full, line, no_line,
  bounded_line,
}
use icapmock.Icap.Chunked.Header.{
  parsed, malformed, ParsedChunkHeader, has_extension, parse_chunk_header, max_chunk_header_length,
}

abbrev pub max_trailer_line_length : ℕ
max_trailer_line_length = 8192

abbrev pub max_trailer_count : ℕ
max_trailer_count = 100

abbrev pub max_trailer_bytes : ℕ
max_trailer_bytes = 32 * 1024

pub record ChunkedReader : Type 0 where
  pub err : Option Error
  pub source : Source
  pub n : ℕ
  pub finished : Bool
  pub preview_enabled : Bool
  pub preview_boundary : Bool
  pub preview_ieof : Bool
  pub preview_continued : Bool

pub data Outcome (A : Type 0) : Type 0 where
  ok : A → ChunkedReader → Outcome A
  fail : Error → ChunkedReader → Outcome A

abbrev pub M : Type 0 → Type 0
M A = ChunkedReader → Outcome A

infixl 5 ◌>>=◌ ◌>>◌
abbrev pub ◌>>=◌ : {A B : Type 0} → M A → (A → M B) → M B
◌>>=◌ m f r = elim (m r) [ ok a r' ↦ f a r' | fail e r' ↦ fail e r' ]

abbrev pub ◌>>◌ : {B : Type 0} → M (Unit {0}) → M B → M B
m >> k = m >>= λ _. k

unfoldable pub new_chunked_reader : Source → ChunkedReader
new_chunked_reader s = record {
  err = none;
  source = s;
  n = 0;
  finished = false;
  preview_enabled = false;
  preview_boundary = false;
  preview_ieof = false;
  preview_continued = false;
}

unfoldable pub enable_preview : ChunkedReader → ChunkedReader
enable_preview r = record r { preview_enabled = true }

unfoldable pub preview_boundary_of : ChunkedReader → Bool × Bool
preview_boundary_of r = (r.preview_boundary, r.preview_ieof)

unfoldable pub continue_after_preview : ChunkedReader → Option Error × ChunkedReader
continue_after_preview r =
    if not r.preview_enabled
    then (some preview_not_enabled, r)
    else if r.preview_continued
    then (some preview_already_continued, r)
    else if not r.preview_boundary
    then (some preview_not_at_boundary, r)
    else if r.preview_ieof
    then (some preview_ieof, r)
    else (none, record r { preview_boundary = false; preview_continued = true })

unfoldable pub read_bounded_line : ℕ → Error → M Bytes
read_bounded_line limit limit_error r =
    elim (bounded_line limit limit_error r.source.bytes r.source.stop) [
      | line l s ↦ ok l (record r { source = s })
      | no_line e s ↦ fail e (record r { source = s })
    ]

unfoldable pub read_chunk_header : M ParsedChunkHeader
read_chunk_header r = elim (read_bounded_line max_chunk_header_length chunk_header_too_long r) [
  | fail e r' ↦ fail e r'
  | ok raw r' ↦ elim (parse_chunk_header raw) [ malformed e ↦ fail e r' | parsed h ↦ ok h r' ]
]

abbrev pub is_blank_line : Bytes → Bool
is_blank_line l = l =ᵇ codes "\r\n" || l =ᵇ codes "\n"

abbrev done : M (Unit {0})
done r = ok tt r

abbrev stop_with : Error → M (Unit {0})
stop_with e r = fail e r

unfoldable pub read_trailer_line : M Bytes
read_trailer_line r = elim (read_bounded_line max_trailer_line_length trailer_line_too_long r) [
  | fail e r' ↦ fail (if is_eof e then unexpected_eof else e) r'
  | ok l r' ↦ ok l r'
]

-- The loop of `readTrailer`: the first argument counts the trailers that are still allowed, the
-- second the bytes of those read.
unfoldable pub read_trailer_from : ℕ → ℕ → M (Unit {0})
read_trailer_from zero total = do
  l ← read_trailer_line
  if is_blank_line l then done else stop_with too_many_trailers
read_trailer_from (suc left) total = do
  l ← read_trailer_line
  let total' = total + length l
  if is_blank_line l
      then done
      else if ltb max_trailer_bytes total'
      then stop_with trailers_too_large
      else read_trailer_from left total'

unfoldable pub read_trailer : M (Unit {0})
read_trailer = read_trailer_from max_trailer_count 0

-- The state at the zero chunk, once its trailer is read.
unfoldable pub at_zero_chunk : ParsedChunkHeader → ChunkedReader → ChunkedReader
at_zero_chunk h r =
    let ieof = has_extension h (codes "ieof") in
    if r.preview_enabled && not r.preview_continued
    then record r { preview_boundary = true; preview_ieof = ieof; finished = ieof }
    else record r { finished = true }

-- It never returns without an error: io.EOF tells that the body ends here.
unfoldable pub finish_zero_chunk : ParsedChunkHeader → M (Unit {0})
finish_zero_chunk h = do read_trailer; λ r. fail eof (at_zero_chunk h r)

unfoldable pub start_chunk : M (Unit {0})
start_chunk = do
  h ← read_chunk_header
  if ltb 0 h.size then (λ r. ok tt (record r { n = h.size })) else finish_zero_chunk h

unfoldable pub read_crlf : ChunkedReader → Option Error × ChunkedReader
read_crlf r =
    let f = read_full 2 r.source in
    let r' = record r { source = f.source } in
    elim f.failure [
      | some e ↦ (some e, r')
      | none ↦ (if f.got =ᵇ codes "\r\n" then none else some malformed_terminator, r')
    ]

-- The bytes put into the buffer, the error, and the state.
pub record Read : Type 0 where
  pub got : Bytes
  pub failure : Option Error
  pub reader : ChunkedReader

-- After the last byte of a chunk: its terminator, whose error is kept.
unfoldable pub end_chunk : Bytes → ChunkedReader → Read
end_chunk got r =
    let (failure, r') = read_crlf r in
    elim failure [
      | none ↦ record { got = got; failure = none; reader = r' }
      | some e ↦ record { got = got; failure = some e; reader = record r' { err = some e } }
    ]

unfoldable pub read_chunk_data : ℕ → ChunkedReader → Read
read_chunk_data k r =
    let f = read_full (min k r.n) r.source in
    let r' = record r { source = f.source; n = r.n - length f.got } in
    elim f.failure [
      | some e ↦ record { got = f.got; failure = some e; reader = r' }
      | none ↦
          if r'.n == 0
          then end_chunk f.got r'
          else record { got = f.got; failure = none; reader = r' }
    ]

abbrev at_end : Error → ChunkedReader → Read
at_end e r = record { got = []; failure = some e; reader = r }

-- `Read` into a buffer of `k` bytes.
unfoldable pub read : ℕ → ChunkedReader → Read
read k r = elim r.err [
  | some e ↦ at_end e r
  | none ↦
      if r.finished || r.preview_boundary
      then at_end eof r
      else if r.n == 0
      then elim (start_chunk r) [
        | fail e r' ↦ at_end e (if is_eof e then r' else record r' { err = some e })
        | ok _ r' ↦ read_chunk_data k r'
      ]
      else read_chunk_data k r
]

-- The result of `io.ReadAll`: the data, and an error that is not io.EOF.
pub record Collected : Type 0 where
  pub content : Bytes
  pub failure : Option Error
  pub reader : ChunkedReader

abbrev pub not_eof : Error → Option Error
not_eof e = if is_eof e then none else some e

abbrev pub more : Bytes → Option Collected → Option Collected
more got none = none
more got (some c) = some (record c { content = got ++ c.content })

-- `io.ReadAll`, which reads until an error; the buffer of each round has the size that `sizes`
-- gives for it. `none`: the rounds were used up.
unfoldable pub read_all : ℕ → (ℕ → ℕ) → ChunkedReader → Option Collected
read_all zero sizes r = none
read_all (suc rounds) sizes r =
    let x = read (sizes rounds) r in
    elim x.failure [
      | some e ↦ some (record { content = x.got; failure = not_eof e; reader = x.reader })
      | none ↦ more x.got (read_all rounds sizes x.reader)
    ]

-- `ReadChunkedBody`.
unfoldable pub read_chunked_body : ℕ → (ℕ → ℕ) → Source → Option Collected
read_chunked_body rounds sizes s = read_all rounds sizes (new_chunked_reader s)
