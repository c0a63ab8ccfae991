-- ===== src/Icap/Chunked/Reading.antt =====
-- pkg/icap/encoding.go: reading the chunks of a well-formed body, with buffers of any sizes.
use native.Mathlib.Decide.{dec_lt}
use icapmock.Prelude.{
  ℕ, zero, suc, ◌-◌, ◌≤◌, ◌<◌, ◌≡◌, refl, ap, ◌∙◌, false, none, List, [], ◌∷◌, ◌++◌, arith, Bytes,
  ◌=ᵇ◌, length, length-append, take, drop, take-append_le, drop-append_le, length-take, length-drop,
  min,
}
use icapmock.Icap.Chunked.Source.{Error, read_full}
use icapmock.Icap.Chunked.Header.{max_chunk_size, format_chunk_size}
use icapmock.Icap.Chunked.Reader.{
  ChunkedReader, ok, read_bounded_line, read_chunk_header, start_chunk, read_crlf, end_chunk,
  read_chunk_data,
}
use icapmock.Icap.Chunked.Encoded.{
  bounded_line-format_chunk_size, parse_chunk_header-format_chunk_size,
}

abbrev pub crlf_then : Bytes → Bytes
crlf_then rest = b'\r' ∷ b'\n' ∷ rest

-- One chunk in front of `rest`, and a list of them.
abbrev pub chunk_then : Bytes → Bytes → Bytes
chunk_then d rest = format_chunk_size (length d) ++ crlf_then (d ++ crlf_then rest)

abbrev pub chunks_then : List Bytes → Bytes → Bytes
chunks_then [] rest = rest
chunks_then (d ∷ ds) rest = chunk_then d (chunks_then ds rest)

-- A chunk holds data, and no more than the reader takes.
abbrev pub IsChunk : Bytes → Type 0
IsChunk d = (1 ≤ length d) × (length d ≤ max_chunk_size)

-- What is still in the stream when `cur` is the unread part of the current chunk.
abbrev pub remaining : Bytes → List Bytes → Bytes → Bytes
remaining [] ds rest = chunks_then ds rest
remaining (c ∷ cur) ds rest = (c ∷ cur) ++ crlf_then (chunks_then ds rest)

-- The reader `r` before the bytes `bs`, with `n` bytes of its chunk unread.
abbrev pub positioned : ChunkedReader → Bytes → ℕ → ChunkedReader
positioned r bs n = record r { source = record { bytes = bs; stop = r.source.stop }; n = n }

-- Reading goes on: no error is kept, and no end was reached.
pub record IsOpen (r : ChunkedReader) : Type 0 where
  pub no_error : r.err ≡ none
  pub unfinished : r.finished ≡ false
  pub no_boundary : r.preview_boundary ≡ false

pub start_chunk-chunk_then :
    (r : ChunkedReader) (d rest : Bytes)
    → IsChunk d
    → start_chunk (positioned r (chunk_then d rest) 0)
      ≡ ok tt (positioned r (d ++ crlf_then rest) (length d))
unfolding start_chunk read_chunk_header read_bounded_line
start_chunk-chunk_then r d rest h = ground (
  arith,
  bounded_line-format_chunk_size (length d) 4096 Error.chunk_header_too_long r.source.stop
      (d ++ crlf_then rest) (omega arith) (omega arith),
  parse_chunk_header-format_chunk_size (length d) h.1,
)

read_full-prefix :
    (k : ℕ) (d rest : Bytes) (stop : Error)
    → k ≤ length d
    → read_full k (record { bytes = d ++ rest; stop = stop }) ≡ record {
      got = take k d;
      failure = none;
      source = record { bytes = drop k d ++ rest; stop = stop };
    }
unfolding read_full
read_full-prefix k d rest stop h =
    ground (arith, length-append d rest, take-append_le k d rest h, drop-append_le k d rest h)

read_crlf-crlf_then :
    (r : ChunkedReader) (rest : Bytes) (n : ℕ)
    → read_crlf (positioned r (crlf_then rest) n) ≡ (none, positioned r rest n)
unfolding read_crlf read_full ◌=ᵇ◌
read_crlf-crlf_then r rest n = ground arith

pub take_all {ℓ} : {A : Type ℓ} (k : ℕ) (d : List A) → length d ≤ k → take k d ≡ d
take_all zero [] h = refl
take_all zero (x ∷ d) h = absurd (omega arith)
take_all (suc k) [] h = refl
take_all (suc k) (x ∷ d) h = ap (◌∷◌ x) (take_all k d (omega arith))

pub drop_all {ℓ} : {A : Type ℓ} (k : ℕ) (d : List A) → length d ≤ k → drop k d ≡ []
drop_all zero [] h = refl
drop_all zero (x ∷ d) h = absurd (omega arith)
drop_all (suc k) [] h = refl
drop_all (suc k) (x ∷ d) h = drop_all k d (omega arith)

pub remaining-ne-nil :
    (cur : Bytes) (ds : List Bytes) (rest : Bytes)
    → 1 ≤ length cur
    → remaining cur ds rest ≡ cur ++ crlf_then (chunks_then ds rest)
remaining-ne-nil [] ds rest h = absurd (omega arith)
remaining-ne-nil (c ∷ cur) ds rest h = refl

-- A buffer smaller than the rest of the chunk is filled.
read_chunk_data_within :
    (r : ChunkedReader) (k : ℕ) (cur : Bytes) (ds : List Bytes) (rest : Bytes)
    → k < length cur
    → read_chunk_data k (positioned r (cur ++ crlf_then (chunks_then ds rest)) (length cur))
      ≡ record {
        got = take k cur;
        failure = none;
        reader = positioned r (remaining (drop k cur) ds rest) (length (drop k cur));
      }
unfolding read_chunk_data
read_chunk_data_within r k cur ds rest h =
    let smaller : min k (length cur) ≡ k = omega arith in
    let after = crlf_then (chunks_then ds rest) in
    let filled : read_full (min k (length cur))
          (record { bytes = cur ++ after; stop = r.source.stop })
        ≡ record {
          got = take k cur;
          failure = none;
          source = record { bytes = drop k cur ++ after; stop = r.source.stop };
        } =
      rw smaller (read_full-prefix k cur after r.source.stop (omega arith)) in
    let got : length (take k cur) ≡ k = omega (arith, length-take k cur) in
    let left = length-drop k cur in
    ground (arith, filled, remaining-ne-nil (drop k cur) ds rest (omega arith))

-- Any other reads the chunk to its end, and its terminator.
read_chunk_data_whole :
    (r : ChunkedReader) (k : ℕ) (cur rest : Bytes)
    → length cur ≤ k
    → read_chunk_data k (positioned r (cur ++ crlf_then rest) (length cur))
      ≡ record { got = cur; failure = none; reader = positioned r rest 0 }
unfolding read_chunk_data end_chunk
read_chunk_data_whole r k cur rest h =
    let smaller : min k (length cur) ≡ length cur = omega arith in
    let filled : read_full (min k (length cur))
          (record { bytes = cur ++ crlf_then rest; stop = r.source.stop })
        ≡ record {
          got = cur;
          failure = none;
          source = record { bytes = crlf_then rest; stop = r.source.stop };
        } =
      rw smaller (
        read_full-prefix (length cur) cur (crlf_then rest) r.source.stop (omega arith)
        ∙ rw (take_all (length cur) cur (omega arith))
            (rw (drop_all (length cur) cur (omega arith)))) in
    let none_left : length cur - length cur ≡ 0 = omega arith in
    ground (arith, filled, read_crlf-crlf_then r rest 0)

pub read_chunk_data-remaining :
    (r : ChunkedReader) (k : ℕ) (cur : Bytes) (ds : List Bytes) (rest : Bytes)
    → read_chunk_data k (positioned r (cur ++ crlf_then (chunks_then ds rest)) (length cur))
      ≡ record {
        got = take k cur;
        failure = none;
        reader = positioned r (remaining (drop k cur) ds rest) (length (drop k cur));
      }
read_chunk_data-remaining r k cur ds rest = elim (dec_lt k (length cur)) [
  | yes within ↦ read_chunk_data_within r k cur ds rest within
  | no beyond ↦
      read_chunk_data_whole r k cur (chunks_then ds rest) (omega arith)
      ∙ rw (take_all k cur (omega arith)) (rw (drop_all k cur (omega arith)))
]
