-- ===== src/Icap/Chunked/Preview.antt =====
-- pkg/icap/encoding.go: the preview boundary of `ChunkedReader`, and `ContinueAfterPreview`.
use icapmock.Prelude.{
  ℕ, ◌≤◌, ◌<◌, ◌≡◌, refl, true, false, none, some, List, [], ◌∷◌, ◌++◌, arith, Bytes, codes, ◌=ᵇ◌,
  All, length, ◌↔◌, split_byte, trim_suffix, trim_space, index_byte, lower_ascii,
}
use icapmock.Prelude.Radix.{parse_int, parse_magnitude, parse_uint, scan_uint, signed, digit_value}
use icapmock.Icap.Chunked.Source.{Error, eof, preview_ieof, preview_already_continued}
use icapmock.Icap.Chunked.Header.{
  ParsedChunkHeader, parsed, parse_chunk_header, parse_chunk_size, before_byte, has_extension,
}
use icapmock.Icap.Chunked.Reader.{
  ChunkedReader, new_chunked_reader, enable_preview, preview_boundary_of, continue_after_preview,
  at_zero_chunk, read, read_all,
}
use icapmock.Icap.Chunked.Reading.{chunks_then, IsChunk, positioned, IsOpen}
use icapmock.Icap.Chunked.Whole.{concat, start_chunk_zero}
use icapmock.Icap.Chunked.Bodies.{last_chunk_then, ended, read_last_chunk, read_all_ending}

-- A preview reader before the stream `bs`.
abbrev pub preview_reader : Bytes → Error → ChunkedReader
preview_reader bs stop = enable_preview (new_chunked_reader (record { bytes = bs; stop = stop }))

preview-IsOpen : (bs : Bytes) (stop : Error) → IsOpen (preview_reader bs stop)
unfolding enable_preview new_chunked_reader
preview-IsOpen bs stop = record { no_error = refl; unfinished = refl; no_boundary = refl }

-- The last line of a preview that is the whole body.
abbrev pub ieof_chunk_then : Bytes → Bytes
ieof_chunk_then rest = codes "0; ieof\r\n\r\n" ++ rest

abbrev ieof_header : ParsedChunkHeader
ieof_header = record { extensions = codes " ieof" ∷ []; size = 0 }

ieof_header-parsed : parse_chunk_header (codes "0; ieof\r\n") ≡ parsed ieof_header
unfolding parse_chunk_header parse_chunk_size before_byte parse_int parse_magnitude parse_uint
    scan_uint signed digit_value split_byte trim_suffix trim_space index_byte
ieof_header-parsed = refl

ieof_header-has_extension : has_extension ieof_header (codes "ieof") ≡ true
unfolding has_extension trim_space index_byte ◌=ᵇ◌ lower_ascii
ieof_header-has_extension = refl

read_ieof_chunk :
    (r : ChunkedReader) (k : ℕ) (rest : Bytes)
    → IsOpen r
    → read k (positioned r (ieof_chunk_then rest) 0) ≡ record {
      got = [];
      failure = some eof;
      reader = at_zero_chunk ieof_header (positioned r rest 0);
    }
unfolding read
read_ieof_chunk r k rest open_r = ground (
  arith,
  start_chunk_zero r ieof_header (codes "0; ieof\r") rest refl (omega arith) ieof_header-parsed
      refl,
)

-- A preview of the chunks `ps`, followed by the chunks `ds` that the client sends once it is told
-- to continue, is read in two parts. The first ends at the boundary, and reading on gives nothing;
-- `ContinueAfterPreview` is accepted there, and only once; the second part ends the body, and the
-- bytes behind it are left in the stream.
pub preview_continued_body :
    (ps ds : List Bytes) (rest : Bytes) (stop : Error) (rounds rounds' : ℕ) (sizes : ℕ → ℕ)
    → All IsChunk ps
    → All IsChunk ds
    → ((i : ℕ) → 1 ≤ sizes i)
    → length (concat ps) < rounds
    → length (concat ds) < rounds'
    → (r₁ r₂ r₃ : ChunkedReader) × (read_all rounds sizes (
          preview_reader
            (chunks_then ps (last_chunk_then (chunks_then ds (last_chunk_then rest))))
            stop)
        ≡ some (record { content = concat ps; failure = none; reader = r₁ }))
      × (preview_boundary_of r₁ ≡ (true, false))
      × ((k : ℕ) → read k r₁ ≡ record { got = []; failure = some eof; reader = r₁ })
      × (continue_after_preview r₁ ≡ (none, r₂))
      × (read_all rounds' sizes r₂
          ≡ some (record { content = concat ds; failure = none; reader = r₃ }))
      × (r₃.finished ≡ true)
      × (r₃.source ≡ record { bytes = rest; stop = stop })
      × (continue_after_preview r₃ ≡ (some preview_already_continued, r₃))
unfolding enable_preview new_chunked_reader preview_boundary_of continue_after_preview at_zero_chunk
    read has_extension
preview_continued_body ps ds rest stop rounds rounds' sizes hp hd room lt lt' =
    let r = preview_reader [] stop in
    let open_r = preview-IsOpen [] stop in
    let second = chunks_then ds (last_chunk_then rest) in
    let r₁ = ended r second in
    let resumed : ChunkedReader = record r { preview_continued = true; n = 0 } in
    let open_s : IsOpen resumed = record {
      no_error = refl;
      unfinished = refl;
      no_boundary = refl;
    } in
    (
      r₁,
      positioned resumed second 0,
      ended resumed rest,
      read_all_ending r rounds sizes ps (last_chunk_then second) r₁ open_r room hp lt
          (λ k. read_last_chunk r k second open_r),
      refl,
      λ k. refl,
      refl,
      read_all_ending resumed rounds' sizes ds (last_chunk_then rest) (ended resumed rest) open_s
          room hd lt' (λ k. read_last_chunk resumed k rest open_s),
      refl,
      refl,
      refl,
    )

-- A preview that ends with the `ieof` extension is the whole body: its data comes back with no
-- error, the reader is finished and reports the extension, the rest of the stream is untouched,
-- and `ContinueAfterPreview` is refused.
pub preview_ieof_body :
    (ps : List Bytes) (rest : Bytes) (stop : Error) (rounds : ℕ) (sizes : ℕ → ℕ)
    → All IsChunk ps
    → ((i : ℕ) → 1 ≤ sizes i)
    → length (concat ps) < rounds
    → (last : ChunkedReader) × (read_all rounds sizes
          (preview_reader (chunks_then ps (ieof_chunk_then rest)) stop)
        ≡ some (record { content = concat ps; failure = none; reader = last }))
      × (preview_boundary_of last ≡ (true, true))
      × (last.finished ≡ true)
      × (last.source ≡ record { bytes = rest; stop = stop })
      × (continue_after_preview last ≡ (some preview_ieof, last))
unfolding enable_preview new_chunked_reader preview_boundary_of continue_after_preview at_zero_chunk
preview_ieof_body ps rest stop rounds sizes hp room lt =
    let r = preview_reader [] stop in
    let open_r = preview-IsOpen [] stop in
    let known = ieof_header-has_extension in
    (
      at_zero_chunk ieof_header (positioned r rest 0),
      read_all_ending r rounds sizes ps (ieof_chunk_then rest)
          (at_zero_chunk ieof_header (positioned r rest 0)) open_r room hp lt
          (λ k. read_ieof_chunk r k rest open_r),
      rw known refl,
      known,
      refl,
      ground arith,
    )

-- `ContinueAfterPreview` succeeds exactly at a boundary without `ieof` that was not passed before;
-- then it leaves the boundary and remembers it, and otherwise it changes nothing.
pub continue_after_preview_iff :
    (r : ChunkedReader)
    → ((continue_after_preview r).0 ≡ none) ↔ (
        (r.preview_enabled ≡ true)
        × (r.preview_continued ≡ false)
        × (r.preview_boundary ≡ true)
        × (r.preview_ieof ≡ false))
unfolding continue_after_preview
continue_after_preview_iff r = (λ h. ground arith, λ h. ground arith)

pub continue_after_preview_once :
    (r : ChunkedReader)
    → ((continue_after_preview r).0 ≡ none
        → (continue_after_preview r).1
          ≡ record r { preview_boundary = false; preview_continued = true })
      × ((e : Error) → (continue_after_preview r).0 ≡ some e → (continue_after_preview r).1 ≡ r)
unfolding continue_after_preview
continue_after_preview_once r = (λ h. ground arith, λ e h. ground arith)
