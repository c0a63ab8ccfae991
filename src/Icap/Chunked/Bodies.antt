-- ===== src/Icap/Chunked/Bodies.antt =====
-- pkg/icap/encoding.go: `ReadChunkedBody` on complete and on cut bodies.
use icapmock.Prelude.{
  ℕ, zero, suc, ◌≤◌, ◌<◌, ◌≡◌, refl, ◌∙◌, true, false, none, some, List, [], ◌++◌, append-nil,
  arith, Bytes, codes, All, length,
}
use icapmock.Prelude.Radix.{format_uint}
use icapmock.Icap.Chunked.Source.{Error, eof, Source}
use icapmock.Icap.Chunked.Header.{format_chunk_size}
use icapmock.Icap.Chunked.Encoded.{parse_chunk_header-format_chunk_size}
use icapmock.Icap.Chunked.Reader.{
  ChunkedReader, new_chunked_reader, at_zero_chunk, read, read_all, read_chunked_body,
}
use icapmock.Icap.Chunked.Reading.{chunks_then, IsChunk, positioned, IsOpen}
use icapmock.Icap.Chunked.Whole.{
  concat, start_chunk_zero, read_at_stop, Delivers, remaining-Delivers,
}

-- The last line of a body, and the empty line behind it.
abbrev pub last_chunk_then : Bytes → Bytes
last_chunk_then rest = codes "0\r\n\r\n" ++ rest

-- The state once the last chunk is read.
abbrev pub ended : ChunkedReader → Bytes → ChunkedReader
ended r rest = at_zero_chunk (record { extensions = []; size = 0 }) (positioned r rest 0)

pub read_last_chunk :
    (r : ChunkedReader) (k : ℕ) (rest : Bytes)
    → IsOpen r
    → read k (positioned r (last_chunk_then rest) 0)
      ≡ record { got = []; failure = some eof; reader = ended r rest }
unfolding read
read_last_chunk r k rest open_r =
    let header = parse_chunk_header-format_chunk_size 0 (omega arith) in
    let zero_line : format_chunk_size 0 ≡ codes "0" =
      unfold format_chunk_size format_uint in refl in
    ground (
      arith,
      start_chunk_zero r (record { extensions = []; size = 0 }) (codes "0\r") rest refl
          (omega arith) (rw zero_line at header) refl,
    )

-- The loop over the chunks of a body, up to the answer of the read that meets its end.
pub read_all_ending :
    (r : ChunkedReader) (rounds : ℕ) (sizes : ℕ → ℕ) (ds : List Bytes) (rest : Bytes)
    (last : ChunkedReader)
    → IsOpen r
    → ((i : ℕ) → 1 ≤ sizes i)
    → All IsChunk ds
    → length (concat ds) < rounds
    → ((k : ℕ)
        → read k (positioned r rest 0) ≡ record { got = []; failure = some eof; reader = last })
    → read_all rounds sizes (positioned r (chunks_then ds rest) 0)
      ≡ some (record { content = concat ds; failure = none; reader = last })
read_all_ending r rounds sizes ds rest last open_r room h lt at_last =
    finish (remaining-Delivers r open_r sizes room rounds [] ds rest h lt)
  where
    finish :
        Delivers r open_r sizes room rounds (positioned r (chunks_then ds rest) 0) (concat ds) rest
        → read_all rounds sizes (positioned r (chunks_then ds rest) 0)
          ≡ some (record { content = concat ds; failure = none; reader = last })
    finish (zero, used, e) = absurd (omega arith)
    finish (suc left, used, e) =
        e ∙ unfold read_all in ground (arith, at_last (sizes left), append-nil (concat ds))

new-IsOpen : (s : Source) → IsOpen (new_chunked_reader s)
unfolding new_chunked_reader
new-IsOpen s = record { no_error = refl; unfinished = refl; no_boundary = refl }

-- A complete body is read whole, whatever the sizes of the buffers: the data of its chunks comes
-- back with no error, the reader is finished, and not a byte behind the last chunk is taken.
-- One round more than there are bytes is enough.
pub read_chunked_body_complete :
    (ds : List Bytes) (rest : Bytes) (stop : Error) (rounds : ℕ) (sizes : ℕ → ℕ)
    → All IsChunk ds
    → ((i : ℕ) → 1 ≤ sizes i)
    → length (concat ds) < rounds
    → (last : ChunkedReader) × (read_chunked_body rounds sizes
          (record { bytes = chunks_then ds (last_chunk_then rest); stop = stop })
        ≡ some (record { content = concat ds; failure = none; reader = last }))
      × (last.finished ≡ true)
      × (last.source ≡ record { bytes = rest; stop = stop })
unfolding read_chunked_body new_chunked_reader at_zero_chunk
read_chunked_body_complete ds rest stop rounds sizes h room lt =
    let r = new_chunked_reader (record { bytes = []; stop = stop }) in
    let open_r = new-IsOpen (record { bytes = []; stop = stop }) in
    (
      ended r rest,
      read_all_ending r rounds sizes ds (last_chunk_then rest) (ended r rest) open_r room h lt
          (λ k. read_last_chunk r k rest open_r),
      refl,
      refl,
    )

-- A body whose connection closes between two chunks, before the last chunk was sent, is returned
-- as if it were complete: the data read so far, and no error.
pub read_chunked_body_unterminated :
    (ds : List Bytes) (rounds : ℕ) (sizes : ℕ → ℕ)
    → All IsChunk ds
    → ((i : ℕ) → 1 ≤ sizes i)
    → length (concat ds) < rounds
    → (last : ChunkedReader) × (read_chunked_body rounds sizes
          (record { bytes = chunks_then ds []; stop = eof })
        ≡ some (record { content = concat ds; failure = none; reader = last }))
      × (last.finished ≡ false)
unfolding read_chunked_body new_chunked_reader
read_chunked_body_unterminated ds rounds sizes h room lt =
    let r = new_chunked_reader (record { bytes = []; stop = eof }) in
    let open_r = new-IsOpen (record { bytes = []; stop = eof }) in
    (
      positioned r [] 0,
      read_all_ending r rounds sizes ds [] (positioned r [] 0) open_r room h lt
          (λ k. read_at_stop r open_r k refl),
      refl,
    )
