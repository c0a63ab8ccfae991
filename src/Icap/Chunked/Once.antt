-- ===== src/Icap/Chunked/Once.antt =====
-- pkg/icap/encoding.go: whatever a client calls, a preview is continued at most once.
use icapmock.Prelude.{
  ℕ, zero, suc, ◌+◌, ◌≤◌, ◌≡◌, refl, ◌∙◌, true, false, none, some, List, [], ◌∷◌, arith, ◌⊎◌, inl,
  inr, Bytes, length,
}
use icapmock.Icap.Chunked.Source.{Error}
use icapmock.Icap.Chunked.Header.{ParsedChunkHeader}
use icapmock.Icap.Chunked.Reader.{
  ChunkedReader, Outcome, ok, fail, read_bounded_line, read_chunk_header, read_trailer_line,
  read_trailer_from, read_trailer, at_zero_chunk, finish_zero_chunk, start_chunk, read_crlf,
  end_chunk, read_chunk_data, read, continue_after_preview,
}

-- The state that an outcome carries.
abbrev state_of : {A : Type 0} → Outcome A → ChunkedReader
state_of (ok a r) = r
state_of (fail e r) = r

abbrev Keeps : ChunkedReader → ChunkedReader → Type 0
Keeps r r' = r'.preview_continued ≡ r.preview_continued

read_bounded_line-Keeps :
    (limit : ℕ) (e : Error) (r : ChunkedReader) → Keeps r (state_of (read_bounded_line limit e r))
unfolding read_bounded_line
read_bounded_line-Keeps limit e r = ground arith

read_chunk_header-Keeps : (r : ChunkedReader) → Keeps r (state_of (read_chunk_header r))
unfolding read_chunk_header
read_chunk_header-Keeps r =
    ground (arith, read_bounded_line-Keeps 4096 Error.chunk_header_too_long r)

read_trailer_line-Keeps : (r : ChunkedReader) → Keeps r (state_of (read_trailer_line r))
unfolding read_trailer_line
read_trailer_line-Keeps r =
    ground (arith, read_bounded_line-Keeps 8192 Error.trailer_line_too_long r)

read_trailer_from-Keeps :
    (left total : ℕ) (r : ChunkedReader) → Keeps r (state_of (read_trailer_from left total r))
unfolding read_trailer_from
read_trailer_from-Keeps zero total r = ground (arith, read_trailer_line-Keeps r)
read_trailer_from-Keeps (suc left) total r = elim (Outcome-cases (read_trailer_line r)) [
  | inl (l, r', e) ↦
      ground (arith, read_trailer_line-Keeps r, read_trailer_from-Keeps left (total + length l) r')
  | inr (x, r', e) ↦ ground (arith, read_trailer_line-Keeps r)
]
  where
    Outcome-cases :
        (o : Outcome Bytes)
        → ((l : Bytes) × (r' : ChunkedReader) × (o ≡ ok l r'))
          ⊎ ((x : Error) × (r' : ChunkedReader) × (o ≡ fail x r'))
    Outcome-cases (ok l r') = inl (l, r', refl)
    Outcome-cases (fail x r') = inr (x, r', refl)

at_zero_chunk-Keeps : (h : ParsedChunkHeader) (r : ChunkedReader) → Keeps r (at_zero_chunk h r)
unfolding at_zero_chunk
at_zero_chunk-Keeps h r = ground arith

finish_zero_chunk-Keeps :
    (h : ParsedChunkHeader) (r : ChunkedReader) → Keeps r (state_of (finish_zero_chunk h r))
unfolding finish_zero_chunk read_trailer
finish_zero_chunk-Keeps h r = grind (arith, read_trailer_from-Keeps 100 0 r, at_zero_chunk-Keeps)

start_chunk-Keeps : (r : ChunkedReader) → Keeps r (state_of (start_chunk r))
unfolding start_chunk
start_chunk-Keeps r = grind (arith, read_chunk_header-Keeps r, finish_zero_chunk-Keeps)

end_chunk-Keeps : (got : Bytes) (r : ChunkedReader) → Keeps r (end_chunk got r).reader
unfolding end_chunk read_crlf
end_chunk-Keeps got r = ground arith

read_chunk_data-Keeps : (k : ℕ) (r : ChunkedReader) → Keeps r (read_chunk_data k r).reader
unfolding read_chunk_data
read_chunk_data-Keeps k r = grind (arith, end_chunk-Keeps)

read-Keeps : (k : ℕ) (r : ChunkedReader) → Keeps r (read k r).reader
unfolding read
read-Keeps k r = grind (arith, start_chunk-Keeps r, read_chunk_data-Keeps)

-- What a client may call on a reader.
pub data Call : Type 0 where
  read_into : ℕ → Call
  resume : Call

-- The calls in turn, and how many continuations were accepted.
unfoldable pub continuations : List Call → ChunkedReader → ℕ
continuations [] r = 0
continuations (read_into k ∷ cs) r = continuations cs (read k r).reader
continuations (resume ∷ cs) r =
    let (failure, r') = continue_after_preview r in
    elim failure [ none ↦ suc (continuations cs r') | some e ↦ continuations cs r' ]

continuations_none :
    (cs : List Call) (r : ChunkedReader) → r.preview_continued ≡ true → continuations cs r ≡ 0
unfolding continuations continue_after_preview
continuations_none [] r h = refl
continuations_none (read_into k ∷ cs) r h =
    continuations_none cs (read k r).reader (read-Keeps k r ∙ h)
continuations_none (resume ∷ cs) r h = ground (arith, continuations_none cs r)

-- In any sequence of reads and continuations, on any reader, at most one continuation is accepted,
-- and none after an accepted one.
pub continuations-le-one : (cs : List Call) (r : ChunkedReader) → continuations cs r ≤ 1
unfolding continuations continue_after_preview
continuations-le-one [] r = omega arith
continuations-le-one (read_into k ∷ cs) r = continuations-le-one cs (read k r).reader
continuations-le-one (resume ∷ cs) r = ground (
  arith,
  continuations-le-one cs r,
  continuations_none cs (record r { preview_boundary = false; preview_continued = true }) refl,
)
