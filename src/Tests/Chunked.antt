-- ===== src/Tests/Chunked.antt =====
-- Tests of pkg/icap/encoding.go, and its theorems at small bodies.
use native.Mathlib.Nat.{le_refl}
use icapmock.Prelude.{
  ℕ, zero, suc, ◌+◌, ◌^◌, ◌≤◌, ◌≡◌, refl, ap, true, false, Option, none, some, List, [], ◌∷◌, ◌++◌,
  arith, Bytes, codes, ◌=ᵇ◌, length, trim_space, trim_suffix, split_byte, index_byte, lower_ascii,
}
use icapmock.Prelude.Radix.{
  parse_int, parse_magnitude, parse_uint, scan_uint, signed, digit_value, digit_char, digits,
  format_uint,
}
use icapmock.Icap.Chunked.Source.{
  Error, eof, preview_ieof, preview_already_continued, chunk_too_large, invalid_chunk_size,
  negative_chunk_size, empty_chunk_size, malformed_terminator, read_full, bounded_line,
}
use icapmock.Icap.Chunked.Header.{
  parsed, malformed, parse_chunk_size, format_chunk_size, before_byte, parse_chunk_header,
  has_extension,
}
use icapmock.Icap.Chunked.Reader.{
  ChunkedReader, new_chunked_reader, enable_preview, preview_boundary_of, continue_after_preview,
  read_bounded_line, read_chunk_header, read_trailer_line, read_trailer_from, read_trailer,
  at_zero_chunk, finish_zero_chunk, start_chunk, read_crlf, end_chunk, read_chunk_data, read,
  Collected, read_all, read_chunked_body,
}
use icapmock.Icap.Chunked.Writer.{new_chunked_writer, sink_write, write, close, write_chunked_body}
use icapmock.Icap.Chunked.Reading.{chunks_then, chunk_then}
use icapmock.Icap.Chunked.Whole.{concat}
use icapmock.Icap.Chunked.Bodies.{
  last_chunk_then, read_chunked_body_complete, read_chunked_body_unterminated,
}
use icapmock.Icap.Chunked.RoundTrip.{pieces, write_all, write_all-read_chunked_body}
use icapmock.Icap.Chunked.Preview.{
  preview_reader, ieof_chunk_then, preview_continued_body, preview_ieof_body,
}
use icapmock.Icap.Chunked.Once.{Call, read_into, resume, continuations, continuations-le-one}
use icapmock.Icap.Chunked.Oversize.{write_chunked_body_oversize}

-- What a run of the reader computes with.
program : Unit {0}
unfolding ◌=ᵇ◌ trim_space trim_suffix split_byte index_byte lower_ascii parse_int parse_magnitude
    parse_uint scan_uint signed digit_value digit_char digits format_uint read_full bounded_line
    parse_chunk_size format_chunk_size before_byte parse_chunk_header has_extension
    new_chunked_reader enable_preview preview_boundary_of continue_after_preview read_bounded_line
    read_chunk_header read_trailer_line read_trailer_from read_trailer at_zero_chunk
    finish_zero_chunk start_chunk read_crlf end_chunk read_chunk_data read read_all
    read_chunked_body sink_write write close write_chunked_body new_chunked_writer
program = tt

sizes_read :
    (parse_chunk_size (codes " 1aF ") ≡ parsed 431)
    × (parse_chunk_size (codes "10;name=value") ≡ parsed 16)
    × (parse_chunk_size (codes "-5") ≡ malformed negative_chunk_size)
    × (parse_chunk_size (codes "0x10") ≡ malformed invalid_chunk_size)
    × (parse_chunk_size (codes " \t") ≡ malformed empty_chunk_size)
    × (format_chunk_size 431 ≡ codes "1af")
unfolding program
sizes_read = (refl, refl, refl, refl, refl, refl)

abbrev content_of : Option Collected → Option (Bytes × Option Error)
content_of none = none
content_of (some c) = some (c.content, c.failure)

bodies_read :
    (content_of (
        read_chunked_body 20
          (λ _. 4)
          (record {
            bytes = codes "6\r\nstream\r\n2;a=b\r\n!!\r\n0\r\nX-Sum: 1\r\n\r\nnext";
            stop = eof;
          }))
      ≡ some (codes "stream!!", none))
    × (content_of
          (read_chunked_body 20 (λ _. 4) (record { bytes = codes "3\r\nabcd\r\n"; stop = eof }))
        ≡ some (codes "abc", some malformed_terminator))
unfolding program
bodies_read = (refl, refl)

abbrev two_chunks : List Bytes
two_chunks = codes "hello" ∷ codes "icap" ∷ []

read_chunked_body_complete_example :
    (last : ChunkedReader) × (read_chunked_body 12
        (λ _. 3)
        (record { bytes = chunks_then two_chunks (last_chunk_then (codes "next")); stop = eof })
      ≡ some (record { content = concat two_chunks; failure = none; reader = last }))
    × (last.finished ≡ true)
    × (last.source ≡ record { bytes = codes "next"; stop = eof })
read_chunked_body_complete_example =
    read_chunked_body_complete two_chunks (codes "next") eof 12 (λ _. 3) (omega arith)
      (λ i. omega arith) (omega arith)

read_chunked_body_unterminated_example :
    (last : ChunkedReader) × (read_chunked_body 12
        (λ _. 3)
        (record { bytes = chunks_then two_chunks []; stop = eof })
      ≡ some (record { content = concat two_chunks; failure = none; reader = last }))
    × (last.finished ≡ false)
read_chunked_body_unterminated_example =
    read_chunked_body_unterminated two_chunks 12 (λ _. 3) (omega arith) (λ i. omega arith)
      (omega arith)

abbrev written : List Bytes
written = codes "hello" ∷ [] ∷ codes "icap" ∷ []

room_for_written : length (chunks_then (pieces written) []) + 5 ≤ 100
unfolding format_chunk_size format_uint digits digit_char
room_for_written = omega arith

write_all-read_chunked_body_example :
    let sent = write_all written (new_chunked_writer (record { written = []; room = 100 })) in
    let ended = close sent.1 in
    (sent.0 ≡ none)
    × (ended.0 ≡ none)
    × ((last : ChunkedReader) × (read_chunked_body 12
            (λ _. 3)
            (record { bytes = ended.1.sink.written ++ codes "next"; stop = eof })
          ≡ some (record { content = concat written; failure = none; reader = last }))
        × (last.source ≡ record { bytes = codes "next"; stop = eof }))
write_all-read_chunked_body_example =
    write_all-read_chunked_body written (codes "next") eof 100 12 (λ _. 3) (omega arith)
      room_for_written (λ i. omega arith) (omega arith)

abbrev shown : List Bytes
shown = codes "hello" ∷ []

abbrev withheld : List Bytes
withheld = codes "icap" ∷ []

preview_continued_body_example :
    (r₁ r₂ r₃ : ChunkedReader) × (read_all 8
        (λ _. 3)
        (preview_reader
          (chunks_then shown
            (last_chunk_then (chunks_then withheld (last_chunk_then (codes "next")))))
          eof)
      ≡ some (record { content = concat shown; failure = none; reader = r₁ }))
    × (preview_boundary_of r₁ ≡ (true, false))
    × ((k : ℕ) → read k r₁ ≡ record { got = []; failure = some eof; reader = r₁ })
    × (continue_after_preview r₁ ≡ (none, r₂))
    × (read_all 8 (λ _. 3) r₂
        ≡ some (record { content = concat withheld; failure = none; reader = r₃ }))
    × (r₃.finished ≡ true)
    × (r₃.source ≡ record { bytes = codes "next"; stop = eof })
    × (continue_after_preview r₃ ≡ (some preview_already_continued, r₃))
preview_continued_body_example =
    preview_continued_body shown withheld (codes "next") eof 8 8 (λ _. 3) (omega arith)
      (omega arith) (λ i. omega arith) (omega arith) (omega arith)

preview_ieof_body_example :
    (last : ChunkedReader) × (read_all 8
        (λ _. 3)
        (preview_reader (chunks_then shown (ieof_chunk_then (codes "next"))) eof)
      ≡ some (record { content = concat shown; failure = none; reader = last }))
    × (preview_boundary_of last ≡ (true, true))
    × (last.finished ≡ true)
    × (last.source ≡ record { bytes = codes "next"; stop = eof })
    × (continue_after_preview last ≡ (some preview_ieof, last))
preview_ieof_body_example =
    preview_ieof_body shown (codes "next") eof 8 (λ _. 3) (omega arith) (λ i. omega arith)
      (omega arith)

abbrev impatient : List Call
impatient = read_into 9 ∷ read_into 9 ∷ resume ∷ resume ∷ []

continuations-le-one_example :
    continuations impatient (preview_reader (chunks_then shown (last_chunk_then [])) eof) ≤ 1
continuations-le-one_example =
    continuations-le-one impatient (preview_reader (chunks_then shown (last_chunk_then [])) eof)

impatient_count :
    continuations impatient (preview_reader (chunks_then shown (last_chunk_then [])) eof) ≡ 1
unfolding program continuations
impatient_count = refl

-- A body of `n` zero bytes, kept shut so that its bytes are not listed.
zeros : ℕ → Bytes
zeros zero = []
zeros (suc n) = 0 ∷ zeros n

length-zeros : (n : ℕ) → length (zeros n) ≡ n
unfolding zeros
length-zeros zero = refl
length-zeros (suc n) = ap suc (length-zeros n)

write_chunked_body_oversize_example :
    let body = zeros (2 ^ 20 + 1) in
    let sent =
      write_chunked_body body (record { written = []; room = length (chunk_then body []) + 5 }) in
    (sent.0 ≡ none)
    × ((last : ChunkedReader) × (read_chunked_body
            (suc 0)
            (λ _. 512)
            (record { bytes = sent.1.sink.written; stop = eof })
          ≡ some (record { content = []; failure = some chunk_too_large; reader = last })))
write_chunked_body_oversize_example =
    let body = zeros (2 ^ 20 + 1) in
    write_chunked_body_oversize body eof (length (chunk_then body []) + 5) 0 (λ _. 512)
      (omega (arith, length-zeros (2 ^ 20 + 1))) (omega (arith, length-zeros (2 ^ 20 + 1)))
      (le_refl (length (chunk_then body []) + 5))
