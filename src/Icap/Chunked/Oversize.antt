-- ===== src/Icap/Chunked/Oversize.antt =====
-- pkg/icap/encoding.go: `WriteChunkedBody` sends one chunk of any size, `ReadChunkedBody` takes
-- none above 1 MiB.
use icapmock.Prelude.{
  ℕ, suc, ◌+◌, ◌-◌, ◌^◌, ◌≤◌, ◌<◌, ◌≡◌, refl, true, none, some, [], ◌++◌, arith, Bytes, codes,
  length,
}
use icapmock.Icap.Chunked.Source.{Error, chunk_too_large}
use icapmock.Icap.Chunked.Header.{max_chunk_size}
use icapmock.Icap.Chunked.Encoded.{bounded_line-format_chunk_size, parse_chunk_header_oversize}
use icapmock.Icap.Chunked.Reader.{
  ChunkedReader, read_bounded_line, read_chunk_header, start_chunk, read, read_all,
  read_chunked_body, new_chunked_reader,
}
use icapmock.Icap.Chunked.Writer.{ChunkedWriter, new_chunked_writer, write_chunked_body}
use icapmock.Icap.Chunked.Reading.{chunk_then, crlf_then}
use icapmock.Icap.Chunked.RoundTrip.{write_chunk, close-writing, chunk_then-append}
use icapmock.Icap.Chunked.Bodies.{last_chunk_then}

write_chunked_body_room :
    (body : Bytes) (n : ℕ)
    → 1 ≤ length body
    → length (chunk_then body []) + 5 ≤ n
    → (w : ChunkedWriter) × (write_chunked_body body (record { written = []; room = n })
        ≡ (none, w))
      × (w.sink.written ≡ chunk_then body (last_chunk_then []))
unfolding write_chunked_body new_chunked_writer
write_chunked_body_room body n h room =
    let used = length (chunk_then body []) in
    (
      record {
        sink = record { written = chunk_then body [] ++ codes "0\r\n\r\n"; room = n - used - 5 };
        closed = true;
      },
      ground (
        arith,
        write_chunk body [] n h (omega arith),
        close-writing (chunk_then body []) (n - used) (omega arith),
      ),
      chunk_then-append body [] (last_chunk_then []),
    )

read_chunked_body_refuses :
    (body tail : Bytes) (stop : Error) (rounds : ℕ) (sizes : ℕ → ℕ)
    → max_chunk_size < length body
    → length body < 2 ^ 63
    → (last : ChunkedReader) × (read_chunked_body
          (suc rounds)
          sizes
          (record { bytes = chunk_then body tail; stop = stop })
        ≡ some (record { content = []; failure = some chunk_too_large; reader = last }))
unfolding read_chunked_body new_chunked_reader read_all read start_chunk read_chunk_header
    read_bounded_line
read_chunked_body_refuses body tail stop rounds sizes big fits =
    let opened =
      bounded_line-format_chunk_size (length body) 4096 Error.chunk_header_too_long stop
        (body ++ crlf_then tail) fits (omega arith) in
    let refused = parse_chunk_header_oversize (length body) big fits in
    (
      record (new_chunked_reader (record { bytes = body ++ crlf_then tail; stop = stop })) {
        err = some chunk_too_large;
      },
      ground (arith, opened, refused),
    )

-- A body above 2^20 bytes that `WriteChunkedBody` sends with no error cannot be read back:
-- `ReadChunkedBody` refuses its one chunk and returns no data.
pub write_chunked_body_oversize :
    (body : Bytes) (stop : Error) (n rounds : ℕ) (sizes : ℕ → ℕ)
    → max_chunk_size < length body
    → length body < 2 ^ 63
    → length (chunk_then body []) + 5 ≤ n
    → let sent = write_chunked_body body (record { written = []; room = n }) in
      (sent.0 ≡ none)
      × ((last : ChunkedReader) × (read_chunked_body
              (suc rounds)
              sizes
              (record { bytes = sent.1.sink.written; stop = stop })
            ≡ some (record { content = []; failure = some chunk_too_large; reader = last })))
write_chunked_body_oversize body stop n rounds sizes big fits room =
    let (w, sent, written) = write_chunked_body_room body n (omega arith) room in
    rw sent (
      refl,
      rw written (read_chunked_body_refuses body (last_chunk_then []) stop rounds sizes big fits),
    )
