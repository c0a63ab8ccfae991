-- ===== src/Icap/Chunked/Writer.antt =====
-- pkg/icap/encoding.go: `ChunkedWriter` over a writer that takes a number of bytes and then fails.
use icapmock.Prelude.{
  ℕ, ◌-◌, Bool, true, false, Option, none, some, ◌++◌, leb, ◌==◌, if◌then◌else◌, Bytes, codes,
  length, take,
}
use icapmock.Icap.Chunked.Source.{Error, write_on_closed, io_error}
use icapmock.Icap.Chunked.Header.{format_chunk_size}

-- What the underlying writer has taken, and how much more it takes before its error.
pub record Sink : Type 0 where
  pub written : Bytes
  pub room : ℕ

abbrev pub sink_error : Error
sink_error = io_error 0

pub record ChunkedWriter : Type 0 where
  pub sink : Sink
  pub closed : Bool

-- The count of bytes, the error, and the state behind a write.
pub record Written : Type 0 where
  pub count : ℕ
  pub failure : Option Error
  pub writer : ChunkedWriter

unfoldable pub new_chunked_writer : Sink → ChunkedWriter
new_chunked_writer s = record { sink = s; closed = false }

-- `w.Write(p)` of the underlying writer.
unfoldable pub sink_write : Bytes → ChunkedWriter → Written
sink_write p w =
    let s = w.sink in
    if leb (length p) s.room
    then record {
      count = length p;
      failure = none;
      writer = record w { sink = record { written = s.written ++ p; room = s.room - length p } };
    }
    else record {
      count = s.room;
      failure = some sink_error;
      writer = record w { sink = record { written = s.written ++ take s.room p; room = 0 } };
    }

unfoldable pub write : Bytes → ChunkedWriter → Written
write p w =
    if w.closed
    then record { count = 0; failure = some write_on_closed; writer = w }
    else if length p == 0
    then record { count = 0; failure = none; writer = w }
    else let head = sink_write (format_chunk_size (length p) ++ codes "\r\n") w in
      elim head.failure [
        | some e ↦ record { count = 0; failure = some e; writer = head.writer }
        | none ↦
            let body = sink_write p head.writer in
            elim body.failure [
              | some e ↦ record { count = body.count; failure = some e; writer = body.writer }
              | none ↦
                  let tail = sink_write (codes "\r\n") body.writer in
                  elim tail.failure [
                    | some e ↦ record { count = 0; failure = some e; writer = tail.writer }
                    | none ↦ record { count = length p; failure = none; writer = tail.writer }
                  ]
            ]
      ]

unfoldable pub close : ChunkedWriter → Option Error × ChunkedWriter
close w =
    if w.closed
    then (none, w)
    else let end = sink_write (codes "0\r\n\r\n") (record w { closed = true }) in
      (end.failure, end.writer)

-- `WriteChunkedBody`.
unfoldable pub write_chunked_body : Bytes → Sink → Option Error × ChunkedWriter
write_chunked_body body s =
    let x = write body (new_chunked_writer s) in
    elim x.failure [ some e ↦ (some e, x.writer) | none ↦ close x.writer ]
