-- ===== src/Icap/Chunked/Source.antt =====
-- pkg/icap/encoding.go: the errors of a chunked body, and the stream that it is read from.
-- A stream is the bytes that are still to come and the error behind them: io.EOF at the end of a
-- connection that was closed, another error for one that broke. The bounded line reader of the
-- connection and the byte loop of the source read the same lines; the byte loop is modelled.
use icapmock.Prelude.{
  ℕ, zero, suc, Bool, true, false, Option, none, some, [], ◌∷◌, leb, ◌==◌, if◌then◌else◌, Bytes,
  length, take, drop,
}

pub data Error : Type 0 where
  eof unexpected_eof : Error
  chunk_header_too_long trailer_line_too_long too_many_trailers trailers_too_large : Error
  preview_not_enabled preview_not_at_boundary preview_ieof preview_already_continued : Error
  empty_chunk_size invalid_chunk_size negative_chunk_size chunk_too_large : Error
  malformed_terminator write_on_closed : Error
  io_error : ℕ → Error

-- `errors.Is(err, io.EOF)`.
abbrev pub is_eof : Error → Bool
is_eof eof = true
is_eof _ = false

pub record Source : Type 0 where
  pub bytes : Bytes
  pub stop : Error

-- The error of `io.ReadFull` where the stream ends after some bytes of those wanted.
abbrev pub cut_short : Error → Error
cut_short e = if is_eof e then unexpected_eof else e

-- The bytes read, the error, and the stream behind them.
pub record Filled : Type 0 where
  pub got : Bytes
  pub failure : Option Error
  pub source : Source

-- `io.ReadFull` into a buffer of `k` bytes.
unfoldable pub read_full : ℕ → Source → Filled
read_full k s =
    if leb k (length s.bytes)
    then record {
      got = take k s.bytes;
      failure = none;
      source = record s { bytes = drop k s.bytes };
    }
    else record {
      got = s.bytes;
      failure = some (if length s.bytes == 0 then s.stop else cut_short s.stop);
      source = record s { bytes = [] };
    }

pub data Line : Type 0 where
  line : Bytes → Source → Line
  no_line : Error → Source → Line

abbrev pub prepend : ℕ → Line → Line
prepend b (line l s) = line (b ∷ l) s
prepend b (no_line e s) = no_line e s

-- The byte loop of `readBoundedLine`; the first argument counts the bytes that still fit.
unfoldable pub bounded_line : ℕ → Error → Bytes → Error → Line
bounded_line zero limit_error bytes stop =
    no_line limit_error (record { bytes = bytes; stop = stop })
bounded_line (suc room) limit_error [] stop = no_line stop (record { bytes = []; stop = stop })
bounded_line (suc room) limit_error (b ∷ bytes) stop =
    let rest = prepend b (bounded_line room limit_error bytes stop) in
    if b == b'\n' then line (b ∷ []) (record { bytes = bytes; stop = stop }) else rest
