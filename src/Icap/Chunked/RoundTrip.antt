-- ===== src/Icap/Chunked/RoundTrip.antt =====
-- pkg/icap/encoding.go: what `ChunkedWriter` sends is what `ChunkedReader` reads back.
use icapmock.Prelude.{
  ℕ, ◌+◌, ◌-◌, ◌≤◌, ◌<◌, ◌≡◌, refl, sym, ap, ◌∙◌, Bool, true, false, Option, none, some, List, [],
  ◌∷◌, ◌++◌, append-nil, append_assoc, arith, Bytes, codes, All, length, length-append,
}
use icapmock.Icap.Chunked.Source.{Error}
use icapmock.Icap.Chunked.Header.{format_chunk_size, max_chunk_size}
use icapmock.Icap.Chunked.Reader.{ChunkedReader, read_chunked_body}
use icapmock.Icap.Chunked.Writer.{ChunkedWriter, new_chunked_writer, sink_write, write, close}
use icapmock.Icap.Chunked.Reading.{chunk_then, chunks_then, crlf_then, IsChunk}
use icapmock.Icap.Chunked.Whole.{concat}
use icapmock.Icap.Chunked.Bodies.{last_chunk_then, read_chunked_body_complete}

-- The bytes that one write sends.
abbrev pub sent_by : Bytes → Bytes
sent_by [] = []
sent_by (c ∷ p) = chunk_then (c ∷ p) []

-- An open writer that has sent `bs` and has room for `n` more.
abbrev pub writing : Bytes → ℕ → ChunkedWriter
writing bs n = record { sink = record { written = bs; room = n }; closed = false }

sink_write_room :
    (p bs : Bytes) (n : ℕ) (c : Bool)
    → length p ≤ n
    → sink_write p (record { sink = record { written = bs; room = n }; closed = c }) ≡ record {
      count = length p;
      failure = none;
      writer = record { sink = record { written = bs ++ p; room = n - length p }; closed = c };
    }
unfolding sink_write
sink_write_room p bs n c h = ground arith

length-chunk_then :
    (p : Bytes)
    → length (chunk_then p []) ≡ length (format_chunk_size (length p)) + 2 + length p + 2
length-chunk_then p = omega (
  arith,
  length-append (format_chunk_size (length p)) (crlf_then (p ++ crlf_then [])),
  length-append p (crlf_then []),
)

-- A write of data, with room for it, sends one chunk.
pub write_chunk :
    (p bs : Bytes) (n : ℕ)
    → 1 ≤ length p
    → length (chunk_then p []) ≤ n
    → write p (writing bs n) ≡ record {
      count = length p;
      failure = none;
      writer = writing (bs ++ chunk_then p []) (n - length (chunk_then p []));
    }
unfolding write
write_chunk p bs n h room =
    let head = format_chunk_size (length p) ++ codes "\r\n" in
    let head_length = length-append (format_chunk_size (length p)) (codes "\r\n") in
    let whole_length = length-chunk_then p in
    let m = n - length head in
    let joined : ((bs ++ head) ++ p) ++ codes "\r\n" ≡ bs ++ chunk_then p [] = simp append_assoc in
    let left : (m - length p) - 2 ≡ n - length (chunk_then p []) = omega arith in
    ground (
      arith,
      sink_write_room head bs n false (omega arith),
      sink_write_room p (bs ++ head) m false (omega arith),
      sink_write_room (codes "\r\n") ((bs ++ head) ++ p) (m - length p) false (omega arith),
    )

write_nothing :
    (bs : Bytes) (n : ℕ)
    → write [] (writing bs n) ≡ record { count = 0; failure = none; writer = writing bs n }
unfolding write
write_nothing bs n = refl

-- The writes of a client that stops at the first error.
pub write_all : List Bytes → ChunkedWriter → Option Error × ChunkedWriter
write_all [] w = (none, w)
write_all (p ∷ ps) w =
    let x = write p w in
    elim x.failure [ some e ↦ (some e, x.writer) | none ↦ write_all ps x.writer ]

-- The writes that send a chunk: those of no bytes send nothing.
abbrev pub pieces : List Bytes → List Bytes
pieces [] = []
pieces ([] ∷ ps) = pieces ps
pieces ((c ∷ p) ∷ ps) = (c ∷ p) ∷ pieces ps

concat-pieces : (ps : List Bytes) → concat (pieces ps) ≡ concat ps
concat-pieces [] = refl
concat-pieces ([] ∷ ps) = concat-pieces ps
concat-pieces ((c ∷ p) ∷ ps) = ap (λ (x : Bytes). c ∷ (p ++ x)) (concat-pieces ps)

pieces-All : (ps : List Bytes) → All (λ p. length p ≤ max_chunk_size) ps → All IsChunk (pieces ps)
pieces-All [] h = tt
pieces-All ([] ∷ ps) (_, h) = pieces-All ps h
pieces-All ((c ∷ p) ∷ ps) (k, h) = ((omega arith, k), pieces-All ps h)

pub chunk_then-append : (p s t : Bytes) → chunk_then p s ++ t ≡ chunk_then p (s ++ t)
chunk_then-append p s t = simp append_assoc

chunks_then-append :
    (ds : List Bytes) (s t : Bytes) → chunks_then ds s ++ t ≡ chunks_then ds (s ++ t)
chunks_then-append [] s t = refl
chunks_then-append (d ∷ ds) s t =
    chunk_then-append d (chunks_then ds s) t ∙ ap (chunk_then d) (chunks_then-append ds s t)

write_all-pieces :
    (ps : List Bytes) (bs : Bytes) (n : ℕ)
    → length (chunks_then (pieces ps) []) ≤ n
    → write_all ps (writing bs n)
      ≡ (none, writing (bs ++ chunks_then (pieces ps) []) (n - length (chunks_then (pieces ps) [])))
unfolding write_all
write_all-pieces [] bs n h = rw (append-nil bs) (ground arith)
write_all-pieces ([] ∷ ps) bs n h = ground (arith, write_nothing bs n, write_all-pieces ps bs n h)
write_all-pieces ((c ∷ p) ∷ ps) bs n h =
    let first = chunk_then (c ∷ p) [] in
    let later = chunks_then (pieces ps) [] in
    let split : first ++ later ≡ chunk_then (c ∷ p) later = chunk_then-append (c ∷ p) [] later in
    let total : length first + length later ≡ length (chunk_then (c ∷ p) later) =
      sym (length-append first later) ∙ ap length split in
    let sent : (bs ++ first) ++ later ≡ bs ++ chunk_then (c ∷ p) later =
      append_assoc bs first later ∙ ap (λ (x : Bytes). bs ++ x) split in
    let room : (n - length first) - length later ≡ n - length (chunk_then (c ∷ p) later) =
      omega arith in
    ground (
      arith,
      write_chunk (c ∷ p) bs n (omega arith) (omega arith),
      write_all-pieces ps (bs ++ first) (n - length first) (omega arith),
    )

pub close-writing :
    (bs : Bytes) (n : ℕ)
    → 5 ≤ n
    → close (writing bs n) ≡ (
      none,
      record { sink = record { written = bs ++ codes "0\r\n\r\n"; room = n - 5 }; closed = true },
    )
unfolding close
close-writing bs n h = ground (arith, sink_write_room (codes "0\r\n\r\n") bs n true h)

-- Data written in any pieces of at most 2^20 bytes and closed reads back as the same data, with
-- buffers of any sizes, and the stream behind it is left for the next message. The writer needs
-- room for the encoded body, and the reader one round more than there are bytes.
pub write_all-read_chunked_body :
    (ps : List Bytes) (rest : Bytes) (stop : Error) (n rounds : ℕ) (sizes : ℕ → ℕ)
    → All (λ p. length p ≤ max_chunk_size) ps
    → length (chunks_then (pieces ps) []) + 5 ≤ n
    → ((i : ℕ) → 1 ≤ sizes i)
    → length (concat ps) < rounds
    → let sent = write_all ps (new_chunked_writer (record { written = []; room = n })) in
      let ended = close sent.1 in
      (sent.0 ≡ none)
      × (ended.0 ≡ none)
      × ((last : ChunkedReader) × (read_chunked_body rounds sizes
              (record { bytes = ended.1.sink.written ++ rest; stop = stop })
            ≡ some (record { content = concat ps; failure = none; reader = last }))
          × (last.source ≡ record { bytes = rest; stop = stop }))
unfolding new_chunked_writer
write_all-read_chunked_body ps rest stop n rounds sizes small room positive enough =
    let body = chunks_then (pieces ps) [] in
    let sent = write_all-pieces ps [] n (omega arith) in
    let closed = close-writing body (n - length body) (omega arith) in
    let (last, whole, _, behind) =
      read_chunked_body_complete (pieces ps) rest stop rounds sizes (pieces-All ps small) positive
        (rw concat-pieces enough) in
    let stream : (body ++ codes "0\r\n\r\n") ++ rest
        ≡ chunks_then (pieces ps) (last_chunk_then rest) =
      append_assoc body (codes "0\r\n\r\n") rest
      ∙ chunks_then-append (pieces ps) [] (last_chunk_then rest) in
    rw (sent, closed) (refl, refl, (last, rw stream (whole ∙ rw (concat-pieces ps)), behind))
