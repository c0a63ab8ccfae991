-- ===== src/Icap/Chunked/Whole.antt =====
-- pkg/icap/encoding.go: `ReadChunkedBody` on whole bodies and on cut ones.
use icapmock.Prelude.{
  ℕ, zero, suc, ◌+◌, ◌≤◌, ◌<◌, ◌≡◌, refl, sym, ap, ◌∙◌, true, Option, none, some, List, [], ◌∷◌,
  ◌++◌, append_assoc, arith, Bytes, codes, ◌=ᵇ◌, All, length, length-append, take, drop,
  take-append-drop, length-take, length-drop, lacks,
}
use icapmock.Icap.Chunked.Source.{Error, eof, bounded_line}
use icapmock.Icap.Chunked.Header.{parsed, ParsedChunkHeader, parse_chunk_header}
use icapmock.Icap.Chunked.Reader.{
  ChunkedReader, fail, read_bounded_line, read_chunk_header, read_trailer_line, read_trailer_from,
  read_trailer, at_zero_chunk, finish_zero_chunk, start_chunk, read, Collected, more, read_all,
}
use icapmock.Icap.Chunked.Encoded.{bounded_line-lacks}
use icapmock.Icap.Chunked.Reading.{
  crlf_then, chunks_then, IsChunk, remaining, positioned, IsOpen, start_chunk-chunk_then,
  read_chunk_data-remaining, remaining-ne-nil,
}

-- The data of a list of chunks.
abbrev pub concat : List Bytes → Bytes
concat [] = []
concat (d ∷ ds) = d ++ concat ds

module _ (r : ChunkedReader) (open_r : IsOpen r) where
  -- A read in the middle of a chunk.
  read_inside :
      (k : ℕ) (cur : Bytes) (ds : List Bytes) (rest : Bytes)
      → 1 ≤ length cur
      → read k (positioned r (remaining cur ds rest) (length cur)) ≡ record {
        got = take k cur;
        failure = none;
        reader = positioned r (remaining (drop k cur) ds rest) (length (drop k cur));
      }
  unfolding read
  read_inside k cur ds rest h =
      ground (arith, remaining-ne-nil cur ds rest h, read_chunk_data-remaining r k cur ds rest)

  -- A read between two chunks starts the next one.
  read_between :
      (k : ℕ) (d : Bytes) (ds : List Bytes) (rest : Bytes)
      → IsChunk d
      → read k (positioned r (remaining [] (d ∷ ds) rest) 0) ≡ record {
        got = take k d;
        failure = none;
        reader = positioned r (remaining (drop k d) ds rest) (length (drop k d));
      }
  unfolding read
  read_between k d ds rest h = ground (
    arith,
    start_chunk-chunk_then r d (chunks_then ds rest) h,
    read_chunk_data-remaining r k d ds rest,
  )

  -- A read that finds the stream at its end, between two chunks.
  pub read_at_stop :
      (k : ℕ)
      → r.source.stop ≡ eof
      → read k (positioned r [] 0)
        ≡ record { got = []; failure = some eof; reader = positioned r [] 0 }
  unfolding read start_chunk read_chunk_header read_bounded_line bounded_line
  read_at_stop k h = ground arith

-- A zero chunk with no trailer: its line `head`, then an empty line.
pub start_chunk_zero :
    (r : ChunkedReader) (h : ParsedChunkHeader) (head rest : Bytes)
    → lacks b'\n' head ≡ true
    → length head < 4096
    → parse_chunk_header (head ++ codes "\n") ≡ parsed h
    → h.size ≡ 0
    → start_chunk (positioned r (head ++ b'\n' ∷ crlf_then rest) 0)
      ≡ fail eof (at_zero_chunk h (positioned r rest 0))
unfolding start_chunk read_chunk_header finish_zero_chunk read_trailer read_trailer_from
    read_trailer_line read_bounded_line ◌=ᵇ◌
start_chunk_zero r h head rest one_line short header zero_size = ground (
  arith,
  bounded_line-lacks 4096 Error.chunk_header_too_long r.source.stop head (crlf_then rest) one_line
      short,
  bounded_line-lacks 8192 Error.trailer_line_too_long r.source.stop (codes "\r") rest refl
      (omega arith),
)

pub more-nil : (x : Option Collected) → more [] x ≡ x
more-nil none = refl
more-nil (some c) = refl

pub more-append : (s t : Bytes) (x : Option Collected) → more s (more t x) ≡ more (s ++ t) x
more-append s t none = refl
more-append s t (some c) =
    ap (λ (u : Bytes). some (record c { content = u })) (sym (append_assoc s t c.content))

module _ (r : ChunkedReader) (open_r : IsOpen r) (sizes : ℕ → ℕ)
    (some_room : (i : ℕ) → 1 ≤ sizes i) where
  -- One round that delivers data, and the rounds behind it.
  read_all-more :
      (rounds : ℕ) (q r' : ChunkedReader) (got : Bytes)
      → read (sizes rounds) q ≡ record { got = got; failure = none; reader = r' }
      → read_all (suc rounds) sizes q ≡ more got (read_all rounds sizes r')
  unfolding read_all
  read_all-more rounds q r' got h = ground arith

  -- From `q` the loop delivers `content` and goes on before `rest`, with `left` rounds, at most one
  -- round used for each byte.
  abbrev pub Delivers : ℕ → ChunkedReader → Bytes → Bytes → Type 0
  Delivers rounds q content rest =
      (left : ℕ) × (rounds ≤ left + length content)
      × (read_all rounds sizes q ≡ more content (read_all left sizes (positioned r rest 0)))

  Delivers-more :
      (rounds k : ℕ) (q r' : ChunkedReader) (cur content rest : Bytes)
      → read (sizes rounds) q ≡ record { got = take k cur; failure = none; reader = r' }
      → 1 ≤ k
      → 1 ≤ length cur
      → Delivers rounds r' (drop k cur ++ content) rest
      → Delivers (suc rounds) q (cur ++ content) rest
  Delivers-more rounds k q r' cur content rest h hk hc (left, used, later) =
      let whole = take-append-drop k cur in
      (
        left,
        omega (
          arith,
          length-append cur content,
          length-append (drop k cur) content,
          length-take k cur,
          length-drop k cur,
        ),
        read_all-more rounds q r' (take k cur) h
            ∙ ap (more (take k cur)) later
            ∙ more-append (take k cur) (drop k cur ++ content) _
            ∙ ap (λ (u : Bytes). more u (read_all left sizes (positioned r rest 0)))
                (sym (append_assoc (take k cur) (drop k cur) content)
                  ∙ ap (λ (u : Bytes). u ++ content) whole),
      )

  pub remaining-Delivers :
      (rounds : ℕ) (cur : Bytes) (ds : List Bytes) (rest : Bytes)
      → All IsChunk ds
      → length (cur ++ concat ds) < rounds
      → Delivers rounds (positioned r (remaining cur ds rest) (length cur)) (cur ++ concat ds) rest
  remaining-Delivers zero cur ds rest h lt = absurd (omega arith)
  remaining-Delivers (suc rounds) [] [] rest h lt = (suc rounds, omega arith, sym (more-nil _))
  remaining-Delivers (suc rounds) [] (d ∷ ds) rest (p, h) lt =
      let k = sizes rounds in
      Delivers-more rounds k _ _ d (concat ds) rest (read_between r open_r k d ds rest p)
        (some_room rounds) p.0
        (remaining-Delivers rounds (drop k d) ds rest h (
          omega (
            arith,
            some_room rounds,
            length-append d (concat ds),
            length-append (drop k d) (concat ds),
            length-drop k d,
            p.0,
          )))
  remaining-Delivers (suc rounds) (c ∷ cur) ds rest h lt =
      let k = sizes rounds in
      Delivers-more rounds k _ _ (c ∷ cur) (concat ds) rest
        (read_inside r open_r k (c ∷ cur) ds rest (omega arith)) (some_room rounds) (omega arith)
        (remaining-Delivers rounds (drop k (c ∷ cur)) ds rest h (
          omega (
            arith,
            some_room rounds,
            length-append (c ∷ cur) (concat ds),
            length-append (drop k (c ∷ cur)) (concat ds),
            length-drop k (c ∷ cur),
          )))
