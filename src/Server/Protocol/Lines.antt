-- ===== src/Server/Protocol/Lines.antt =====
-- internal/server/protocol.go: `readProtocolLine` reads a line up to its line feed, and never holds
-- more bytes than its limit.
use icapmock.Prelude.{
  ℕ, ◌+◌, ◌≤◌, ◌<◌, ◌≡◌, refl, ap, ◌∙◌, true, false, [], ◌∷◌, ◌++◌, arith, ◌==◌, Bytes, length,
  length-append, lacks, append_assoc, append-nil,
}
use icapmock.Server.Protocol.{
  ProtocolError, line_too_long, ok, failed, trim_protocol_line_ending, longer,
  append_protocol_line_byte, read_line_from, read_protocol_line,
}

trim-append : (s : Bytes) → trim_protocol_line_ending (s ++ b'\r' ∷ []) ≡ s
unfolding trim_protocol_line_ending
trim-append [] = refl
trim-append (c ∷ []) = refl
trim-append (c ∷ d ∷ s) = ap (λ (r : Bytes). c ∷ r) (trim-append (d ∷ s))

append-byte :
    (max_bytes b : ℕ) (buf : Bytes)
    → (b == b'\n') ≡ false
    → length buf < max_bytes
    → append_protocol_line_byte buf b max_bytes ≡ longer (buf ++ b ∷ [])
unfolding append_protocol_line_byte
append-byte max_bytes b buf h k = ground arith

pub step-longer :
    (max_bytes : ℕ) (stop : ProtocolError) (buf : Bytes) (c : ℕ) (rest : Bytes)
    → (c == b'\n') ≡ false
    → length buf < max_bytes
    → read_line_from max_bytes stop buf (c ∷ rest)
      ≡ read_line_from max_bytes stop (buf ++ c ∷ []) rest
unfolding read_line_from
step-longer max_bytes stop buf c rest h k =
    let e = append-byte max_bytes c buf h k in ground (arith, e)

step-newline :
    (max_bytes : ℕ) (stop : ProtocolError) (buf rest : Bytes)
    → read_line_from max_bytes stop buf (b'\n' ∷ rest) ≡ ok (trim_protocol_line_ending buf) rest
unfolding read_line_from append_protocol_line_byte
step-newline max_bytes stop buf rest = refl

read_line_from-crlf :
    (max_bytes : ℕ) (stop : ProtocolError) (buf l rest : Bytes)
    → lacks b'\n' l ≡ true
    → length buf + length l < max_bytes
    → read_line_from max_bytes stop buf (l ++ b'\r' ∷ b'\n' ∷ rest) ≡ ok (buf ++ l) rest
read_line_from-crlf max_bytes stop buf [] rest h k =
    step-longer max_bytes stop buf b'\r' (b'\n' ∷ rest) refl (omega arith)
    ∙ step-newline max_bytes stop (buf ++ b'\r' ∷ []) rest
    ∙ rw (trim-append buf, append-nil buf) refl
read_line_from-crlf max_bytes stop buf (c ∷ l) rest h k =
    step-longer max_bytes stop buf c (l ++ b'\r' ∷ b'\n' ∷ rest) (ground arith) (omega arith)
    ∙ read_line_from-crlf max_bytes stop (buf ++ c ∷ []) l rest (ground arith)
        (omega (arith, length-append buf (c ∷ [])))
    ∙ rw (append_assoc buf (c ∷ []) l) refl

-- A line of fewer bytes than the limit is read up to its CRLF.
pub read_protocol_line-crlf :
    (max_bytes : ℕ) (stop : ProtocolError) (l rest : Bytes)
    → lacks b'\n' l ≡ true
    → length l < max_bytes
    → read_protocol_line max_bytes stop (l ++ b'\r' ∷ b'\n' ∷ rest) ≡ ok l rest
unfolding read_protocol_line
read_protocol_line-crlf max_bytes stop l rest h k =
    read_line_from-crlf max_bytes stop [] l rest h (omega arith)

trim-le : (s : Bytes) → length (trim_protocol_line_ending s) ≤ length s
unfolding trim_protocol_line_ending
trim-le [] = omega arith
trim-le (c ∷ []) = ground arith
trim-le (c ∷ d ∷ s) = omega (arith, trim-le (d ∷ s))

-- A line that was read is within the limit; the stream is never longer than before.
read_line_from-bound :
    (max_bytes : ℕ) (stop : ProtocolError) (buf bytes l rest : Bytes)
    → length buf ≤ max_bytes
    → read_line_from max_bytes stop buf bytes ≡ ok l rest
    → (length l ≤ max_bytes) × (length rest ≤ length bytes)
unfolding read_line_from append_protocol_line_byte
read_line_from-bound max_bytes stop buf [] l rest h e = ground (arith, trim-le buf)
read_line_from-bound max_bytes stop buf (b ∷ bytes) l rest h e =
    let ih = read_line_from-bound max_bytes stop (buf ++ b ∷ []) bytes l rest in
    ground (arith, ih, trim-le buf, length-append buf (b ∷ []))

-- More bytes than the limit without a line feed.
read_line_from-too_long :
    (max_bytes : ℕ) (stop : ProtocolError) (buf l rest : Bytes) (c : ℕ)
    → length buf + length l ≡ max_bytes
    → lacks b'\n' (l ++ c ∷ []) ≡ true
    → read_line_from max_bytes stop buf (l ++ c ∷ rest) ≡ failed line_too_long rest
read_line_from-too_long max_bytes stop buf [] rest c k h =
    unfold read_line_from append_protocol_line_byte in ground arith
read_line_from-too_long max_bytes stop buf (b ∷ l) rest c k h =
    step-longer max_bytes stop buf b (l ++ c ∷ rest) (ground arith) (omega arith)
    ∙ read_line_from-too_long max_bytes stop (buf ++ b ∷ []) l rest c
        (omega (arith, length-append buf (b ∷ []))) (ground arith)

-- A run of more bytes than the limit without a line feed is refused at the first byte over the
-- limit, and the bytes behind that one are left unread.
read_protocol_line-limit :
    (max_bytes : ℕ) (stop : ProtocolError) (l rest : Bytes) (c : ℕ)
    → length l ≡ max_bytes
    → lacks b'\n' (l ++ c ∷ []) ≡ true
    → read_protocol_line max_bytes stop (l ++ c ∷ rest) ≡ failed line_too_long rest
unfolding read_protocol_line
read_protocol_line-limit max_bytes stop l rest c k h =
    read_line_from-too_long max_bytes stop [] l rest c (omega (arith, k)) h

-- Whatever comes, a line that is returned has no more bytes than the limit, and no byte is put back
-- into the stream.
read_protocol_line-bound :
    (max_bytes : ℕ) (stop : ProtocolError) (bytes l rest : Bytes)
    → read_protocol_line max_bytes stop bytes ≡ ok l rest
    → (length l ≤ max_bytes) × (length rest ≤ length bytes)
unfolding read_protocol_line
read_protocol_line-bound max_bytes stop bytes l rest e =
    read_line_from-bound max_bytes stop [] bytes l rest (omega arith) e
