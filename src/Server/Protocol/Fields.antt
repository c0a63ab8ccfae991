-- ===== src/Server/Protocol/Fields.antt =====
-- internal/server/protocol.go: header fields, as the headers of pkg/icap are written.
use icapmock.Prelude.{
  take-length_self, ℕ, zero, suc, ◌+◌, ◌≤◌, ◌<◌, ◌≡◌, refl, sym, ◌∙◌, true, false, some, List, [],
  ◌∷◌, ◌++◌, arith, if◌then◌else◌, Bytes, codes, length, length-append, lacks, lacks-append,
  append_assoc, append-nil, index_byte_at, trim_space, trim_space-blank, drop, is_nil, All,
  Bool-cases, inl, inr,
}
use icapmock.Icap.Header.{Header, add, header_line, write_lines, values}
use icapmock.Icap.Header.Laws.{same_name, values-updates}
use icapmock.Server.Protocol.{
  ProtocolError, eof, ok, failed, too_many_headers, read_line_from, max_protocol_header_line_bytes,
  max_protocol_header_bytes, parse_header_line, field, header_round, parse_headers_from,
  read_protocol_line,
}
use icapmock.Server.Protocol.Lines.{read_protocol_line-crlf}

-- A field that a line can carry: no colon in the name, no line feed, and no white space around
-- the name or the value, which the reader would drop.
pub record IsField (e : Bytes × Bytes) : Type 0 where
  pub named : is_nil e.0 ≡ false
  pub no_colon : lacks b':' e.0 ≡ true
  pub one_line : (lacks b'\n' e.0 ≡ true) × (lacks b'\n' e.1 ≡ true)
  pub trimmed : (trim_space e.0 ≡ e.0) × (trim_space e.1 ≡ e.1)
  pub fits : length e.0 + length e.1 + 2 < max_protocol_header_line_bytes

abbrev pub field_text : Bytes × Bytes → Bytes
field_text (k, v) = k ++ b':' ∷ b' ' ∷ v

drop-length_suc : (s t : Bytes) (b : ℕ) → drop (length s + 1) (s ++ b ∷ t) ≡ t
drop-length_suc [] t b = refl
drop-length_suc (c ∷ s) t b =
    let e : suc (length s) + 1 ≡ suc (length s + 1) = omega arith in rw e (drop-length_suc s t b)

parse_header_line-field :
    (k v : Bytes) → IsField (k, v) → parse_header_line (field_text (k, v)) ≡ some (k, v)
unfolding parse_header_line
parse_header_line-field k v h =
    let i = index_byte_at b':' k (b' ' ∷ v) h.no_colon in
    let t = take-length_self k (b':' ∷ b' ' ∷ v) in
    let d = drop-length_suc k (b' ' ∷ v) b':' in
    let key = h.trimmed.0 in
    let value = trim_space-blank v ∙ h.trimmed.1 in
    let n = h.named in ground (arith, i, t, d, key, value, n)

length-field_text : (k v : Bytes) → length (field_text (k, v)) ≡ length k + length v + 2
length-field_text k v = omega (arith, length-append k (b':' ∷ b' ' ∷ v))

lacks-field_text : (k v : Bytes) → IsField (k, v) → lacks b'\n' (field_text (k, v)) ≡ true
lacks-field_text k v h =
    lacks-append b'\n' k (b':' ∷ b' ' ∷ v) h.one_line.0 (ground (arith, h.one_line.1))

-- The bytes of the fields' lines.
abbrev pub lines_size : List (Bytes × Bytes) → ℕ
lines_size [] = 0
lines_size ((k, v) ∷ es) = length k + length v + 4 + lines_size es

abbrev pub add_all : List (Bytes × Bytes) → Header → Header
add_all [] h = h
add_all ((k, v) ∷ es) h = add_all es (add k v h)

read-field :
    (stop : ProtocolError) (k v rest : Bytes)
    → IsField (k, v)
    → read_protocol_line max_protocol_header_line_bytes stop (header_line (k, v) ++ rest)
      ≡ ok (field_text (k, v)) rest
unfolding header_line
read-field stop k v rest h =
    let size = length-field_text k v in
    rw
      (
        append_assoc k (codes ": " ++ (v ++ codes "\r\n")) rest,
        append_assoc v (codes "\r\n") rest,
        sym (append_assoc k (b':' ∷ b' ' ∷ v) (b'\r' ∷ b'\n' ∷ rest)),
      )
      (read_protocol_line-crlf max_protocol_header_line_bytes stop (field_text (k, v)) rest
        (lacks-field_text k v h) (omega (arith, h.fits)))

is_nil-append : (s t : Bytes) → is_nil s ≡ false → is_nil (s ++ t) ≡ false
is_nil-append [] t h = absurd (cc)
is_nil-append (c ∷ s) t h = refl

header_round-field :
    (total : ℕ) (k v : Bytes)
    → IsField (k, v)
    → total ≤ max_protocol_header_bytes
    → header_round total (field_text (k, v)) ≡ field k v
unfolding header_round
header_round-field total k v h le =
    let e = parse_header_line-field k v h in
    let n : is_nil (field_text (k, v)) ≡ false = is_nil-append k (b':' ∷ b' ' ∷ v) h.named in
    ground (arith, e, n)

parse_headers_from-field :
    (left total : ℕ) (h : Header) (stop : ProtocolError) (k v rest : Bytes)
    → IsField (k, v)
    → total + (length k + length v + 4) ≤ max_protocol_header_bytes
    → parse_headers_from (suc left) total h stop (header_line (k, v) ++ rest)
      ≡ parse_headers_from left (total + (length k + length v + 4)) (add k v h) stop rest
unfolding parse_headers_from
parse_headers_from-field left total h stop k v rest q le =
    let read = read-field stop k v rest q in
    let size : total + (length (field_text (k, v)) + 2) ≡ total + (length k + length v + 4) =
      omega (arith, length-field_text k v) in
    let round =
      header_round-field (total + (length (field_text (k, v)) + 2)) k v q (omega (arith, size)) in
    rw (parse_headers_from, read) (rw (round, size) refl)

-- The fields are added in their order; `left` more are allowed behind them.
pub parse_headers_from-fields :
    (es : List (Bytes × Bytes)) (allowed left total : ℕ) (h : Header) (stop : ProtocolError)
    (tail : Bytes)
    → All IsField es
    → allowed ≡ length es + left
    → total + lines_size es ≤ max_protocol_header_bytes
    → parse_headers_from allowed total h stop (write_lines es ++ tail)
      ≡ parse_headers_from left (total + lines_size es) (add_all es h) stop tail
unfolding write_lines
parse_headers_from-fields [] allowed left total h stop tail fields few size =
    let e : allowed ≡ left = omega arith in
    let e' : total + 0 ≡ total = omega arith in rw (e, e') refl
parse_headers_from-fields (e ∷ es) zero left total h stop tail fields few size =
    absurd (omega arith)
parse_headers_from-fields ((k, v) ∷ es) (suc allowed) left total h stop tail (q, fields) few size =
    let s = length k + length v + 4 in
    let sum : total + (s + lines_size es) ≡ total + s + lines_size es = omega arith in
    rw (append_assoc (header_line (k, v)) (write_lines es) tail, sum)
      (parse_headers_from-field allowed total h stop k v (write_lines es ++ tail) q (omega arith)
        ∙ parse_headers_from-fields es allowed left (total + s) (add k v h) stop tail fields
            (omega arith) (omega arith))

pub parse_headers_from-excess :
    (total : ℕ) (h : Header) (stop : ProtocolError) (k v rest : Bytes)
    → IsField (k, v)
    → total + (length k + length v + 4) ≤ max_protocol_header_bytes
    → parse_headers_from zero total h stop (header_line (k, v) ++ rest)
      ≡ failed too_many_headers rest
unfolding parse_headers_from
parse_headers_from-excess total h stop k v rest q le =
    let read = read-field stop k v rest q in
    let round =
      header_round-field (total + (length (field_text (k, v)) + 2)) k v q
        (omega (arith, length-field_text k v)) in
    rw (parse_headers_from, read) (rw round refl)

-- A tail of the stream at which the headers end, whatever was read before, with `rest` behind it.
abbrev pub EndsHeaders : ProtocolError → Bytes → Bytes → Type 0
EndsHeaders stop tail rest =
    (left total : ℕ) (h : Header)
    → total + 2 ≤ max_protocol_header_bytes
    → parse_headers_from left total h stop tail ≡ ok h rest

pub blank-EndsHeaders :
    (stop : ProtocolError) (rest : Bytes) → EndsHeaders stop (codes "\r\n" ++ rest) rest
unfolding parse_headers_from header_round
blank-EndsHeaders stop rest zero total h le =
    let read =
      read_protocol_line-crlf max_protocol_header_line_bytes stop [] rest refl (omega arith) in
    ground (arith, read)
blank-EndsHeaders stop rest (suc left) total h le =
    let read =
      read_protocol_line-crlf max_protocol_header_line_bytes stop [] rest refl (omega arith) in
    ground (arith, read)

pub eof-EndsHeaders : EndsHeaders eof [] []
unfolding parse_headers_from read_protocol_line read_line_from
eof-EndsHeaders zero total h le = refl
eof-EndsHeaders (suc left) total h le = refl

-- The values of the fields of this name, in their order; the case of a name does not matter.
abbrev pub named_values : Bytes → List (Bytes × Bytes) → List Bytes
named_values j [] = []
named_values j ((k, v) ∷ es) = if same_name k j then v ∷ named_values j es else named_values j es

pub values-add_all :
    (es : List (Bytes × Bytes)) (h : Header) (j : Bytes)
    → values (add_all es h) j ≡ values h j ++ named_values j es
values-add_all [] h j = sym (append-nil (values h j))
values-add_all ((k, v) ∷ es) h j =
    let u = values-updates k j v h in
    let ih = values-add_all es (add k v h) j in
    elim (Bool-cases (same_name k j)) [
      | inl e ↦ rw (ih, u.1, e) (append_assoc (values h j) (v ∷ []) (named_values j es))
      | inr e ↦ rw (ih, u.1, e) refl
    ]
