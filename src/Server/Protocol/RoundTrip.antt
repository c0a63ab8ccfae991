-- ===== src/Server/Protocol/RoundTrip.antt =====
-- internal/server/protocol.go and pkg/icap/header.go: header lines that are written are read back.
use icapmock.Prelude.{
  ◌+◌, ◌-◌, ◌∙◌, ◌≤◌, ◌≡◌, refl, List, [], ◌++◌, arith, Bytes, codes, length, All,
}
use icapmock.Prelude.Maps.{lookup}
use icapmock.Icap.Header.{Header, header_line, write_lines, values}
use icapmock.Server.Protocol.{
  ProtocolError, eof, ok, failed, too_many_headers, max_protocol_header_bytes, max_headers,
  parse_headers,
}
use icapmock.Server.Protocol.Fields.{
  IsField, lines_size, add_all, EndsHeaders, parse_headers_from-fields, parse_headers_from-excess,
  blank-EndsHeaders, eof-EndsHeaders, named_values, values-add_all,
}

values-empty : (j : Bytes) → values [] j ≡ []
unfolding values lookup
values-empty j = refl

read_back :
    (es : List (Bytes × Bytes)) (stop : ProtocolError) (tail rest : Bytes)
    → EndsHeaders stop tail rest
    → All IsField es
    → length es ≤ max_headers
    → lines_size es + 2 ≤ max_protocol_header_bytes
    → (h : Header) × (parse_headers stop (write_lines es ++ tail) ≡ ok h rest)
      × ((j : Bytes) → values h j ≡ named_values j es)
unfolding parse_headers
read_back es stop tail rest ends fields few size =
    let left = max_headers - length es in
    (
      add_all es [],
      parse_headers_from-fields es max_headers left 0 [] stop tail fields (omega arith)
            (omega arith)
          ∙ ends left (0 + lines_size es) (add_all es []) (omega (arith, size)),
      λ j. values-add_all es [] j ∙ rw (values-empty j) refl,
    )

-- Header lines as they are written, with a blank line behind them, are read back: at most 1000
-- fields within 64 KiB, each one below the limit of a line, with no colon in its name, no line feed,
-- and no white space around name and value. Every name has the values of its fields, in their order
-- and whatever the case of the names, and the bytes behind the blank line are left.
pub parse_headers-write_lines :
    (es : List (Bytes × Bytes)) (stop : ProtocolError) (rest : Bytes)
    → All IsField es
    → length es ≤ max_headers
    → lines_size es + 2 ≤ max_protocol_header_bytes
    → (h : Header) × (parse_headers stop (write_lines es ++ (codes "\r\n" ++ rest)) ≡ ok h rest)
      × ((j : Bytes) → values h j ≡ named_values j es)
parse_headers-write_lines es stop rest fields few size =
    read_back es stop (codes "\r\n" ++ rest) rest (blank-EndsHeaders stop rest) fields few size

-- Header lines of at most 1000 such fields within 64 KiB, after which the connection is closed with
-- no blank line to end the headers, are accepted all the same, with all their values.
pub parse_headers-cut_off :
    (es : List (Bytes × Bytes))
    → All IsField es
    → length es ≤ max_headers
    → lines_size es + 2 ≤ max_protocol_header_bytes
    → (h : Header) × (parse_headers eof (write_lines es ++ []) ≡ ok h [])
      × ((j : Bytes) → values h j ≡ named_values j es)
parse_headers-cut_off es fields few size = read_back es eof [] [] eof-EndsHeaders fields few size

-- One such field more than 1000, within 64 KiB, is refused as soon as its line is read, whatever
-- comes behind it.
parse_headers-too_many :
    (es : List (Bytes × Bytes)) (stop : ProtocolError) (k v rest : Bytes)
    → All IsField es
    → length es ≡ max_headers
    → IsField (k, v)
    → lines_size es + (length k + length v + 4) ≤ max_protocol_header_bytes
    → parse_headers stop (write_lines es ++ (header_line (k, v) ++ rest))
      ≡ failed too_many_headers rest
unfolding parse_headers
parse_headers-too_many es stop k v rest fields count q size =
    parse_headers_from-fields es max_headers 0 0 [] stop (header_line (k, v) ++ rest) fields
      (omega (arith, count)) (omega arith)
    ∙ parse_headers_from-excess (0 + lines_size es) (add_all es []) stop k v rest q
        (omega (arith, size))
