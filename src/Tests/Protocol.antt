-- ===== src/Tests/Protocol.antt =====
-- Tests of internal/server/protocol.go, and its theorems on short requests.
use icapmock.Prelude.{
  ℕ, zero, suc, ◌*◌, ◌≡◌, ◌↔◌, refl, List, [], ◌∷◌, ◌++◌, arith, Bytes, codes, length, ◌=ᵇ◌,
  lower_ascii, split_byte, index_byte, trim_space, All,
}
use icapmock.Icap.Header.{Header, values, write_lines, header_line}
use icapmock.Server.Protocol.{
  eof, ok, failed, trim_protocol_line_ending, append_protocol_line_byte, read_line_from,
  read_protocol_line, RequestLine, is_valid_icap_method, is_valid_icap_version, has_icap_scheme,
  check_request_line, split_request_line, parse_request_line, parse_header_line, header_round,
  parse_headers_from, parse_headers, invalid_method, invalid_request_line,
}
use icapmock.Server.Protocol.StartLine.{IsRequestLine, parse_request_line_iff}
use icapmock.Server.Protocol.Fields.{IsField, named_values, lines_size}
use icapmock.Server.Protocol.RoundTrip.{parse_headers-write_lines, parse_headers-cut_off}

program : Unit {0}
unfolding ◌=ᵇ◌ lower_ascii split_byte index_byte trim_space trim_protocol_line_ending
    append_protocol_line_byte read_line_from read_protocol_line is_valid_icap_method
    is_valid_icap_version has_icap_scheme check_request_line split_request_line parse_request_line
    parse_header_line header_round parse_headers_from parse_headers header_line write_lines
program = tt

abbrev options_line : Bytes
options_line = codes "OPTIONS icap://h/ ICAP/1.0"

abbrev options_request : RequestLine
options_request = record {
  verb = codes "OPTIONS";
  uri = codes "icap://h/";
  version = codes "ICAP/1.0";
}

request_lines :
    (parse_request_line eof (options_line ++ codes "\nrest") ≡ ok options_request (codes "rest"))
    × (parse_request_line eof (codes "GET icap://h/ ICAP/1.0\n") ≡ failed invalid_method [])
    × (parse_request_line eof (codes "OPTIONS") ≡ failed invalid_request_line [])
unfolding program
request_lines = (refl, refl, refl)

short_line : read_protocol_line 3 eof (codes "ab\r\nc") ≡ ok (codes "ab") (codes "c")
unfolding program
short_line = refl

parse_request_line_iff_example :
    (parse_request_line eof (options_line ++ b'\r' ∷ b'\n' ∷ []) ≡ ok options_request [])
    ↔ IsRequestLine options_line options_request
parse_request_line_iff_example =
    parse_request_line_iff eof options_line [] options_request refl (omega arith)

abbrev two_fields : List (Bytes × Bytes)
two_fields = (codes "Allow", codes "204") ∷ (codes "Host", codes "a") ∷ []

abbrev allow_field : Bytes × Bytes
allow_field = (codes "Allow", codes "204")

allow-IsField : IsField allow_field
unfolding program
allow-IsField = record {
  named = refl;
  no_colon = refl;
  one_line = (refl, refl);
  trimmed = (refl, refl);
  fits = omega arith;
}

host-IsField : IsField (codes "Host", codes "a")
unfolding program
host-IsField = record {
  named = refl;
  no_colon = refl;
  one_line = (refl, refl);
  trimmed = (refl, refl);
  fits = omega arith;
}

parse_headers-write_lines_example :
    (h : Header) × (parse_headers eof (write_lines two_fields ++ (codes "\r\n" ++ codes "body"))
      ≡ ok h (codes "body"))
    × ((j : Bytes) → values h j ≡ named_values j two_fields)
parse_headers-write_lines_example =
    parse_headers-write_lines two_fields eof (codes "body") (allow-IsField, (host-IsField, tt))
      (omega arith) (omega arith)

parse_headers-cut_off_example :
    (h : Header) × (parse_headers eof (write_lines two_fields ++ []) ≡ ok h [])
    × ((j : Bytes) → values h j ≡ named_values j two_fields)
parse_headers-cut_off_example =
    parse_headers-cut_off two_fields (allow-IsField, (host-IsField, tt)) (omega arith) (omega arith)

many : ℕ → List (Bytes × Bytes)
many zero = []
many (suc n) = allow_field ∷ many n

many-IsField : (n : ℕ) → All IsField (many n)
unfolding many
many-IsField zero = tt
many-IsField (suc n) = (allow-IsField, many-IsField n)

length-many : (n : ℕ) → length (many n) ≡ n
unfolding many
length-many zero = refl
length-many (suc n) = omega (arith, length-many n)

lines_size-many : (n : ℕ) → lines_size (many n) ≡ 12 * n
unfolding many
lines_size-many zero = refl
lines_size-many (suc n) = omega (arith, lines_size-many n)
