-- ===== src/Server/Protocol.antt =====
-- internal/server/protocol.go: the request line and the headers of an ICAP request, read byte by
-- byte from a connection, which is the bytes to come and the error behind them.
pub mod Lines
pub mod StartLine
pub mod Fields
pub mod RoundTrip
use icapmock.Prelude.{
  ℕ, zero, suc, ◌+◌, ◌*◌, Bool, true, false, not, ◌&&◌, ◌||◌, Option, none, some, List, [], ◌∷◌,
  ◌++◌, ltb, leb, ◌==◌, if◌then◌else◌, Bytes, codes, ◌=ᵇ◌, length, take, drop, is_nil, map,
  lower_ascii, index_byte, split_byte, trim_space,
}
use icapmock.Icap.Header.{Header, add}

abbrev pub max_protocol_request_line_bytes : ℕ
max_protocol_request_line_bytes = 8 * 1024

abbrev pub max_protocol_header_line_bytes : ℕ
max_protocol_header_line_bytes = 8 * 1024

abbrev pub max_protocol_header_bytes : ℕ
max_protocol_header_bytes = 64 * 1024

abbrev pub max_headers : ℕ
max_headers = 1000

pub data ProtocolError : Type 0 where
  eof : ProtocolError
  read_error : ℕ → ProtocolError
  line_too_long headers_too_large too_many_headers malformed_headers : ProtocolError
  invalid_request_line invalid_method invalid_uri_scheme invalid_version : ProtocolError

abbrev pub is_eof : ProtocolError → Bool
is_eof eof = true
is_eof _ = false

-- A result with the bytes that are left.
pub data Result (A : Type 0) : Type 0 where
  ok : A → Bytes → Result A
  failed : ProtocolError → Bytes → Result A

unfoldable pub trim_protocol_line_ending : Bytes → Bytes
trim_protocol_line_ending [] = []
trim_protocol_line_ending (c ∷ []) = if c == b'\r' then [] else c ∷ []
trim_protocol_line_ending (c ∷ d ∷ s) = c ∷ trim_protocol_line_ending (d ∷ s)

pub data Appended : Type 0 where
  done : Appended
  too_long : Appended
  longer : Bytes → Appended

unfoldable pub append_protocol_line_byte : Bytes → ℕ → ℕ → Appended
append_protocol_line_byte buf b max_bytes =
    if b == b'\n'
    then done
    else if leb max_bytes (length buf)
    then too_long
    else longer (buf ++ b ∷ [])

-- The loop of `readProtocolLine` with the bytes that are in `buf`.
unfoldable pub read_line_from : ℕ → ProtocolError → Bytes → Bytes → Result Bytes
read_line_from max_bytes stop buf [] =
    if is_eof stop && ltb 0 (length buf)
    then ok (trim_protocol_line_ending buf) []
    else failed stop []
read_line_from max_bytes stop buf (b ∷ rest) = elim (append_protocol_line_byte buf b max_bytes) [
  | done ↦ ok (trim_protocol_line_ending buf) rest
  | too_long ↦ failed line_too_long rest
  | longer buf' ↦ read_line_from max_bytes stop buf' rest
]

unfoldable pub read_protocol_line : ℕ → ProtocolError → Bytes → Result Bytes
read_protocol_line max_bytes stop bytes = read_line_from max_bytes stop [] bytes

pub record RequestLine : Type 0 where
  pub verb : Bytes
  pub uri : Bytes
  pub version : Bytes

unfoldable pub is_valid_icap_method : Bytes → Bool
is_valid_icap_method m = m =ᵇ codes "REQMOD" || m =ᵇ codes "RESPMOD" || m =ᵇ codes "OPTIONS"

unfoldable pub is_valid_icap_version : Bytes → Bool
is_valid_icap_version v = v =ᵇ codes "ICAP/1.0"

-- `strings.EqualFold` with a text whose letters have no case variants beyond ASCII.
unfoldable pub has_icap_scheme : Bytes → Bool
has_icap_scheme uri = not (ltb (length uri) 7) && map lower_ascii (take 7 uri) =ᵇ codes "icap://"

unfoldable pub check_request_line : Bytes → Bytes → Bytes → Bytes → Result RequestLine
check_request_line m uri version rest =
    if not (is_valid_icap_method m)
    then failed invalid_method rest
    else if not (has_icap_scheme uri)
    then failed invalid_uri_scheme rest
    else if not (is_valid_icap_version version)
    then failed invalid_version rest
    else ok (record { verb = m; uri = uri; version = version }) rest

unfoldable pub split_request_line : Bytes × List Bytes → Bytes → Result RequestLine
split_request_line (m, uri ∷ version ∷ []) rest = check_request_line m uri version rest
split_request_line _ rest = failed invalid_request_line rest

unfoldable pub parse_request_line : ProtocolError → Bytes → Result RequestLine
parse_request_line stop bytes =
    elim (read_protocol_line max_protocol_request_line_bytes stop bytes) [
      | failed e rest ↦ failed e rest
      | ok l rest ↦ split_request_line (split_byte b' ' l) rest
    ]

unfoldable pub parse_header_line : Bytes → Option (Bytes × Bytes)
parse_header_line l = elim (index_byte l b':') [
  | none ↦ none
  | some idx ↦
      let key = trim_space (take idx l) in
      let value = trim_space (drop (idx + 1) l) in if is_nil key then none else some (key, value)
]

-- What one round of the loop of `parseHeaders` makes of a line.
pub data Round : Type 0 where
  refuse : ProtocolError → Round
  finish : Round
  field : Bytes → Bytes → Round

unfoldable pub header_round : ℕ → Bytes → Round
header_round total l =
    if ltb max_protocol_header_bytes total
    then refuse headers_too_large
    else if is_nil l
    then finish
    else elim (parse_header_line l) [
      | none ↦ refuse malformed_headers
      | some (key, value) ↦ field key value
    ]

-- The loop: `left` counts the headers that are still allowed, `total` the bytes read.
unfoldable pub parse_headers_from : ℕ → ℕ → Header → ProtocolError → Bytes → Result Header
parse_headers_from zero total h stop bytes =
    elim (read_protocol_line max_protocol_header_line_bytes stop bytes) [
      | failed e rest ↦ if is_eof e then ok h rest else failed e rest
      | ok l rest ↦ elim (header_round (total + (length l + 2)) l) [
        | refuse e ↦ failed e rest
        | finish ↦ ok h rest
        | field key value ↦ failed too_many_headers rest
      ]
    ]
parse_headers_from (suc left) total h stop bytes =
    elim (read_protocol_line max_protocol_header_line_bytes stop bytes) [
      | failed e rest ↦ if is_eof e then ok h rest else failed e rest
      | ok l rest ↦ elim (header_round (total + (length l + 2)) l) [
        | refuse e ↦ failed e rest
        | finish ↦ ok h rest
        | field key value ↦
            parse_headers_from left (total + (length l + 2)) (add key value h) stop rest
      ]
    ]

unfoldable pub parse_headers : ProtocolError → Bytes → Result Header
parse_headers stop bytes = parse_headers_from max_headers 0 [] stop bytes
