-- ===== src/Server/Protocol/StartLine.antt =====
-- internal/server/protocol.go: what `parseRequestLine` makes of a line of three words.
use icapmock.Prelude.{
  ◌<◌, ◌≡◌, ◌↔◌, refl, All, join_byte, join_byte-split_byte, split_byte-pieces_lack, sym, subst,
  ◌∙◌, true, List, [], ◌∷◌, ◌++◌, arith, Bytes, length, lacks, split_byte, split_byte_at,
  split_byte-lacks,
}
use icapmock.Server.Protocol.{
  ProtocolError, ok, max_protocol_request_line_bytes, RequestLine, check_request_line,
  split_request_line, parse_request_line, is_valid_icap_method, has_icap_scheme,
  is_valid_icap_version,
}
use icapmock.Server.Protocol.Lines.{read_protocol_line-crlf}

-- A request line with these words.
abbrev pub three_words : Bytes → Bytes → Bytes → Bytes
three_words m uri version = m ++ b' ' ∷ (uri ++ b' ' ∷ version)

split-three_words :
    (m uri version : Bytes)
    → lacks b' ' m ≡ true
    → lacks b' ' uri ≡ true
    → lacks b' ' version ≡ true
    → split_byte b' ' (m ++ b' ' ∷ (uri ++ b' ' ∷ version)) ≡ (m, uri ∷ version ∷ [])
split-three_words m uri version h1 h2 h3 =
    rw
      (
        split_byte_at b' ' m (uri ++ b' ' ∷ version) h1,
        split_byte_at b' ' uri version h2,
        split_byte-lacks b' ' version h3,
      )
      refl

-- A request line that is accepted: three words, a method of ICAP, an icap URI and ICAP/1.0.
pub record IsRequestLine (l : Bytes) (r : RequestLine) : Type 0 where
  pub spelled : l ≡ three_words r.verb r.uri r.version
  pub words : (lacks b' ' r.verb ≡ true) × (lacks b' ' r.uri ≡ true) × (lacks b' ' r.version ≡ true)
  pub known_method : is_valid_icap_method r.verb ≡ true
  pub icap_scheme : has_icap_scheme r.uri ≡ true
  pub known_version : is_valid_icap_version r.version ≡ true

check_request_line_iff :
    (m uri version rest : Bytes) (r : RequestLine)
    → (check_request_line m uri version rest ≡ ok r rest) ↔ (
        (record { verb = m; uri = uri; version = version } ≡ r)
        × (is_valid_icap_method m ≡ true)
        × (has_icap_scheme uri ≡ true)
        × (is_valid_icap_version version ≡ true))
unfolding check_request_line
check_request_line_iff m uri version rest r = ground arith

request_line_of :
    (s : Bytes) (w : Bytes × List Bytes) (rest : Bytes) (r : RequestLine)
    → join_byte b' ' w.0 w.1 ≡ s
    → lacks b' ' w.0 ≡ true
    → All (λ p. lacks b' ' p ≡ true) w.1
    → split_request_line w rest ≡ ok r rest
    → IsRequestLine s r
unfolding split_request_line
request_line_of s (m, []) rest r j f o e = absurd (cc)
request_line_of s (m, uri ∷ []) rest r j f o e = absurd (cc)
request_line_of s (m, uri ∷ version ∷ []) rest r j f (o1, (o2, _)) e =
    let (same, valid, scheme, known) = (check_request_line_iff m uri version rest r).0 e in
    subst (λ x. IsRequestLine s x) same
      (record {
        spelled = sym j;
        words = (f, o1, o2);
        known_method = valid;
        icap_scheme = scheme;
        known_version = known;
      })
request_line_of s (m, uri ∷ version ∷ other ∷ others) rest r j f o e = absurd (cc)

split_request_line_complete :
    (s rest : Bytes) (r : RequestLine)
    → IsRequestLine s r
    → split_request_line (split_byte b' ' s) rest ≡ ok r rest
unfolding split_request_line
split_request_line_complete s rest r q =
    rw (q.spelled, split-three_words r.verb r.uri r.version q.words.0 q.words.1 q.words.2)
      ((check_request_line_iff r.verb r.uri r.version rest r).1
        (refl, q.known_method, q.icap_scheme, q.known_version))

-- Exactly the request lines are accepted: a line below the limit gives a request when it is three
-- words with one blank between two, a method of ICAP, an icap URI and ICAP/1.0, and it gives these.
pub parse_request_line_iff :
    (stop : ProtocolError) (l rest : Bytes) (r : RequestLine)
    → lacks b'\n' l ≡ true
    → length l < max_protocol_request_line_bytes
    → (parse_request_line stop (l ++ b'\r' ∷ b'\n' ∷ rest) ≡ ok r rest) ↔ IsRequestLine l r
unfolding parse_request_line
parse_request_line_iff stop l rest r h k =
    let pieces = split_byte-pieces_lack b' ' l in
    let line = read_protocol_line-crlf max_protocol_request_line_bytes stop l rest h k in
    let e : parse_request_line stop (l ++ b'\r' ∷ b'\n' ∷ rest)
        ≡ split_request_line (split_byte b' ' l) rest =
      ground (arith, line) in
    (
      λ p.
          request_line_of l (split_byte b' ' l) rest r (join_byte-split_byte b' ' l) pieces.0
            pieces.1 (sym e ∙ p),
      λ q. e ∙ split_request_line_complete l rest r q,
    )
