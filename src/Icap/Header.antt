-- ===== src/Icap/Header.antt =====
-- pkg/icap/header.go: ICAP headers. `canonicalCache` only remembers results of a pure function; a
-- nil header behaves as an empty one where it is read.
pub mod Canonical
pub mod Laws
use icapmock.Prelude.{
  ℕ, ◌+◌, ◌-◌, Bool, true, false, not, ◌&&◌, Option, none, some, List, [], ◌∷◌, ◌++◌, leb, ◌==◌,
  if◌then◌else◌, Bytes, codes, lower_ascii, ltb, foldr, ◌||◌,
}
use icapmock.Prelude.Maps.{lookup, insert, delete, keys}

abbrev pub Header : Type 0
Header = List (Bytes × List Bytes)

abbrev pub canonical_header_keys : List (Bytes × Bytes)
canonical_header_keys =
    (codes "host", codes "Host")
    ∷ (codes "encapsulated", codes "Encapsulated")
    ∷ (codes "istag", codes "ISTag")
    ∷ (codes "service", codes "Service")
    ∷ (codes "service-id", codes "Service-ID")
    ∷ (codes "max-connections", codes "Max-Connections")
    ∷ (codes "options-ttl", codes "Options-TTL")
    ∷ (codes "date", codes "Date")
    ∷ (codes "allow", codes "Allow")
    ∷ (codes "preview", codes "Preview")
    ∷ (codes "x-client-ip", codes "X-Client-IP")
    ∷ (codes "x-authenticated-user", codes "X-Authenticated-User")
    ∷ (codes "content-type", codes "Content-Type")
    ∷ (codes "content-length", codes "Content-Length")
    ∷ (codes "transfer-encoding", codes "Transfer-Encoding")
    ∷ (codes "connection", codes "Connection")
    ∷ (codes "cache-control", codes "Cache-Control")
    ∷ (codes "etag", codes "ETag")
    ∷ (codes "te", codes "TE")
    ∷ (codes "methods", codes "Methods")
    ∷ []

-- `strings.ToLower`, as far as its result can be ASCII: two code points beyond ASCII have an ASCII
-- letter in lower case, U+0130 (0xC4 0xB0) and U+212A (0xE2 0x84 0xAA). The bytes of the others are kept,
-- since the result is only compared with ASCII names.
unfoldable pub to_lower : Bytes → Bytes
to_lower [] = []
to_lower (a ∷ []) = lower_ascii a ∷ []
to_lower (a ∷ b ∷ []) =
    if a == 0xC4 && b == 0xB0 then b'i' ∷ [] else lower_ascii a ∷ lower_ascii b ∷ []
to_lower (a ∷ b ∷ c ∷ s) = elim (a == 0xC4 && b == 0xB0) [
  | true ↦ b'i' ∷ to_lower (c ∷ s)
  | false ↦ elim (a == 0xE2 && b == 0x84 && c == 0xAA) [
    | true ↦ b'k' ∷ to_lower s
    | false ↦ lower_ascii a ∷ to_lower (b ∷ c ∷ s)
  ]
]

-- One byte of the loop of `textCanonicalize`.
unfoldable pub canonical_byte : Bool → ℕ → ℕ
canonical_byte upper c =
    if upper && (leb b'a' c && leb c b'z')
    then c - 32
    else if not upper && (leb b'A' c && leb c b'Z')
    then c + 32
    else c

unfoldable pub canonicalize_from : Bool → Bytes → Bytes
canonicalize_from upper [] = []
canonicalize_from upper (c ∷ s) =
    let c' = canonical_byte upper c in c' ∷ canonicalize_from (c' == b'-') s

unfoldable pub text_canonicalize : Bytes → Bytes
text_canonicalize s = canonicalize_from true s

-- The table's form of a name, or that of the slow path.
unfoldable pub table_form : Option Bytes → Bytes → Bytes
table_form (some v) key = v
table_form none key = text_canonicalize key

unfoldable pub canonical_header_key : Bytes → Bytes
canonical_header_key key = table_form (lookup (to_lower key) canonical_header_keys) key

-- A missing key has no values.
abbrev pub stored : Option (List Bytes) → List Bytes
stored none = []
stored (some vs) = vs

abbrev pub first_value : List Bytes → Option Bytes
first_value [] = none
first_value (v ∷ vs) = some v

unfoldable pub values : Header → Bytes → List Bytes
values h key = stored (lookup (canonical_header_key key) h)

-- `none` is the second result `false`.
unfoldable pub get : Header → Bytes → Option Bytes
get h key = first_value (values h key)

unfoldable pub set : Bytes → Bytes → Header → Header
set key value h = insert (canonical_header_key key) (value ∷ []) h

unfoldable pub add : Bytes → Bytes → Header → Header
add key value h = let k = canonical_header_key key in insert k (stored (lookup k h) ++ value ∷ []) h

unfoldable pub del : Bytes → Header → Header
del key h = delete (canonical_header_key key) h

unfoldable pub has : Header → Bytes → Bool
has h key = elim (get h key) [ none ↦ false | some v ↦ true ]

unfoldable pub set_all : List (Bytes × Bytes) → Header → Header
set_all [] h = h
set_all ((k, v) ∷ rest) h = set_all rest (set k v h)

-- Byte strings are ordered as by `<` on Go strings.
unfoldable pub bytes_leb : Bytes → Bytes → Bool
bytes_leb [] t = true
bytes_leb (c ∷ s) [] = false
bytes_leb (c ∷ s) (d ∷ t) = ltb c d || c == d && bytes_leb s t

unfoldable pub insert_sorted : Bytes → List Bytes → List Bytes
insert_sorted k [] = k ∷ []
insert_sorted k (j ∷ js) = if bytes_leb k j then k ∷ j ∷ js else j ∷ insert_sorted k js

-- `sort.Strings` gives the keys in ascending order; they are inserted one by one.
unfoldable pub sort_strings : List Bytes → List Bytes
sort_strings ks = foldr insert_sorted [] ks

unfoldable pub sorted_keys : Header → List Bytes
sorted_keys h = sort_strings (keys h)

-- What `Walk` passes to a function that never stops it.
unfoldable pub entries_of : Bytes → List Bytes → List (Bytes × Bytes)
entries_of k [] = []
entries_of k (v ∷ vs) = (k, v) ∷ entries_of k vs

unfoldable pub entries_at : Header → List Bytes → List (Bytes × Bytes)
entries_at h [] = []
entries_at h (k ∷ ks) = entries_of k (stored (lookup k h)) ++ entries_at h ks

unfoldable pub header_line : Bytes × Bytes → Bytes
header_line (k, v) = k ++ (codes ": " ++ (v ++ codes "\r\n"))

unfoldable pub write_lines : List (Bytes × Bytes) → Bytes
write_lines [] = []
write_lines (e ∷ es) = header_line e ++ write_lines es

-- `WriteToBuffer` into an empty buffer, which is also `String`.
unfoldable pub write_to_buffer : Header → Bytes
write_to_buffer h = write_lines (entries_at h (sorted_keys h))

-- The first values, as `ToMap` collects them.
unfoldable pub to_map : Header → List (Bytes × Bytes)
to_map [] = []
to_map ((k, []) ∷ h) = to_map h
to_map ((k, v ∷ vs) ∷ h) = (k, v) ∷ to_map h
