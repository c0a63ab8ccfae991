-- ===== src/Router/Paths.antt =====
-- internal/router/router.go: the path of a request's URI.
pub mod Parts
use icapmock.Prelude.{
  ℕ, ◌+◌, Bool, true, false, not, ◌||◌, Option, none, some, [], ◌∷◌, ◌==◌, if◌then◌else◌, Bytes,
  codes, take, drop, is_nil, index, index_byte,
}

unfoldable pub strip_query : Bytes → Bytes
strip_query path = elim (index_byte path b'?') [ some i ↦ take i path | none ↦ path ]

abbrev pub or_root : Bytes → Bytes
or_root [] = codes "/"
or_root (c ∷ s) = c ∷ s

-- Behind `://`: the text from the first slash on.
unfoldable pub path_behind_host : Bytes → Bytes
path_behind_host rest = elim (index_byte rest b'/') [
  | none ↦ codes "/"
  | some i ↦ or_root (strip_query (drop i rest))
]

abbrev pub rooted : Bytes → Bytes
rooted [] = codes "/"
rooted (c ∷ s) = if c == b'/' then c ∷ s else b'/' ∷ c ∷ s

unfoldable pub extract_path : Bytes → Bytes
extract_path uri = if is_nil uri then codes "/" else elim (index uri (codes "://")) [
  | some i ↦ path_behind_host (drop (i + 3) uri)
  | none ↦ rooted (strip_query uri)
]
