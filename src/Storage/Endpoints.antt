-- ===== src/Storage/Endpoints.antt =====
-- internal/storage/scenario.go and sharded_scenario.go: the path of a request, and the endpoints that
-- are tried on it. What `regexp` finds for a compiled endpoint is a parameter.
pub mod Paths
use icapmock.Prelude.{
  ℕ, zero, suc, Bool, true, false, Option, none, some, List, [], ◌∷◌, ◌++◌, ◌==◌, ◌||◌,
  if◌then◌else◌, Bytes, codes, length, drop, take, is_nil, has_prefix, index, index_byte,
}
use icapmock.Prelude.Maps.{insert}

-- `find_submatch` gives the whole match and the groups; `subexp_names` has a name, or an empty one,
-- for each of them. An endpoint that was compiled from an empty text has no expression.
pub record Expression : Type 0 where
  pub find_submatch : Bytes → Option (List Bytes)
  pub subexp_names : List Bytes

pub record CompiledEndpoint : Type 0 where
  pub expression : Option Expression
  pub raw : Bytes
  pub captures : List Bytes

unfoldable pub trim_prefix : Bytes → Bytes → Bytes
trim_prefix s p = if has_prefix s p then drop (length p) s else s

unfoldable pub cut_at : ℕ → Bytes → Bytes
cut_at b path = elim (index_byte path b) [ some i ↦ take i path | none ↦ path ]

abbrev pub from_slash : Bytes → Bytes
from_slash uri = elim (index uri (codes "/")) [ none ↦ codes "/" | some i ↦ drop i uri ]

-- `extractPath` of this package: the query and the fragment are kept.
unfoldable pub request_path : Bytes → Bytes
request_path uri = from_slash (trim_prefix (trim_prefix uri (codes "icap://")) (codes "icaps://"))

-- `strings.IndexAny` with `?#`.
unfoldable pub index_query_or_fragment : Bytes → Option ℕ
index_query_or_fragment [] = none
index_query_or_fragment (c ∷ s) =
    if c == b'?' || c == b'#'
    then some 0
    else elim (index_query_or_fragment s) [ none ↦ none | some i ↦ some (suc i) ]

unfoldable pub shard_lookup_path : Bytes → Bytes
shard_lookup_path uri =
    let path = request_path uri in
    elim (index_query_or_fragment path) [ some i ↦ take i path | none ↦ path ]

-- The loop over `SubexpNames` behind the first name.
unfoldable pub captured : List Bytes → List Bytes → List (Bytes × Bytes) → List (Bytes × Bytes)
captured [] values caps = caps
captured (name ∷ names) [] caps = caps
captured (name ∷ names) (v ∷ values) caps =
    captured names values (if is_nil name then caps else insert name v caps)

abbrev behind_first : List Bytes → List Bytes
behind_first [] = []
behind_first (x ∷ xs) = xs

abbrev captures_of : CompiledEndpoint → Expression → List Bytes → List (Bytes × Bytes)
captures_of p e m =
    if is_nil p.captures then [] else captured (behind_first e.subexp_names) (behind_first m) []

abbrev submatch : Option Expression → Bytes → Option (List Bytes)
submatch none path = none
submatch (some e) path = e.find_submatch path

abbrev endpoint_captures : CompiledEndpoint → Option Expression → List Bytes → List (Bytes × Bytes)
endpoint_captures p none m = []
endpoint_captures p (some e) m = captures_of p e m

unfoldable pub first_endpoint : List CompiledEndpoint → Bytes → Option (List (Bytes × Bytes))
first_endpoint [] path = none
first_endpoint (p ∷ ps) path = elim (submatch p.expression path) [
  | some m ↦ some (endpoint_captures p p.expression m)
  | none ↦ first_endpoint ps path
]

unfoldable pub match_endpoint : List CompiledEndpoint → Bytes → Option (List (Bytes × Bytes))
match_endpoint paths path = first_endpoint paths (cut_at b'#' (cut_at b'?' path))

-- A range over a captured map, each value stored.
unfoldable pub merge_captures : List (Bytes × Bytes) → List (Bytes × Bytes) → List (Bytes × Bytes)
merge_captures [] captures = captures
merge_captures ((k, v) ∷ rest) captures = merge_captures rest (insert k v captures)
