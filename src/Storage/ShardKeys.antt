-- ===== src/Storage/ShardKeys.antt =====
-- internal/storage/sharded_scenario.go: the shard and the keys of a scenario.
use Prim.Native.Nat.{bit_xor}
use icapmock.Prelude.{
  ℕ, ◌*◌, ◌%◌, ◌^◌, Bool, true, false, ◌||◌, Option, none, some, List, [], ◌∷◌, ◌++◌, map, ◌==◌,
  if◌then◌else◌, Bytes, codes, has_prefix, index_byte, is_nil,
}
use icapmock.Prelude.Maps.{lookup}
use icapmock.Storage.HeaderRules.{member}
use icapmock.Storage.Endpoints.{shard_lookup_path}
use icapmock.Storage.Scenarios.{Scenario, Request, method_reqmod, method_respmod}

-- FNV-1a over 32 bits.
unfoldable pub fnv_from : ℕ → Bytes → ℕ
fnv_from h [] = h
fnv_from h (c ∷ s) = fnv_from ((bit_xor h c * 16777619) % 2 ^ 32) s

unfoldable pub hash_string : ℕ → Bytes → ℕ
hash_string count s = fnv_from 2166136261 s % count

abbrev pub occurs : ℕ → Bytes → Bool
occurs b s = elim (index_byte s b) [ none ↦ false | some i ↦ true ]

abbrev pub plain_path : Bytes → Option Bytes
plain_path p =
    if is_nil p || has_prefix p (codes "re:") || occurs b'{' p || occurs b'}' p
    then none
    else some p

abbrev pub only_path : List Bytes → Option Bytes
only_path [] = none
only_path (p ∷ q ∷ ps) = none
only_path (p ∷ []) = plain_path p

unfoldable pub shard_safe_path : Scenario → Option Bytes
shard_safe_path s = only_path s.rule.paths

unfoldable pub requires_global_priority_check : Scenario → Bool
requires_global_priority_check s = elim (shard_safe_path s) [ none ↦ true | some p ↦ false ]

abbrev pub first_path : List Bytes → Bytes → Bytes → Bytes
first_path (p ∷ ps) path name = p
first_path [] [] name = name
first_path [] (c ∷ path) name = c ∷ path

unfoldable pub shard_for_scenario : ℕ → Scenario → ℕ
shard_for_scenario count s = elim (shard_safe_path s) [
  | some p ↦ hash_string count p
  | none ↦ hash_string count (first_path s.rule.paths s.rule.path s.name)
]

unfoldable pub shard_for_request : ℕ → Request → ℕ
shard_for_request count req = hash_string count (shard_lookup_path req.uri)

abbrev pub is_special : ℕ → Bool
is_special c =
    c == b'*' || c == b'?' || c == b'[' || c == b'(' || c == b'+' || c == b'$' || c == b'.'

unfoldable pub before_special : Bytes → Bytes
before_special [] = []
before_special (c ∷ s) = let rest = before_special s in if is_special c then [] else c ∷ rest

abbrev pub without_anchor : Bytes → Bytes
without_anchor [] = []
without_anchor (c ∷ s) = if c == b'^' then s else c ∷ s

unfoldable pub extract_path_prefix : Bytes → Bytes
extract_path_prefix pattern = before_special (without_anchor pattern)

abbrev pub or_star : Bytes → Bytes
or_star [] = codes "*"
or_star (c ∷ s) = c ∷ s

abbrev pub path_prefixes : List Bytes → Bytes → List Bytes
path_prefixes (p ∷ ps) path = map (λ q. or_star (extract_path_prefix q)) (p ∷ ps)
path_prefixes [] [] = codes "*" ∷ []
path_prefixes [] (c ∷ path) = or_star (extract_path_prefix (c ∷ path)) ∷ []

abbrev pub or_any_method : List Bytes → List Bytes
or_any_method [] = codes "*" ∷ []
or_any_method (m ∷ ms) = m ∷ ms

abbrev pub index_key : Bytes → Bytes → Bytes
index_key method path = method ++ (b':' ∷ path)

abbrev pub keys_for : Bytes → List Bytes → List Bytes
keys_for prefix [] = []
keys_for prefix (m ∷ ms) = index_key m prefix ∷ keys_for prefix ms

abbrev pub all_keys : List Bytes → List Bytes → List Bytes
all_keys [] methods = []
all_keys (p ∷ ps) methods = keys_for p methods ++ all_keys ps methods

-- The first of each text.
unfoldable pub unseen : List Bytes → List Bytes → List Bytes
unseen seen [] = []
unseen seen (k ∷ ks) =
    let rest = unseen (k ∷ seen) ks in if member k seen then unseen seen ks else k ∷ rest

unfoldable pub build_index_keys : Scenario → List Bytes
build_index_keys s =
    unseen [] (all_keys (path_prefixes s.rule.paths s.rule.path) (or_any_method s.rule.methods))

abbrev pub present_method : List (Bytes × List Bytes) → Bytes → List Bytes
present_method routes m = elim (lookup m routes) [ none ↦ [] | some endpoints ↦ m ∷ [] ]

-- The two methods that a route can have, in the order in which they are gone through.
unfoldable pub ordered_route_methods : List (Bytes × List Bytes) → List Bytes
ordered_route_methods routes =
    present_method routes method_reqmod ++ present_method routes method_respmod

abbrev pub endpoints_of : Option (List Bytes) → List Bytes
endpoints_of none = []
endpoints_of (some endpoints) = endpoints

abbrev pub with_method : Bytes → List Bytes → List (Bytes × Bytes)
with_method m [] = []
with_method m (e ∷ es) = (m, e) ∷ with_method m es

abbrev pub route_pairs : List (Bytes × List Bytes) → List Bytes → List (Bytes × Bytes)
route_pairs routes [] = []
route_pairs routes (m ∷ ms) =
    with_method m (endpoints_of (lookup m routes)) ++ route_pairs routes ms

-- `entries[shard] = append(entries[shard], key)`.
unfoldable pub add_entry : ℕ → Bytes → List (ℕ × List Bytes) → List (ℕ × List Bytes)
add_entry i key [] = (i, key ∷ []) ∷ []
add_entry i key ((j, keys) ∷ entries) =
    let rest = add_entry i key entries in
    if j == i then (j, keys ++ key ∷ []) ∷ entries else (j, keys) ∷ rest

unfoldable pub route_entries :
    ℕ → List Bytes → List (Bytes × Bytes) → List (ℕ × List Bytes) → Option (List (ℕ × List Bytes))
route_entries count seen [] entries = some entries
route_entries count seen ((m, p) ∷ pairs) entries =
    let key = index_key m p in
    let old = member key seen in
    let entries' = if old then entries else add_entry (hash_string count p) key entries in
    let rest = route_entries count (if old then seen else key ∷ seen) pairs entries' in
    if is_nil p || has_prefix p (codes "re:") || occurs b'{' p then none else rest

unfoldable pub exact_route_shard_entries : ℕ → Scenario → Option (List (ℕ × List Bytes))
exact_route_shard_entries count s =
    if is_nil s.rule.routes
    then none
    else route_entries count [] (route_pairs s.rule.routes (ordered_route_methods s.rule.routes)) []
