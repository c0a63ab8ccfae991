-- ===== src/Storage/Endpoints/Paths.antt =====
-- internal/storage: the two ways to cut a query and a fragment off a path.
use icapmock.Prelude.{
  ◌≡◌, refl, ap, ◌∙◌, sym, Bool-cases, inl, inr, none, some, [], ◌∷◌, arith, ◌==◌, Bytes, take,
  index_byte, ℕ, ◌||◌, true, false,
}
use icapmock.Storage.Endpoints.{cut_at, index_query_or_fragment, request_path, shard_lookup_path}

cut_at_hit : (b c : ℕ) (s : Bytes) → (c == b) ≡ true → cut_at b (c ∷ s) ≡ []
unfolding cut_at index_byte
cut_at_hit b c s h = rw (h, cut_at)

cut_at-cons : (b c : ℕ) (s : Bytes) → (c == b) ≡ false → cut_at b (c ∷ s) ≡ c ∷ cut_at b s
unfolding cut_at index_byte
cut_at-cons b c s h = ground (arith, h)

abbrev cut_any : Bytes → Bytes
cut_any path = elim (index_query_or_fragment path) [ some i ↦ take i path | none ↦ path ]

cut_any_hit : (c : ℕ) (s : Bytes) → (c == b'?' || c == b'#') ≡ true → cut_any (c ∷ s) ≡ []
unfolding index_query_or_fragment
cut_any_hit c s h = ground (arith, h)

cut_any-cons :
    (c : ℕ) (s : Bytes) → (c == b'?' || c == b'#') ≡ false → cut_any (c ∷ s) ≡ c ∷ cut_any s
unfolding index_query_or_fragment
cut_any-cons c s h = ground (arith, h)

cut_any-eq : (s : Bytes) → cut_any s ≡ cut_at b'#' (cut_at b'?' s)
unfolding index_query_or_fragment cut_at index_byte
cut_any-eq [] = refl
cut_any-eq (c ∷ s) = elim (Bool-cases (c == b'?')) [
  | inl query ↦
      cut_any_hit c s (ground (arith, query)) ∙ sym (ap (cut_at b'#') (cut_at_hit b'?' c s query))
  | inr other ↦ elim (Bool-cases (c == b'#')) [
    | inl fragment ↦
        cut_any_hit c s (ground (arith, fragment))
        ∙ sym (cut_at_hit b'#' c (cut_at b'?' s) fragment)
        ∙ sym (ap (cut_at b'#') (cut_at-cons b'?' c s other))
    | inr plain ↦
        cut_any-cons c s (ground (arith, other, plain))
        ∙ ap (λ (r : Bytes). c ∷ r) (cut_any-eq s)
        ∙ sym (cut_at-cons b'#' c (cut_at b'?' s) plain)
        ∙ sym (ap (cut_at b'#') (cut_at-cons b'?' c s other))
  ]
]

-- The path by which a shard is chosen is the path that the endpoints are tried on: cutting at the
-- first `?` or `#` gives the same as cutting at `?` and then at `#`.
shard_lookup_path-cut_at :
    (uri : Bytes) → shard_lookup_path uri ≡ cut_at b'#' (cut_at b'?' (request_path uri))
unfolding shard_lookup_path
shard_lookup_path-cut_at uri = cut_any-eq (request_path uri)
