-- ===== src/Router/Paths/Parts.antt =====
-- internal/router/router.go: the path that `extractPath` finds in a URI.
use icapmock.Prelude.{
  ℕ, suc, ◌+◌, ◌≡◌, refl, sym, ap, ◌∙◌, true, false, Option, none, some, [], ◌∷◌, ◌++◌, arith, ◌==◌,
  Bytes, codes, take, drop, is_nil, index, index_byte, index_byte_at, lacks, length,
  take-length_self, drop-length_self, has_prefix, Option-cases, Bool-cases, inl, inr, append-nil,
  ◌⊎◌, subst, ==_iff, ◌≢◌,
}
use mathlib.Core.Option
use icapmock.Router.Paths.{strip_query, path_behind_host, rooted, extract_path}

index_byte-cons :
    (b c : ℕ) (s : Bytes)
    → ((c == b) ≡ true) × (index_byte (c ∷ s) b ≡ some 0)
      ⊎ (((c == b) ≡ false) × (index_byte (c ∷ s) b ≡ Option.map suc (index_byte s b)))
unfolding index_byte
index_byte-cons b c s = elim (Bool-cases (c == b)) [
  | inl e ↦ inl (e, rw e refl)
  | inr e ↦ inr (e, rw e refl)
]

-- The text before the first `b` has none, and the rest starts with it.
abbrev SplitsAt : ℕ → ℕ → Bytes → Type 0
SplitsAt b i s = (lacks b (take i s) ≡ true) × ((t : Bytes) × (drop i s ≡ b ∷ t))

map-suc-some :
    (o : Option ℕ) (i : ℕ) → Option.map suc o ≡ some i → (j : ℕ) × (i ≡ suc j) × (o ≡ some j)
map-suc-some none i h = absurd (cc)
map-suc-some (some j) i h = (j, cc, refl)

map-suc-none : (o : Option ℕ) → Option.map suc o ≡ none → o ≡ none
map-suc-none none h = refl
map-suc-none (some j) h = absurd (cc)

SplitsAt-suc :
    (b c i : ℕ) (s : Bytes) → (c == b) ≡ false → SplitsAt b i s → SplitsAt b (suc i) (c ∷ s)
SplitsAt-suc b c i s ne (h, (t, e)) = (rw (ne, h) refl, (t, e))

index_byte-SplitsAt : (b : ℕ) (s : Bytes) (i : ℕ) → index_byte s b ≡ some i → SplitsAt b i s
index_byte-SplitsAt b [] i h = absurd (unfold index_byte in cc)
index_byte-SplitsAt b (c ∷ s) i h = elim (index_byte-cons b c s) [
  | inl (here, e) ↦
      let z : 0 ≡ i = some-injective (sym e ∙ h) in
      subst (λ j. SplitsAt b j (c ∷ s)) z (refl, (s, ap (λ (x : ℕ). x ∷ s) ((==_iff c b).0 here)))
  | inr (ne, e) ↦
      let (j, at, found) = map-suc-some (index_byte s b) i (sym e ∙ h) in
      subst (λ k. SplitsAt b k (c ∷ s)) (sym at)
        (SplitsAt-suc b c j s ne (index_byte-SplitsAt b s j found))
]
  where
    some-injective : {x y : ℕ} → some x ≡ some y → x ≡ y
    some-injective p = cc

index_byte-none : (b : ℕ) (s : Bytes) → index_byte s b ≡ none → lacks b s ≡ true
index_byte-none b [] h = refl
index_byte-none b (c ∷ s) h = elim (index_byte-cons b c s) [
  | inl (here, e) ↦ absurd (some-none (sym e ∙ h))
  | inr (ne, e) ↦ rw (ne, index_byte-none b s (map-suc-none (index_byte s b) (sym e ∙ h))) refl
]
  where
    some-none : {x : ℕ} → some x ≢ none
    some-none p = cc

strip_query-lacks : (s : Bytes) → lacks b'?' (strip_query s) ≡ true
unfolding strip_query
strip_query-lacks s = elim (Option-cases (index_byte s b'?')) [
  | inl e ↦ rw (strip_query, e) (index_byte-none b'?' s e)
  | inr (i, e) ↦ rw (strip_query, e) (index_byte-SplitsAt b'?' s i e).0
]

-- A path starts with a slash and has no query behind it.
abbrev pub IsPath : Bytes → Type 0
IsPath s = (lacks b'?' s ≡ true) × ((t : Bytes) × (s ≡ b'/' ∷ t))

rooted-IsPath : (s : Bytes) → lacks b'?' s ≡ true → IsPath (rooted s)
rooted-IsPath [] h = (refl, ([], refl))
rooted-IsPath (c ∷ s) h = elim (Bool-cases (c == b'/')) [
  | inl e ↦ rw e (h, (s, ap (λ (x : ℕ). x ∷ s) ((==_iff c b'/').0 e)))
  | inr e ↦ rw e (h, (c ∷ s, refl))
]

strip_query-slash : (t : Bytes) → (t' : Bytes) × (strip_query (b'/' ∷ t) ≡ b'/' ∷ t')
unfolding strip_query index_byte
strip_query-slash t = elim (Option-cases (index_byte t b'?')) [
  | inl e ↦ (t, ground (arith, e))
  | inr (i, e) ↦ (take i t, ground (arith, e))
]

path_behind_host-IsPath : (s : Bytes) → IsPath (path_behind_host s)
unfolding path_behind_host
path_behind_host-IsPath s = elim (Option-cases (index_byte s b'/')) [
  | inl e ↦ rw (path_behind_host, e) (refl, ([], refl))
  | inr (i, e) ↦
      let (t, f) = (index_byte-SplitsAt b'/' s i e).1 in
      let (t', g) = strip_query-slash t in
      rw (path_behind_host, e)
        (rw (f, g) (subst (λ x. lacks b'?' x ≡ true) g (strip_query-lacks (b'/' ∷ t)), (t', refl)))
]

-- Whatever the URI, the path that is routed on starts with a slash and has no query behind it.
extract_path-IsPath : (uri : Bytes) → IsPath (extract_path uri)
unfolding extract_path
extract_path-IsPath [] = (refl, ([], refl))
extract_path-IsPath (c ∷ s) = elim (Option-cases (index (c ∷ s) (codes "://"))) [
  | inl e ↦ rw (extract_path, e) (rooted-IsPath (strip_query (c ∷ s)) (strip_query-lacks (c ∷ s)))
  | inr (i, e) ↦ rw (extract_path, e) (path_behind_host-IsPath (drop (i + 3) (c ∷ s)))
]

-- A query, or nothing.
abbrev pub IsQuery : Bytes → Type 0
IsQuery q = (q ≡ []) ⊎ ((t : Bytes) × (q ≡ b'?' ∷ t))

index_byte_lacking : (b : ℕ) (s : Bytes) → lacks b s ≡ true → index_byte s b ≡ none
unfolding index_byte
index_byte_lacking b [] h = refl
index_byte_lacking b (c ∷ s) h = ground (arith, index_byte_lacking b s)

strip_query-append : (s q : Bytes) → lacks b'?' s ≡ true → IsQuery q → strip_query (s ++ q) ≡ s
unfolding strip_query
strip_query-append s q h (inl e) =
    rw (e, append-nil s) (rw (strip_query, index_byte_lacking b'?' s h) refl)
strip_query-append s q h (inr (t, e)) =
    rw e (rw (strip_query, index_byte_at b'?' s t h) (take-length_self s (b'?' ∷ t)))

index-scheme :
    (s t : Bytes)
    → lacks b':' s ≡ true
    → index (s ++ (codes "://" ++ t)) (codes "://") ≡ some (length s)
unfolding index has_prefix
index-scheme [] t h = ground arith
index-scheme (c ∷ s) t h =
    let ih = index-scheme s t (ground arith) in
    let ne : (b':' == c) ≡ false = ground arith in ground (arith, ih)

path_behind_host-lem :
    (host t q : Bytes)
    → lacks b'/' host ≡ true
    → lacks b'?' (b'/' ∷ t) ≡ true
    → IsQuery q
    → path_behind_host (host ++ ((b'/' ∷ t) ++ q)) ≡ b'/' ∷ t
unfolding path_behind_host
path_behind_host-lem host t q h k iq =
    rw (path_behind_host, index_byte_at b'/' host (t ++ q) h)
      (rw (drop-length_self host (b'/' ∷ (t ++ q)), strip_query-append (b'/' ∷ t) q k iq) refl)

drop-scheme : (s x : Bytes) → drop (length s + 3) (s ++ (codes "://" ++ x)) ≡ x
drop-scheme [] x = refl
drop-scheme (c ∷ s) x =
    let e : suc (length s) + 3 ≡ suc (length s + 3) = omega arith in rw e (drop-scheme s x)

uri-not_nil : (s x : Bytes) → is_nil (s ++ (codes "://" ++ x)) ≡ false
uri-not_nil [] x = refl
uri-not_nil (c ∷ s) x = refl

-- Of a URI with a scheme that has no colon, slash or question mark, a host that has no slash or
-- question mark and a path that starts with a slash and has no question mark, with a query or
-- without, the path is what stands between the host and the query.
pub extract_path-uri :
    (scheme host t query : Bytes)
    → lacks b':' scheme ≡ true
    → lacks b'/' scheme ≡ true
    → lacks b'?' scheme ≡ true
    → lacks b'/' host ≡ true
    → lacks b'?' host ≡ true
    → lacks b'?' (b'/' ∷ t) ≡ true
    → IsQuery query
    → extract_path (scheme ++ (codes "://" ++ (host ++ ((b'/' ∷ t) ++ query)))) ≡ b'/' ∷ t
unfolding extract_path
extract_path-uri scheme host t query hs hs' hs'' hh hh' ht hq =
    let rest = host ++ ((b'/' ∷ t) ++ query) in
    rw (extract_path, uri-not_nil scheme rest, index-scheme scheme rest hs)
      (rw (drop-scheme scheme rest) (path_behind_host-lem host t query hh ht hq))
