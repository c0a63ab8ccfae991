-- ===== src/Icap/Header/Canonical.antt =====
-- pkg/icap/header.go: `CanonicalHeaderKey` is blind to the case of letters.
use icapmock.Prelude.{
  ℕ, ◌≡◌, refl, sym, ◌∙◌, ap, ◌&&◌, ◌<◌, Bool, true, Option, none, some, List, [], ◌∷◌, map, arith,
  ◌==◌, Bytes, lower_ascii, Option-cases, inl, inr, ◌=ᵇ◌, =ᵇ_iff,
}
use icapmock.Prelude.Maps.{lookup}
use icapmock.Icap.Header.{
  canonical_header_keys, to_lower, canonical_byte, canonicalize_from, text_canonicalize,
  canonical_header_key, table_form,
}

lower_ascii_twice : (c : ℕ) → lower_ascii (lower_ascii c) ≡ lower_ascii c
unfolding lower_ascii
lower_ascii_twice c = ground arith

lower_ascii-eq : (c k : ℕ) → b'z' < k → (lower_ascii c == k) ≡ (c == k)
unfolding lower_ascii
lower_ascii-eq c k h = ground arith

to_lower-map : (s : Bytes) → to_lower (map lower_ascii s) ≡ to_lower s
unfolding to_lower
to_lower-map [] = refl
to_lower-map (a ∷ []) = ap (λ (x : ℕ). x ∷ []) (lower_ascii_twice a)
to_lower-map (a ∷ b ∷ []) =
    rw
      (
        lower_ascii-eq a 0xC4 (omega arith),
        lower_ascii-eq b 0xB0 (omega arith),
        lower_ascii_twice a,
        lower_ascii_twice b,
      )
      refl
to_lower-map (a ∷ b ∷ c ∷ s) =
    let a1 = lower_ascii-eq a 0xC4 (omega arith) in
    let b1 = lower_ascii-eq b 0xB0 (omega arith) in
    let a2 = lower_ascii-eq a 0xE2 (omega arith) in
    let b2 = lower_ascii-eq b 0x84 (omega arith) in
    let c2 = lower_ascii-eq c 0xAA (omega arith) in
    let aa = lower_ascii_twice a in
    ground (
      arith,
      a1,
      b1,
      a2,
      b2,
      c2,
      aa,
      to_lower-map s,
      to_lower-map (c ∷ s),
      to_lower-map (b ∷ c ∷ s),
    )

canonical_byte-lower : (u : Bool) (c : ℕ) → canonical_byte u (lower_ascii c) ≡ canonical_byte u c
unfolding canonical_byte lower_ascii
canonical_byte-lower u c = ground arith

lower-canonical_byte : (u : Bool) (c : ℕ) → lower_ascii (canonical_byte u c) ≡ lower_ascii c
unfolding canonical_byte lower_ascii
lower-canonical_byte u c = ground arith

canonical_byte_twice :
    (u : Bool) (c : ℕ) → canonical_byte u (canonical_byte u c) ≡ canonical_byte u c
unfolding canonical_byte
canonical_byte_twice u c = ground arith

canonicalize-map :
    (u : Bool) (s : Bytes) → canonicalize_from u (map lower_ascii s) ≡ canonicalize_from u s
unfolding canonicalize_from
canonicalize-map u [] = refl
canonicalize-map u (c ∷ s) =
    rw (canonical_byte-lower u c)
      (let c' = canonical_byte u c in ap (λ (r : Bytes). c' ∷ r) (canonicalize-map (c' == b'-') s))

map-canonicalize :
    (u : Bool) (s : Bytes) → map lower_ascii (canonicalize_from u s) ≡ map lower_ascii s
unfolding canonicalize_from
map-canonicalize u [] = refl
map-canonicalize u (c ∷ s) =
    rw (lower-canonical_byte u c)
      (ap (λ (r : Bytes). lower_ascii c ∷ r) (map-canonicalize (canonical_byte u c == b'-') s))

canonicalize_twice :
    (u : Bool) (s : Bytes) → canonicalize_from u (canonicalize_from u s) ≡ canonicalize_from u s
unfolding canonicalize_from
canonicalize_twice u [] = refl
canonicalize_twice u (c ∷ s) =
    rw (canonical_byte_twice u c) (
      let c' = canonical_byte u c in ap (λ (r : Bytes). c' ∷ r) (canonicalize_twice (c' == b'-') s))

-- Names that differ in the case of ASCII letters only.
abbrev pub SameFold : Bytes → Bytes → Type 0
SameFold k j = map lower_ascii k ≡ map lower_ascii j

to_lower-SameFold : (k j : Bytes) → SameFold k j → to_lower k ≡ to_lower j
to_lower-SameFold k j h = sym (to_lower-map k) ∙ ap to_lower h ∙ to_lower-map j

table_form-map : (o : Option Bytes) (k : Bytes) → table_form o (map lower_ascii k) ≡ table_form o k
unfolding table_form text_canonicalize
table_form-map none k = canonicalize-map true k
table_form-map (some v) k = refl

canonical_header_key-map :
    (k : Bytes) → canonical_header_key (map lower_ascii k) ≡ canonical_header_key k
unfolding canonical_header_key
canonical_header_key-map k =
    rw (canonical_header_key, to_lower-map k)
      (table_form-map (lookup (to_lower k) canonical_header_keys) k)

-- The values of the table are canonical themselves.
all_fixed : List (Bytes × Bytes) → Bool
all_fixed [] = true
all_fixed ((k, v) ∷ m) = canonical_header_key v =ᵇ v && all_fixed m

table-all_fixed : all_fixed canonical_header_keys ≡ true
unfolding all_fixed canonical_header_key table_form text_canonicalize canonicalize_from
    canonical_byte lookup ◌=ᵇ◌ to_lower lower_ascii
table-all_fixed = refl

lookup-fixed :
    (m : List (Bytes × Bytes)) (k v : Bytes)
    → all_fixed m ≡ true
    → lookup k m ≡ some v
    → canonical_header_key v ≡ v
unfolding all_fixed lookup
lookup-fixed [] k v h e = absurd (cc)
lookup-fixed ((j, w) ∷ m) k v h e =
    ground (arith, =ᵇ_iff (canonical_header_key w) w, lookup-fixed m k v)

canonical_header_key_twice :
    (k : Bytes) → canonical_header_key (canonical_header_key k) ≡ canonical_header_key k
canonical_header_key_twice k = elim (Option-cases (lookup (to_lower k) canonical_header_keys)) [
  | inl miss ↦
      let e : canonical_header_key k ≡ canonicalize_from true k =
        unfold canonical_header_key table_form text_canonicalize in
        rw (canonical_header_key, miss) refl in
      let low : to_lower (canonicalize_from true k) ≡ to_lower k =
        to_lower-SameFold (canonicalize_from true k) k (map-canonicalize true k) in
      rw e (
        unfold canonical_header_key table_form text_canonicalize in
        rw (canonical_header_key, low, miss) (canonicalize_twice true k))
  | inr (v, hit) ↦
      let e : canonical_header_key k ≡ v =
        unfold canonical_header_key table_form in rw (canonical_header_key, hit) refl in
      rw e (lookup-fixed canonical_header_keys (to_lower k) v table-all_fixed hit)
]

-- Two names that differ in case only have one canonical form, and it is its own canonical form.
pub canonical_header_key-fold :
    (k j : Bytes)
    → SameFold k j
    → (canonical_header_key k ≡ canonical_header_key j)
      × (canonical_header_key (canonical_header_key k) ≡ canonical_header_key k)
canonical_header_key-fold k j h = (
  sym (canonical_header_key-map k) ∙ ap canonical_header_key h ∙ canonical_header_key-map j,
  canonical_header_key_twice k,
)
