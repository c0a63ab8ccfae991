-- ===== src/Storage/Sharded/Filing.antt =====
-- internal/storage/sharded_scenario.go: under which keys of which shards a scenario is filed.
pub mod Unique
pub mod Loaded
pub mod Reached
pub mod Searchable
use icapmock.Prelude.{
  ℕ, zero, suc, ◌<◌, ◌≡◌, ◌≢◌, refl, ◌∙◌, sym, ap, subst, Bool, true, false, ◌&&◌, ◌||◌, Option,
  none, some, List, [], ◌∷◌, ◌++◌, arith, ◌==◌, ==_iff, if◌then◌else◌, Bytes, ◌=ᵇ◌, =ᵇ_iff, length,
  inl, inr, Bool-cases, All, All-append,
}
use native.Mathlib.Decide.{ℕ_discrete}
use icapmock.Prelude.Maps.{lookup, insert, lookup-insert}
use icapmock.Storage.HeaderRules.{member}
use icapmock.Storage.Scenarios.{Scenario}
use icapmock.Storage.Sharded.{
  Shard, candidates_at, add_keys, add_to_shard, at_shard, add_entries, shard_scenarios,
}
use icapmock.Storage.Sharded.Search.{shard_at, indexed}
use icapmock.Storage.Sharded.Search.Choice.{Among, Among-append_left, Among-append_right}

-- What stands under a key.
abbrev pub filed_at : Bytes → List (Bytes × List Scenario) → List Scenario
filed_at k index = candidates_at (lookup k index)

filed_at-insert :
    (j k : Bytes) (l : List Scenario) (index : List (Bytes × List Scenario))
    → filed_at k (insert j l index) ≡ (if j =ᵇ k then l else filed_at k index)
filed_at-insert j k l index = elim (Bool-cases (j =ᵇ k)) [
  | inl e ↦ rw (lookup-insert j k l index, e) refl
  | inr e ↦ rw (lookup-insert j k l index, e) refl
]

add_key-keeps :
    (j k : Bytes) (s t : Scenario) (index : List (Bytes × List Scenario))
    → Among t (filed_at k index)
    → Among t (filed_at k (insert j (filed_at j index ++ s ∷ []) index))
add_key-keeps j k s t index h = elim (Bool-cases (j =ᵇ k)) [
  | inl e ↦
      let same : j ≡ k = (=ᵇ_iff j k).0 e in
      rw (filed_at-insert j k (filed_at j index ++ s ∷ []) index, e)
        (Among-append_left t (filed_at j index) (s ∷ [])
          (subst (λ (x : Bytes). Among t (filed_at x index)) (sym same) h))
  | inr e ↦ rw (filed_at-insert j k (filed_at j index ++ s ∷ []) index, e) h
]

add_key-adds :
    (k : Bytes) (s : Scenario) (index : List (Bytes × List Scenario))
    → Among s (filed_at k (insert k (filed_at k index ++ s ∷ []) index))
add_key-adds k s index =
    rw (filed_at-insert k k (filed_at k index ++ s ∷ []) index, (=ᵇ_iff k k).1 refl)
      (Among-append_right s (filed_at k index) (s ∷ []) (inl refl))

add_keys-keeps :
    (keys : List Bytes) (k : Bytes) (s t : Scenario) (index : List (Bytes × List Scenario))
    → Among t (filed_at k index)
    → Among t (filed_at k (add_keys keys s index))
unfolding add_keys
add_keys-keeps [] k s t index h = h
add_keys-keeps (j ∷ keys) k s t index h =
    add_keys-keeps keys k s t (insert j (filed_at j index ++ s ∷ []) index)
      (add_key-keeps j k s t index h)

add_keys-adds :
    (keys : List Bytes) (k : Bytes) (s : Scenario) (index : List (Bytes × List Scenario))
    → member k keys ≡ true
    → Among s (filed_at k (add_keys keys s index))
unfolding add_keys member
add_keys-adds [] k s index h = absurd (cc)
add_keys-adds (j ∷ keys) k s index h =
    let index' = insert j (filed_at j index ++ s ∷ []) index in
    elim (Bool-cases (j =ᵇ k)) [
      | inl e ↦
          let same : j ≡ k = (=ᵇ_iff j k).0 e in
          add_keys-keeps keys k s s index'
            (subst (λ (x : Bytes). Among s (filed_at x index')) same (add_key-adds j s index))
      | inr e ↦ add_keys-adds keys k s index' (ground (arith, h, e))
    ]

-- What holds of all that was filed, and of the scenario, holds of all that is filed afterwards.
pub add_keys-All :
    (P : Scenario → Type 0) (keys : List Bytes) (s : Scenario)
    (index : List (Bytes × List Scenario))
    → P s
    → ((k : Bytes) → All P (filed_at k index))
    → ((k : Bytes) → All P (filed_at k (add_keys keys s index)))
unfolding add_keys
add_keys-All P [] s index p a k = a k
add_keys-All P (j ∷ keys) s index p a k =
    let l = filed_at j index ++ s ∷ [] in
    add_keys-All P keys s (insert j l index) p
      (λ k'. elim (Bool-cases (j =ᵇ k')) [
        | inl e ↦
            rw (filed_at-insert j k' l index, e)
              (All-append P (filed_at j index) (s ∷ []) (a j) (p, tt))
        | inr e ↦ rw (filed_at-insert j k' l index, e) (a k')
      ])
      k

pub shard_at-same :
    (i : ℕ) (f : Shard → Shard) (shards : List Shard)
    → i < length shards
    → shard_at i (at_shard i f shards) ≡ f (shard_at i shards)
unfolding shard_at at_shard
shard_at-same i f [] h = absurd (omega arith)
shard_at-same zero f (s ∷ shards) h = refl
shard_at-same (suc i) f (s ∷ shards) h = shard_at-same i f shards (omega arith)

pub shard_at-other :
    (i j : ℕ) (f : Shard → Shard) (shards : List Shard)
    → i ≢ j
    → shard_at i (at_shard j f shards) ≡ shard_at i shards
unfolding shard_at at_shard
shard_at-other i j f [] ne = refl
shard_at-other zero zero f (s ∷ shards) ne = absurd (ne refl)
shard_at-other zero (suc j) f (s ∷ shards) ne = refl
shard_at-other (suc i) zero f (s ∷ shards) ne = refl
shard_at-other (suc i) (suc j) f (s ∷ shards) ne = shard_at-other i j f shards (λ e. ne (ap suc e))

pub length-at_shard :
    (j : ℕ) (f : Shard → Shard) (shards : List Shard) → length (at_shard j f shards) ≡ length shards
unfolding at_shard
length-at_shard j f [] = refl
length-at_shard zero f (s ∷ shards) = refl
length-at_shard (suc j) f (s ∷ shards) = ap suc (length-at_shard j f shards)

-- The scenario is filed under the key in the shard.
abbrev pub Filed : ℕ → Bytes → Scenario → List Shard → Type 0
Filed i k t shards = Among t (filed_at k (shard_at i shards).index)

at_shard-keeps :
    (i j : ℕ) (keys : List Bytes) (k : Bytes) (s t : Scenario) (shards : List Shard)
    → i < length shards
    → Filed i k t shards
    → Filed i k t (at_shard j (add_to_shard s keys) shards)
unfolding add_to_shard
at_shard-keeps i j keys k s t shards low h = elim (ℕ_discrete i j) [
  | yes e ↦
      subst (λ (x : ℕ). Filed i k t (at_shard x (add_to_shard s keys) shards)) e
        (subst (λ (x : Shard). Among t (filed_at k x.index))
          (sym (shard_at-same i (add_to_shard s keys) shards low))
          (add_keys-keeps keys k s t (shard_at i shards).index h))
  | no ne ↦
      subst (λ (x : Shard). Among t (filed_at k x.index))
        (sym (shard_at-other i j (add_to_shard s keys) shards ne)) h
]

pub add_entries-keeps :
    (entries : List (ℕ × List Bytes)) (i : ℕ) (k : Bytes) (s t : Scenario) (shards : List Shard)
    → i < length shards
    → Filed i k t shards
    → Filed i k t (add_entries s entries shards)
unfolding add_entries
add_entries-keeps [] i k s t shards low h = h
add_entries-keeps ((j, keys) ∷ entries) i k s t shards low h =
    add_entries-keeps entries i k s t (at_shard j (add_to_shard s keys) shards)
      (let e = length-at_shard j (add_to_shard s keys) shards in omega (arith, e, low))
      (at_shard-keeps i j keys k s t shards low h)

-- Some key is in both lists.
abbrev pub shares : List Bytes → List Bytes → Bool
shares [] search = false
shares (k ∷ keys) search = member k search || shares keys search

-- One of the entries files under a key that is searched, in the shard that is searched.
abbrev pub reaches : ℕ → List Bytes → List (ℕ × List Bytes) → Bool
reaches i search [] = false
reaches i search ((j, keys) ∷ entries) = (j == i && shares keys search) || reaches i search entries

shared_key :
    (keys search : List Bytes)
    → shares keys search ≡ true
    → (k : Bytes) × (member k keys ≡ true) × (member k search ≡ true)
unfolding member
shared_key [] search h = absurd (cc)
shared_key (k ∷ keys) search h = elim (Bool-cases (member k search)) [
  | inl e ↦ (k, ground (arith, =ᵇ_iff k k), e)
  | inr e ↦
      let (j, m, n) = shared_key keys search (ground (arith, h, e)) in (j, ground (arith, m), n)
]

pub add_entries-Filed :
    (entries : List (ℕ × List Bytes)) (i : ℕ) (search : List Bytes) (s : Scenario)
    (shards : List Shard)
    → i < length shards
    → reaches i search entries ≡ true
    → (k : Bytes) × (member k search ≡ true) × Filed i k s (add_entries s entries shards)
unfolding add_entries
add_entries-Filed [] i search s shards low h = absurd (cc)
add_entries-Filed ((j, keys) ∷ entries) i search s shards low h =
    let size = length-at_shard j (add_to_shard s keys) shards in
    elim (Bool-cases (j == i && shares keys search)) [
      | inl e ↦
          let same : j ≡ i = ground (arith, e, ==_iff j i) in
          let (k, m, n) = shared_key keys search (ground (arith, e)) in
          (
            k,
            n,
            add_entries-keeps entries i k s s (at_shard j (add_to_shard s keys) shards)
                (omega (arith, size, low))
                (subst (λ (x : ℕ). Filed i k s (at_shard x (add_to_shard s keys) shards)) (sym same)
                  (subst (λ (x : Shard). Among s (filed_at k x.index))
                    (sym (shard_at-same i (add_to_shard s keys) shards low))
                    (unfold add_to_shard in add_keys-adds keys k s (shard_at i shards).index m))),
          )
      | inr e ↦
          add_entries-Filed entries i search s (at_shard j (add_to_shard s keys) shards)
            (omega (arith, size, low)) (ground (arith, h, e))
    ]

pub indexed-Among :
    (keys : List Bytes) (k : Bytes) (t : Scenario) (index : List (Bytes × List Scenario))
    → member k keys ≡ true
    → Among t (filed_at k index)
    → Among t (indexed keys index)
unfolding indexed member
indexed-Among [] k t index m h = absurd (cc)
indexed-Among (j ∷ keys) k t index m h = elim (Bool-cases (j =ᵇ k)) [
  | inl e ↦
      let same : j ≡ k = (=ᵇ_iff j k).0 e in
      Among-append_left t (filed_at j index) (indexed keys index)
        (subst (λ (x : Bytes). Among t (filed_at x index)) (sym same) h)
  | inr e ↦
      Among-append_right t (filed_at j index) (indexed keys index)
        (indexed-Among keys k t index (ground (arith, m, e)) h)
]

pub indexed-All :
    (P : Scenario → Type 0) (keys : List Bytes) (index : List (Bytes × List Scenario))
    → ((k : Bytes) → All P (filed_at k index))
    → All P (indexed keys index)
unfolding indexed
indexed-All P [] index a = tt
indexed-All P (j ∷ keys) index a =
    All-append P (filed_at j index) (indexed keys index) (a j) (indexed-All P keys index a)
