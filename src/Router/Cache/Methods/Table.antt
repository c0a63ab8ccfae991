-- ===== src/Router/Cache/Methods/Table.antt =====
-- internal/router/cache.go: the map of the cache, in which a key stands once.
use icapmock.Prelude.{
  ℕ, suc, ◌≡◌, refl, ◌∙◌, sym, ap, true, false, ◌||◌, none, some, List, [], ◌∷◌, ◌++◌, arith, ◌==◌,
  Bytes, ◌=ᵇ◌, =ᵇ_iff, length, inl, inr, Bool-cases, ==_iff,
}
use icapmock.Prelude.Maps.{lookup, insert, delete, lookup-insert, lookup-delete}
use icapmock.Router.Cache.Links.{elem}

abbrev pub IsUnique : List (Bytes × ℕ) → Type 0
IsUnique [] = Unit
IsUnique ((k, v) ∷ m) = (lookup k m ≡ none) × IsUnique m

pub IsUnique-insert :
    (k : Bytes) (v : ℕ) (m : List (Bytes × ℕ)) → IsUnique m → IsUnique (insert k v m)
unfolding insert lookup
IsUnique-insert k v [] u = (refl, tt)
IsUnique-insert k v ((j, w) ∷ m) u = elim (Bool-cases (j =ᵇ k)) [
  | inl e ↦ rw e (ap (λ (t : Bytes). lookup t m) (sym ((=ᵇ_iff j k).0 e)) ∙ u.0, u.1)
  | inr e ↦
      let other : (k =ᵇ j) ≡ false = ground (arith, e, =ᵇ_iff j k, =ᵇ_iff k j) in
      rw e (lookup-insert k j v m ∙ rw other u.0, IsUnique-insert k v m u.1)
]

pub IsUnique-delete : (k : Bytes) (m : List (Bytes × ℕ)) → IsUnique m → IsUnique (delete k m)
unfolding delete
IsUnique-delete k [] u = tt
IsUnique-delete k ((j, w) ∷ m) u = elim (Bool-cases (j =ᵇ k)) [
  | inl e ↦ rw e (IsUnique-delete k m u.1)
  | inr e ↦
      let other : (k =ᵇ j) ≡ false = ground (arith, e, =ᵇ_iff j k, =ᵇ_iff k j) in
      rw e (lookup-delete k j m ∙ rw other u.0, IsUnique-delete k m u.1)
]

pub length-insert_new :
    (k : Bytes) (v : ℕ) (m : List (Bytes × ℕ))
    → lookup k m ≡ none
    → length (insert k v m) ≡ suc (length m)
unfolding insert lookup
length-insert_new k v [] h = refl
length-insert_new k v ((j, w) ∷ m) h = elim (Bool-cases (j =ᵇ k)) [
  | inl e ↦ absurd (let f = rw e at h in cc)
  | inr e ↦ rw e (ap suc (length-insert_new k v m (rw e at h)))
]

pub delete_absent : (k : Bytes) (m : List (Bytes × ℕ)) → lookup k m ≡ none → delete k m ≡ m
unfolding delete lookup
delete_absent k [] h = refl
delete_absent k ((j, w) ∷ m) h = elim (Bool-cases (j =ᵇ k)) [
  | inl e ↦ absurd (let f = rw e at h in cc)
  | inr e ↦ rw e (ap (λ (t : List (Bytes × ℕ)). (j, w) ∷ t) (delete_absent k m (rw e at h)))
]

pub length-delete :
    (k : Bytes) (v : ℕ) (m : List (Bytes × ℕ))
    → IsUnique m
    → lookup k m ≡ some v
    → suc (length (delete k m)) ≡ length m
unfolding delete lookup
length-delete k v [] u h = absurd (cc)
length-delete k v ((j, w) ∷ m) u h = elim (Bool-cases (j =ᵇ k)) [
  | inl e ↦
      let gone = ap (λ (t : Bytes). lookup t m) (sym ((=ᵇ_iff j k).0 e)) ∙ u.0 in
      rw e (ap (λ (t : List (Bytes × ℕ)). suc (length t)) (delete_absent k m gone))
  | inr e ↦ rw e (ap suc (length-delete k v m u.1 (rw e at h)))
]

pub elem-middle : (x a : ℕ) (l r : List ℕ) → elem x (l ++ a ∷ r) ≡ (a == x || elem x (l ++ r))
elem-middle x a [] r = refl
elem-middle x a (b ∷ l) r = ground (arith, elem-middle x a l r)

pub length-middle : (a : ℕ) (l r : List ℕ) → length (l ++ a ∷ r) ≡ suc (length (l ++ r))
length-middle a [] r = refl
length-middle a (b ∷ l) r = ap suc (length-middle a l r)

-- Where an item stands in a list.
pub elem-split :
    (x : ℕ) (l : List ℕ) → elem x l ≡ true → (before behind : List ℕ) × (l ≡ before ++ x ∷ behind)
elem-split x [] h = absurd (cc)
elem-split x (y ∷ l) h = elim (Bool-cases (y == x)) [
  | inl e ↦ ([], l, ap (λ (t : ℕ). t ∷ l) ((==_iff y x).0 e))
  | inr e ↦
      let (before, behind, f) = elem-split x l (ground (arith, h, e)) in
      (y ∷ before, behind, ap (λ (t : List ℕ). y ∷ t) f)
]
