-- ===== src/Storage/Topology/Sets.antt =====
-- internal/storage/scenario.go: two sorted lists of endpoints are the same exactly when the sets are.
use icapmock.Prelude.{
  ◌≡◌, refl, ◌∙◌, ap, subst, Bool, true, false, ◌||◌, List, [], ◌∷◌, arith, inl, inr, Bytes, ◌=ᵇ◌,
  =ᵇ_iff, =ᵇ_refl, All, Bool-cases,
}
use icapmock.Icap.Header.Laws.{bytes_leb_total, bytes_leb_trans}
use icapmock.Icap.Header.{sort_strings, insert_sorted, bytes_leb}
use icapmock.Storage.HeaderRules.{member}
use icapmock.Storage.ShardKeys.{unseen}

member_same : (x y : Bytes) (l : List Bytes) → (x =ᵇ y) ≡ true → member x l ≡ member y l
member_same x y l h = ap (λ (t : Bytes). member t l) ((=ᵇ_iff x y).0 h)

pub member-unseen :
    (x : Bytes) (seen l : List Bytes)
    → (member x (unseen seen l) || member x seen) ≡ (member x l || member x seen)
unfolding member unseen
member-unseen x seen [] = refl
member-unseen x seen (k ∷ ks) =
    let seen_already = member-unseen x seen ks in
    let seen_now = member-unseen x (k ∷ seen) ks in
    ground (arith, seen_already, seen_now, member_same k x seen)

member-insert_sorted :
    (x k : Bytes) (l : List Bytes) → member x (insert_sorted k l) ≡ (k =ᵇ x || member x l)
unfolding member insert_sorted
member-insert_sorted x k [] = refl
member-insert_sorted x k (j ∷ js) = ground (arith, member-insert_sorted x k js)

pub member-sort_strings : (x : Bytes) (l : List Bytes) → member x (sort_strings l) ≡ member x l
unfolding member sort_strings
member-sort_strings x [] = refl
member-sort_strings x (k ∷ l) =
    member-insert_sorted x k (sort_strings l)
    ∙ ap (λ (b : Bool). k =ᵇ x || b) (member-sort_strings x l)

abbrev pub IsBefore : Bytes → Bytes → Type 0
IsBefore s t = (bytes_leb s t ≡ true) × ((s =ᵇ t) ≡ false)

abbrev pub IsAscending : List Bytes → Type 0
IsAscending [] = Unit
IsAscending (s ∷ l) = All (IsBefore s) l × IsAscending l

abbrev pub IsDistinctTexts : List Bytes → Type 0
IsDistinctTexts [] = Unit
IsDistinctTexts (s ∷ l) = (member s l ≡ false) × IsDistinctTexts l

pub member_self : (x : Bytes) (l : List Bytes) → member x (x ∷ l) ≡ true
unfolding member
member_self x l = rw (=ᵇ_refl x) refl

unseen_lacks :
    (x : Bytes) (seen l : List Bytes) → member x seen ≡ true → member x (unseen seen l) ≡ false
unfolding member unseen
unseen_lacks x seen [] h = refl
unseen_lacks x seen (k ∷ ks) h =
    let old = unseen_lacks x seen ks h in
    let now = unseen_lacks x (k ∷ seen) ks (ground (arith, h)) in
    ground (arith, old, now, member_same k x seen, h)

pub unseen-IsDistinctTexts : (seen l : List Bytes) → IsDistinctTexts (unseen seen l)
unfolding unseen
unseen-IsDistinctTexts seen [] = tt
unseen-IsDistinctTexts seen (k ∷ ks) = elim (Bool-cases (member k seen)) [
  | inl e ↦ rw e (unseen-IsDistinctTexts seen ks)
  | inr e ↦
      rw e (unseen_lacks k (k ∷ seen) ks (member_self k seen), unseen-IsDistinctTexts (k ∷ seen) ks)
]

pub All-member :
    (P : Bytes → Type 0) (x : Bytes) (l : List Bytes) → All P l → member x l ≡ true → P x
unfolding member
All-member P x [] a h = absurd (cc)
All-member P x (y ∷ l) a h = elim (Bool-cases (y =ᵇ x)) [
  | inl e ↦ subst P ((=ᵇ_iff y x).0 e) a.0
  | inr e ↦ All-member P x l a.1 (ground (arith, h, e))
]

All-insert_sorted :
    (P : Bytes → Type 0) (k : Bytes) (l : List Bytes) → P k → All P l → All P (insert_sorted k l)
unfolding insert_sorted
All-insert_sorted P k [] h a = (h, tt)
All-insert_sorted P k (j ∷ js) h a = elim (Bool-cases (bytes_leb k j)) [
  | inl e ↦ rw e (h, a)
  | inr e ↦ rw e (a.0, All-insert_sorted P k js h a.1)
]

IsBefore-All :
    (k j : Bytes) (l : List Bytes)
    → bytes_leb k j ≡ true
    → member k l ≡ false
    → All (IsBefore j) l
    → All (IsBefore k) l
unfolding member
IsBefore-All k j [] h out a = tt
IsBefore-All k j (t ∷ l) h out a = (
  (bytes_leb_trans k j t h a.0.0, ground (arith, out, =ᵇ_iff k t, =ᵇ_iff t k)),
  IsBefore-All k j l h (ground (arith, out)) a.1,
)

insert_sorted-IsAscending :
    (k : Bytes) (l : List Bytes)
    → member k l ≡ false
    → IsAscending l
    → IsAscending (insert_sorted k l)
unfolding insert_sorted member
insert_sorted-IsAscending k [] out a = (tt, tt)
insert_sorted-IsAscending k (j ∷ js) out a =
    let ne : (j =ᵇ k) ≡ false = ground (arith, out) in
    let rest : member k js ≡ false = ground (arith, out) in
    let apart : (k =ᵇ j) ≡ false = ground (arith, ne, =ᵇ_iff k j, =ᵇ_iff j k) in
    elim (Bool-cases (bytes_leb k j)) [
      | inl e ↦ rw e (((e, apart), IsBefore-All k j js e rest a.0), a)
      | inr e ↦ rw e (
        All-insert_sorted (IsBefore j) k js (bytes_leb_total k j e, ne) a.0,
        insert_sorted-IsAscending k js rest a.1,
      )
    ]

pub sort_strings-IsAscending : (l : List Bytes) → IsDistinctTexts l → IsAscending (sort_strings l)
unfolding sort_strings
sort_strings-IsAscending [] d = tt
sort_strings-IsAscending (k ∷ l) d =
    insert_sorted-IsAscending k (sort_strings l) (member-sort_strings k l ∙ d.0)
      (sort_strings-IsAscending l d.1)
