-- ===== src/Icap/Header/Laws.antt =====
-- pkg/icap/header.go: what the methods do to the values of every name, and the text of a header,
-- which does not depend on the order of the map.
use icapmock.Prelude.{
  ◌≡◌, refl, ap, Bool, true, false, some, List, [], ◌∷◌, ◌++◌, arith, if◌then◌else◌, Bytes, ◌=ᵇ◌,
  =ᵇ_iff,
}
use mathlib.Core.List.{Perm}
use mathlib.Core.List.Perm.{foldr-eq}
use icapmock.Prelude.Maps.{lookup, keys, lookup-insert, lookup-delete}
use icapmock.Icap.Header.{
  Header, canonical_header_key, stored, values, get, set, add, del, bytes_leb, insert_sorted,
  sort_strings, sorted_keys, entries_at, write_lines, write_to_buffer,
}

abbrev pub same_name : Bytes → Bytes → Bool
same_name k j = canonical_header_key k =ᵇ canonical_header_key j

-- After each method, the values of a name `j` that is, or is not, the name `k` in another case.
pub values-updates :
    (k j v : Bytes) (h : Header)
    → (values (set k v h) j ≡ (if same_name k j then v ∷ [] else values h j))
      × (values (add k v h) j ≡ (if same_name k j then values h j ++ v ∷ [] else values h j))
      × (values (del k h) j ≡ (if same_name k j then [] else values h j))
      × (get (set k v h) j ≡ (if same_name k j then some v else get h j))
unfolding values set add del get
values-updates k j v h =
    let a = canonical_header_key k in
    let b = canonical_header_key j in
    let same = =ᵇ_iff a b in
    let e1 = lookup-insert a b (v ∷ []) h in
    let e2 = lookup-insert a b (stored (lookup a h) ++ v ∷ []) h in
    let e3 = lookup-delete a b h in
    (ground (arith, e1), ground (arith, e2, same), ground (arith, e3), ground (arith, e1))

pub bytes_leb_total : (s t : Bytes) → bytes_leb s t ≡ false → bytes_leb t s ≡ true
unfolding bytes_leb
bytes_leb_total [] t h = absurd (cc)
bytes_leb_total (c ∷ s) [] h = refl
bytes_leb_total (c ∷ s) (d ∷ t) h = ground (arith, bytes_leb_total s t)

pub bytes_leb_antisym : (s t : Bytes) → bytes_leb s t ≡ true → bytes_leb t s ≡ true → s ≡ t
unfolding bytes_leb
bytes_leb_antisym [] [] h k = refl
bytes_leb_antisym [] (d ∷ t) h k = absurd (cc)
bytes_leb_antisym (c ∷ s) [] h k = absurd (cc)
bytes_leb_antisym (c ∷ s) (d ∷ t) h k = ground (arith, bytes_leb_antisym s t)

pub bytes_leb_trans :
    (s t u : Bytes) → bytes_leb s t ≡ true → bytes_leb t u ≡ true → bytes_leb s u ≡ true
unfolding bytes_leb
bytes_leb_trans [] t u h k = refl
bytes_leb_trans (c ∷ s) [] u h k = absurd (cc)
bytes_leb_trans (c ∷ s) (d ∷ t) [] h k = absurd (cc)
bytes_leb_trans (c ∷ s) (d ∷ t) (e ∷ u) h k = ground (arith, bytes_leb_trans s t u)

insert_sorted_comm :
    (a b : Bytes) (l : List Bytes)
    → insert_sorted a (insert_sorted b l) ≡ insert_sorted b (insert_sorted a l)
unfolding insert_sorted
insert_sorted_comm a b [] = ground (arith, bytes_leb_total a b, bytes_leb_antisym a b)
insert_sorted_comm a b (c ∷ l) = ground (
  arith,
  insert_sorted_comm a b l,
  bytes_leb_total a b,
  bytes_leb_antisym a b,
  bytes_leb_trans a b c,
  bytes_leb_trans b a c,
  bytes_leb_total a c,
  bytes_leb_total b c,
)

sort_strings-Perm : {l m : List Bytes} → Perm l m → sort_strings l ≡ sort_strings m
unfolding sort_strings
sort_strings-Perm p = foldr-eq (hlevel) insert_sorted insert_sorted_comm p []

entries_at-agree :
    (h g : Header) (ks : List Bytes)
    → ((k : Bytes) → lookup k h ≡ lookup k g)
    → entries_at h ks ≡ entries_at g ks
unfolding entries_at
entries_at-agree h g [] e = refl
entries_at-agree h g (k ∷ ks) e = rw (e k, entries_at-agree h g ks e) refl

-- The text of a header depends on the names and their values alone: two maps that hold the same
-- values under the same names, in any order, are written alike.
pub write_to_buffer-Perm :
    (h g : Header)
    → Perm (keys h) (keys g)
    → ((k : Bytes) → lookup k h ≡ lookup k g)
    → write_to_buffer h ≡ write_to_buffer g
unfolding write_to_buffer sorted_keys
write_to_buffer-Perm h g p e =
    rw (sort_strings-Perm p) (ap write_lines (entries_at-agree h g (sorted_keys g) e))
