-- ===== src/Tests/Header.antt =====
-- Tests of pkg/icap/header.go, and its theorems on headers of two names.
use icapmock.Prelude.{
  ◌≡◌, refl, true, some, [], ◌∷◌, ◌++◌, arith, Bytes, codes, ◌=ᵇ◌, =ᵇ_iff, lower_ascii,
}
use mathlib.Core.List.{Perm}
use mathlib.Core.List.Perm.{swap}
use icapmock.Prelude.Maps.{lookup, insert, delete, keys}
use icapmock.Icap.Header.{
  Header, to_lower, canonical_byte, canonicalize_from, text_canonicalize, table_form,
  canonical_header_key, values, get, set, add, del, has, set_all, bytes_leb, insert_sorted,
  sort_strings, sorted_keys, entries_of, entries_at, header_line, write_lines, write_to_buffer,
  to_map,
}
use icapmock.Icap.Header.Canonical.{SameFold, canonical_header_key-fold}
use icapmock.Icap.Header.Laws.{write_to_buffer-Perm}

program : Unit {0}
unfolding ◌=ᵇ◌ lower_ascii lookup insert delete keys to_lower canonical_byte canonicalize_from
    text_canonicalize table_form canonical_header_key values get set add del has set_all bytes_leb
    insert_sorted sort_strings sorted_keys entries_of entries_at header_line write_lines
    write_to_buffer to_map
program = tt

canonical_names :
    (canonical_header_key (codes "x-client-ip") ≡ codes "X-Client-IP")
    × (canonical_header_key (codes "x-CUSTOM-header") ≡ codes "X-Custom-Header")
    × (canonical_header_key (codes "Prev" ++ 0xC4 ∷ 0xB0 ∷ codes "ew") ≡ codes "Preview")
unfolding program
canonical_names = (refl, refl, refl)

abbrev one_host : Header
one_host = (codes "Host", codes "a" ∷ []) ∷ []

abbrev host_first : Header
host_first = (codes "Host", codes "a" ∷ []) ∷ (codes "Allow", codes "204" ∷ []) ∷ []

abbrev allow_first : Header
allow_first = (codes "Allow", codes "204" ∷ []) ∷ (codes "Host", codes "a" ∷ []) ∷ []

written_headers :
    (write_to_buffer host_first ≡ codes "Allow: 204\r\nHost: a\r\n")
    × (write_to_buffer (add (codes "HOST") (codes "b") one_host) ≡ codes "Host: a\r\nHost: b\r\n")
    × (has one_host (codes "host") ≡ true)
    × (get (set_all ((codes "te", codes "x") ∷ []) one_host) (codes "TE") ≡ some (codes "x"))
    × (to_map host_first ≡ (codes "Host", codes "a") ∷ (codes "Allow", codes "204") ∷ [])
unfolding program
written_headers = (refl, refl, refl, refl, refl)

same_fold : SameFold (codes "preview") (codes "PREVIEW")
unfolding program
same_fold = refl

canonical_header_key-fold_example :
    (canonical_header_key (codes "preview") ≡ canonical_header_key (codes "PREVIEW"))
    × (canonical_header_key (canonical_header_key (codes "preview"))
        ≡ canonical_header_key (codes "preview"))
canonical_header_key-fold_example =
    canonical_header_key-fold (codes "preview") (codes "PREVIEW") same_fold

abbrev host : Bytes
host = codes "host"

abbrev upper_host : Bytes
upper_host = codes "HOST"

abbrev b_text : Bytes
b_text = codes "b"

same_keys : Perm (keys host_first) (keys allow_first)
unfolding program
same_keys = swap _ _ _

same_values : (k : Bytes) → lookup k host_first ≡ lookup k allow_first
unfolding lookup
same_values k = ground (arith, =ᵇ_iff (codes "Host") k, =ᵇ_iff (codes "Allow") k)

write_to_buffer-Perm_example : write_to_buffer host_first ≡ write_to_buffer allow_first
write_to_buffer-Perm_example = write_to_buffer-Perm host_first allow_first same_keys same_values
