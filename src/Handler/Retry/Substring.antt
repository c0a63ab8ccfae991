-- ===== src/Handler/Retry/Substring.antt =====
-- internal/handler/retry.go: `contains` is the search for a substring.
use icapmock.Prelude.{
  take-length_self, ℕ, zero, suc, ◌+◌, ◌-◌, ◌<◌, ◌≡◌, ◌↔◌, refl, sym, ap, ◌∙◌, inl, inr, true, [],
  ◌∷◌, ◌++◌, arith, Bytes, length, length-append, take, drop, take-append-drop, append-nil,
  Bool-cases, ◌=ᵇ◌, =ᵇ_iff, =ᵇ_refl,
}
use icapmock.Handler.Retry.{find_from, find_substring, contains}

-- `substr` stands somewhere in `s`.
abbrev pub Occurs : Bytes → Bytes → Type 0
Occurs substr s = (before behind : Bytes) × (s ≡ before ++ (substr ++ behind))

Occurs-drop : (s substr : Bytes) → Occurs substr (drop 1 s) → Occurs substr s
Occurs-drop [] substr o = o
Occurs-drop (c ∷ s) substr (before, behind, e) = (c ∷ before, behind, ap (λ (r : Bytes). c ∷ r) e)

find_from-Occurs :
    (rounds : ℕ) (s substr : Bytes) → find_from rounds s substr ≡ true → Occurs substr s
unfolding find_from
find_from-Occurs zero s substr h = absurd (cc)
find_from-Occurs (suc rounds) s substr h = elim (Bool-cases (take (length substr) s =ᵇ substr)) [
  | inl here ↦
      let e : take (length substr) s ≡ substr = (=ᵇ_iff (take (length substr) s) substr).0 here in
      (
        [],
        drop (length substr) s,
        sym (take-append-drop (length substr) s)
            ∙ ap (λ (r : Bytes). r ++ drop (length substr) s) e,
      )
  | inr later ↦ Occurs-drop s substr (find_from-Occurs rounds (drop 1 s) substr (rw later at h))
]

find_from_complete :
    (rounds : ℕ) (before substr behind : Bytes)
    → length before < rounds
    → find_from rounds (before ++ (substr ++ behind)) substr ≡ true
unfolding find_from
find_from_complete zero before substr behind h = absurd (omega arith)
find_from_complete (suc rounds) [] substr behind h =
    rw (take-length_self substr behind, =ᵇ_refl substr) refl
find_from_complete (suc rounds) (c ∷ before) substr behind h =
    let ih = find_from_complete rounds before substr behind (omega arith) in ground (arith, ih)

contains-longer :
    (before substr behind : Bytes)
    → 0 < length before + length behind
    → contains (before ++ (substr ++ behind)) substr ≡ true
unfolding contains find_substring
contains-longer before substr behind h =
    let s = before ++ (substr ++ behind) in
    let total = length-append before (substr ++ behind) in
    let inner = length-append substr behind in
    let found =
      find_from_complete (length s + 1 - length substr) before substr behind
        (omega (arith, total, inner)) in
    ground (arith, total, inner, found)

contains_self : (s : Bytes) → contains s s ≡ true
unfolding contains
contains_self s = ground (arith, =ᵇ_refl s)

contains_complete :
    (before substr behind : Bytes) → contains (before ++ (substr ++ behind)) substr ≡ true
contains_complete [] substr [] = rw (append-nil substr) (contains_self substr)
contains_complete [] substr (c ∷ behind) = contains-longer [] substr (c ∷ behind) (omega arith)
contains_complete (c ∷ before) substr behind =
    contains-longer (c ∷ before) substr behind (omega arith)

-- `contains` finds exactly the texts that stand somewhere in the message, the empty one included.
contains_iff : (s substr : Bytes) → (contains s substr ≡ true) ↔ Occurs substr s
unfolding contains find_substring
contains_iff s substr = (
  λ h. elim (Bool-cases (s =ᵇ substr)) [
    | inl e ↦ ([], [], (=ᵇ_iff s substr).0 e ∙ sym (append-nil substr))
    | inr ne ↦ find_from-Occurs (length s + 1 - length substr) s substr (ground (arith, ne))
  ],
  λ o. rw (o.2) (contains_complete o.0 substr o.1),
)
