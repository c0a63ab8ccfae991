-- ===== src/Storage/HeaderRules/Order.antt =====
-- internal/storage/scenario.go, `headerRulesMatch`: the order in which the maps are ranged over.
use mathlib.Core.List.{Perm}
use mathlib.Core.List.Perm.{foldr-eq}
use icapmock.Prelude.{
  ◌≡◌, refl, ap, ◌∙◌, Bool, true, ◌&&◌, List, [], ◌∷◌, arith, Bytes, foldr, sym, Option,
}
use icapmock.Prelude.Maps.{lookup}
use icapmock.Storage.HeaderRules.{
  Library, Regexp, HeaderListMatcher, has_value, exact_rules_match, list_rules_match,
  header_rules_match, value_test, list_matches,
}

abbrev exact_rule : List (Bytes × Regexp) → (Bytes → Option Bytes) → Bytes × Bytes → Bool → Bool
exact_rule regexps look (key, value) b =
    has_value (look key) (value_test (lookup key regexps) value) && b

abbrev list_rule : Library → (Bytes → Option Bytes) → Bytes × HeaderListMatcher → Bool → Bool
list_rule lib look (key, m) b = has_value (look key) (list_matches lib m) && b

exact_rules_match-foldr :
    (l : List (Bytes × Bytes)) (regexps : List (Bytes × Regexp)) (look : Bytes → Option Bytes)
    → exact_rules_match l regexps look ≡ foldr (exact_rule regexps look) true l
unfolding exact_rules_match
exact_rules_match-foldr [] regexps look = refl
exact_rules_match-foldr ((key, value) ∷ l) regexps look =
    ap (exact_rule regexps look (key, value)) (exact_rules_match-foldr l regexps look)

list_rules_match-foldr :
    (lib : Library) (l : List (Bytes × HeaderListMatcher)) (look : Bytes → Option Bytes)
    → list_rules_match lib l look ≡ foldr (list_rule lib look) true l
unfolding list_rules_match
list_rules_match-foldr lib [] look = refl
list_rules_match-foldr lib ((key, m) ∷ l) look =
    ap (list_rule lib look (key, m)) (list_rules_match-foldr lib l look)

and_swap : (a b c : Bool) → (a && (b && c)) ≡ (b && (a && c))
and_swap a b c = ground arith

-- The verdict on the header rules is the same for two scenarios whose exact rules and whose list
-- rules are the same up to order, whatever the order in which the maps are ranged over.
header_rules_match-Perm :
    (lib : Library) (exact exact' : List (Bytes × Bytes)) (regexps : List (Bytes × Regexp))
    (lists lists' : List (Bytes × HeaderListMatcher)) (look : Bytes → Option Bytes)
    → Perm exact exact'
    → Perm lists lists'
    → header_rules_match lib exact regexps lists look
      ≡ header_rules_match lib exact' regexps lists' look
unfolding header_rules_match
header_rules_match-Perm lib exact exact' regexps lists lists' look p q =
    let e =
      exact_rules_match-foldr exact regexps look
      ∙ foldr-eq (hlevel) (exact_rule regexps look) (λ a b c. and_swap _ _ c) p true
      ∙ sym (exact_rules_match-foldr exact' regexps look) in
    let e' =
      list_rules_match-foldr lib lists look
      ∙ foldr-eq (hlevel) (list_rule lib look) (λ a b c. and_swap _ _ c) q true
      ∙ sym (list_rules_match-foldr lib lists' look) in
    rw (e, e')
