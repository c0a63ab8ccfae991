-- ===== src/Storage/HeaderRules.antt =====
-- internal/storage/scenario.go: the header rules of a scenario. The Unicode tables of `strings` and
-- the parsers of `mime` and `net` are parameters; a compiled regular expression is the test that it
-- makes. A Go map is the list of its entries, in the order in which it is ranged over.
pub mod Order
use icapmock.Prelude.{
  Bool, true, false, not, ◌&&◌, ◌||◌, Option, none, some, List, [], ◌∷◌, if◌then◌else◌, Bytes,
  codes, ◌=ᵇ◌, split_byte, trim_space, is_nil,
}
use icapmock.Prelude.Maps.{lookup}
use icapmock.Handler.Retry.{contains}

-- `none` is an error, or a nil address.
pub record Library : Type 0 where
  pub to_lower : Bytes → Bytes
  pub equal_fold : Bytes → Bytes → Bool
  pub parse_media_type : Bytes → Option (Bytes × List (Bytes × Bytes))
  pub parse_ip : Bytes → Option Bytes

abbrev pub Regexp : Type 0
Regexp = Bytes → Bool

pub record ContentTypeMatcher : Type 0 where
  pub media_type : Bytes
  pub parameters : List (Bytes × Bytes)

pub record HeaderListMatcher : Type 0 where
  pub media_types : List Bytes
  pub parameterized : List ContentTypeMatcher
  pub contained : List Bytes
  pub is_content_type : Bool

abbrev pub has_value : Option Bytes → (Bytes → Bool) → Bool
has_value none test = false
has_value (some v) test = test v

abbrev parameter_test : Library → Bytes → Bytes → Bytes → Bool
parameter_test lib key expected actual =
    if key =ᵇ codes "charset" then lib.equal_fold actual expected else actual =ᵇ expected

unfoldable pub content_type_parameters_match :
    Library → List (Bytes × Bytes) → List (Bytes × Bytes) → Bool
content_type_parameters_match lib actual [] = true
content_type_parameters_match lib actual ((key, expected) ∷ rest) =
    has_value (lookup key actual) (parameter_test lib key expected)
    && content_type_parameters_match lib actual rest

-- Membership in a set of strings.
unfoldable pub member : Bytes → List Bytes → Bool
member s [] = false
member s (t ∷ ts) = t =ᵇ s || member s ts

unfoldable pub any_parameterized :
    Library → Bytes → List (Bytes × Bytes) → List ContentTypeMatcher → Bool
any_parameterized lib media_type parameters [] = false
any_parameterized lib media_type parameters (m ∷ ms) =
    media_type =ᵇ m.media_type && content_type_parameters_match lib parameters m.parameters
    || any_parameterized lib media_type parameters ms

unfoldable pub parsed_matches :
    Library → Option (Bytes × List (Bytes × Bytes)) → List ContentTypeMatcher → Bool
parsed_matches lib none ms = false
parsed_matches lib (some (media_type, parameters)) ms =
    any_parameterized lib media_type parameters ms

-- The part before the first `;`, trimmed and in lower case.
abbrev media_type_prefix : Library → Bytes → Bytes
media_type_prefix lib value = lib.to_lower (trim_space (split_byte b';' value).0)

unfoldable pub matches_content_type : Library → HeaderListMatcher → Bytes → Bool
matches_content_type lib m value =
    if member (media_type_prefix lib value) m.media_types
    then true
    else if is_nil m.parameterized
    then false
    else parsed_matches lib (lib.parse_media_type value) m.parameterized

unfoldable pub contains_any_lower : Bytes → List Bytes → Bool
contains_any_lower value [] = false
contains_any_lower value (a ∷ alternatives) =
    contains value a || contains_any_lower value alternatives

unfoldable pub list_matches : Library → HeaderListMatcher → Bytes → Bool
list_matches lib m value =
    if not m.is_content_type
    then contains_any_lower (lib.to_lower value) m.contained
    else matches_content_type lib m value

abbrev value_test : Option Regexp → Bytes → Bytes → Bool
value_test (some pattern) value header = pattern header
value_test none value header = header =ᵇ value

-- The first loop of `headerRulesMatch`, and the second.
unfoldable pub exact_rules_match :
    List (Bytes × Bytes) → List (Bytes × Regexp) → (Bytes → Option Bytes) → Bool
exact_rules_match [] regexps look = true
exact_rules_match ((key, value) ∷ rest) regexps look =
    has_value (look key) (value_test (lookup key regexps) value)
    && exact_rules_match rest regexps look

unfoldable pub list_rules_match :
    Library → List (Bytes × HeaderListMatcher) → (Bytes → Option Bytes) → Bool
list_rules_match lib [] look = true
list_rules_match lib ((key, m) ∷ rest) look =
    has_value (look key) (list_matches lib m) && list_rules_match lib rest look

unfoldable pub header_rules_match :
    Library
    → List (Bytes × Bytes)
    → List (Bytes × Regexp)
    → List (Bytes × HeaderListMatcher)
    → (Bytes → Option Bytes)
    → Bool
header_rules_match lib exact regexps lists look =
    exact_rules_match exact regexps look && list_rules_match lib lists look
