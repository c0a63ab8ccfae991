-- ===== src/Storage/Registry/TakenOut.antt =====
-- internal/storage/scenario.go, `Add` and `Remove`: taking the scenario of a name out of the list.
use icapmock.Prelude.{
  ◌≡◌, refl, false, Option, none, some, List, [], ◌∷◌, arith, inl, inr, if◌then◌else◌, Bytes, ◌=ᵇ◌,
  =ᵇ_iff, All, Bool-cases,
}
use icapmock.Storage.Scenarios.{Scenario}
use icapmock.Storage.Ranking.{scenario_named}
use icapmock.Storage.Ranking.Sorting.{Pairwise, IsApart, IsApart-sym, Outranks, All-map}
use icapmock.Storage.Registry.{Registry, take_out}

-- The scenarios have different names and orders, and each outranks all behind it.
pub record IsRegistry (r : Registry) : Type 0 where
  pub apart : Pairwise IsApart r.scenarios
  pub ranked : Pairwise Outranks r.scenarios

-- What taking the first scenario of a name out of a list means for the list.
abbrev pub TakenOut : Bytes → List Scenario → Option (Scenario × List Scenario) → Type 0
TakenOut name l none = All (λ s. (s.name =ᵇ name) ≡ false) l × (scenario_named name l ≡ none)
TakenOut name l (some (old, rest)) =
    (old.name ≡ name)
    × Pairwise IsApart rest
    × All (IsApart old) rest
    × ((asked : Bytes)
        → scenario_named asked l ≡ (if name =ᵇ asked then some old else scenario_named asked rest))

abbrev behind : Scenario → Option (Scenario × List Scenario) → Option (Scenario × List Scenario)
behind s none = none
behind s (some (t, rest)) = some (t, s ∷ rest)

abbrev PartsHold : (Scenario → Type 0) → Option (Scenario × List Scenario) → Type 0
PartsHold P none = Unit
PartsHold P (some (old, rest)) = P old × All P rest

PartsHold-behind :
    (P : Scenario → Type 0) (s : Scenario) (o : Option (Scenario × List Scenario))
    → P s
    → PartsHold P o
    → PartsHold P (behind s o)
PartsHold-behind P s none h k = tt
PartsHold-behind P s (some (old, rest)) h k = (k.0, (h, k.1))

take_out-PartsHold :
    (P : Scenario → Type 0) (name : Bytes) (l : List Scenario)
    → All P l
    → PartsHold P (take_out name l)
unfolding take_out
take_out-PartsHold P name [] a = tt
take_out-PartsHold P name (s ∷ l) a = elim (Bool-cases (s.name =ᵇ name)) [
  | inl e ↦ rw e a
  | inr e ↦ rw e (PartsHold-behind P s (take_out name l) a.0 (take_out-PartsHold P name l a.1))
]

TakenOut-behind :
    (name : Bytes) (s : Scenario) (l : List Scenario) (o : Option (Scenario × List Scenario))
    → (s.name =ᵇ name) ≡ false
    → PartsHold (IsApart s) o
    → TakenOut name l o
    → TakenOut name (s ∷ l) (behind s o)
unfolding scenario_named
TakenOut-behind name s l none h of_s k = ((h, k.0), rw (h, scenario_named) k.1)
TakenOut-behind name s l (some (old, rest)) h of_s (e, pw, a, look) = (
  e,
  (of_s.1, pw),
  (IsApart-sym s old of_s.0, a),
  λ asked.
      ground (arith, look asked, h, =ᵇ_iff name asked, =ᵇ_iff s.name asked, =ᵇ_iff s.name name),
)

pub take_out-TakenOut :
    (name : Bytes) (l : List Scenario) → Pairwise IsApart l → TakenOut name l (take_out name l)
unfolding take_out scenario_named
take_out-TakenOut name [] w = (tt, refl)
take_out-TakenOut name (s ∷ l) w = elim (Bool-cases (s.name =ᵇ name)) [
  | inl e ↦ let same = (=ᵇ_iff s.name name).0 e in rw e (same, w.1, w.0, λ asked. rw same refl)
  | inr e ↦ rw e (
      TakenOut-behind name s l (take_out name l) e (take_out-PartsHold (IsApart s) name l w.0)
        (take_out-TakenOut name l w.1))
]

abbrev pub RestRanked : Option (Scenario × List Scenario) → Type 0
RestRanked none = Unit
RestRanked (some (old, rest)) = Pairwise Outranks rest

RestRanked-behind :
    (s : Scenario) (o : Option (Scenario × List Scenario))
    → PartsHold (Outranks s) o
    → RestRanked o
    → RestRanked (behind s o)
RestRanked-behind s none h k = tt
RestRanked-behind s (some (old, rest)) h k = (h.1, k)

pub take_out-RestRanked :
    (name : Bytes) (l : List Scenario) → Pairwise Outranks l → RestRanked (take_out name l)
unfolding take_out
take_out-RestRanked name [] w = tt
take_out-RestRanked name (s ∷ l) w = elim (Bool-cases (s.name =ᵇ name)) [
  | inl e ↦ rw e w.1
  | inr e ↦ rw e (
      RestRanked-behind s (take_out name l) (take_out-PartsHold (Outranks s) name l w.0)
        (take_out-RestRanked name l w.1))
]

pub names_differ :
    (s : Scenario) (l : List Scenario) → All (IsApart s) l → All (λ t. (t.name =ᵇ s.name) ≡ false) l
names_differ s l a =
    All-map (IsApart s) (λ t. (t.name =ᵇ s.name) ≡ false) l (λ t h. (IsApart-sym s t h).0) a
