-- ===== src/Storage/Registry/Removal.antt =====
-- internal/storage/scenario.go, `Remove`: what it keeps and what it changes.
use icapmock.Prelude.{
  ◌≡◌, ◌≢◌, refl, sym, subst, false, Option, none, some, List, [], ◌∷◌, arith, inl, inr,
  if◌then◌else◌, Bytes, ◌=ᵇ◌, =ᵇ_iff, =ᵇ_refl, All, Option-cases,
}
use icapmock.Storage.Scenarios.{Scenario}
use icapmock.Storage.Ranking.{scenario_named}
use icapmock.Storage.Registry.{Registry, take_out, remove}
use icapmock.Storage.Registry.TakenOut.{
  IsRegistry, TakenOut, take_out-TakenOut, RestRanked, take_out-RestRanked, names_differ,
}

abbrev pub Removed : Bytes → Registry → Option Registry → Type 0
Removed name r none = scenario_named name r.scenarios ≡ none
Removed name r (some r') =
    (scenario_named name r.scenarios ≢ none)
    × IsRegistry r'
    × ((asked : Bytes)
        → scenario_named asked r'.scenarios
          ≡ (if name =ᵇ asked then none else scenario_named asked r.scenarios))

abbrev removed_by : Registry → Option (Scenario × List Scenario) → Option Registry
removed_by r none = none
removed_by r (some (old, rest)) = some (record r { scenarios = rest })

remove-removed_by :
    (name : Bytes) (r : Registry) → remove name r ≡ removed_by r (take_out name r.scenarios)
unfolding remove
remove-removed_by name r = elim (Option-cases (take_out name r.scenarios)) [
  | inl e ↦ rw (e, remove) refl
  | inr (t, e) ↦ rw (e, remove) refl
]

scenario_named-none :
    (name : Bytes) (l : List Scenario)
    → All (λ t. (t.name =ᵇ name) ≡ false) l
    → scenario_named name l ≡ none
unfolding scenario_named
scenario_named-none name [] a = refl
scenario_named-none name (t ∷ l) a = rw (a.0) (scenario_named-none name l a.1)

removed_by-Removed :
    (name : Bytes) (r : Registry) (o : Option (Scenario × List Scenario))
    → TakenOut name r.scenarios o
    → RestRanked o
    → Removed name r (removed_by r o)
removed_by-Removed name r none h k = h.1
removed_by-Removed name r (some (old, rest)) (e, w, a, look) k =
    let gone =
      subst (λ (n : Bytes). scenario_named n rest ≡ none) e
        (scenario_named-none old.name rest (names_differ old rest a)) in
    let here : scenario_named name r.scenarios ≡ some old =
      ground (arith, look name, =ᵇ_refl name) in
    (
      λ h. cc,
      record { apart = w; ranked = k },
      λ asked. ground (arith, look asked, gone, =ᵇ_iff name asked),
    )

-- `Remove` fails exactly when no scenario has the name. Otherwise it keeps the registry sorted, and
-- only what is registered under that name is gone.
pub remove-Removed : (name : Bytes) (r : Registry) → IsRegistry r → Removed name r (remove name r)
remove-Removed name r v = subst (Removed name r) (sym (remove-removed_by name r)) (
    removed_by-Removed name r (take_out name r.scenarios)
      (take_out-TakenOut name r.scenarios v.apart) (take_out-RestRanked name r.scenarios v.ranked))
