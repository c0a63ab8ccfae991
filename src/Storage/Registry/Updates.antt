-- ===== src/Storage/Registry/Updates.antt =====
-- internal/storage/scenario.go, `Add`: what it keeps and what it changes.
use icapmock.Prelude.{
  ℕ, ◌<◌, ◌≡◌, ◌⊎◌, refl, ◌∙◌, sym, ap, subst, false, Option, none, some, List, [], ◌∷◌, ◌++◌,
  arith, inl, inr, if◌then◌else◌, Bytes, ◌=ᵇ◌, =ᵇ_iff, =ᵇ_refl, All, All-append, Option-cases,
}
use icapmock.Storage.Scenarios.{Scenario}
use icapmock.Storage.Ranking.{next_scenario_order, sort_scenarios_by_priority, scenario_named}
use icapmock.Storage.Ranking.Sorting.{
  Pairwise, IsApart, IsApart-sym, Pairwise-sort, sort-Outranks, scenario_named-sort,
  next_scenario_order_above, All-map,
}
use icapmock.Storage.Registry.{Registry, take_out, with_scenarios, add}
use icapmock.Storage.Registry.TakenOut.{IsRegistry, TakenOut, take_out-TakenOut, names_differ}

All-Pairwise-append :
    (l : List Scenario) (s : Scenario)
    → Pairwise IsApart l
    → All (IsApart s) l
    → Pairwise IsApart (l ++ s ∷ [])
All-Pairwise-append [] s w a = (tt, tt)
All-Pairwise-append (t ∷ l) s w a = (
  All-append (IsApart t) l (s ∷ []) w.0 (IsApart-sym s t a.0, tt),
  All-Pairwise-append l s w.1 a.1,
)

scenario_named-append :
    (asked : Bytes) (l : List Scenario) (s : Scenario)
    → All (λ t. (t.name =ᵇ s.name) ≡ false) l
    → scenario_named asked (l ++ s ∷ [])
      ≡ (if s.name =ᵇ asked then some s else scenario_named asked l)
unfolding scenario_named
scenario_named-append asked [] s a = refl
scenario_named-append asked (t ∷ l) s a =
    let ih = scenario_named-append asked l s a.1 in
    ground (arith, ih, a.0, =ᵇ_iff s.name asked, =ᵇ_iff t.name asked, =ᵇ_iff t.name s.name)

both :
    (s : Scenario) (n : ℕ) (l : List Scenario)
    → All (λ t. (t.name =ᵇ s.name) ≡ false) l
    → All (λ t. t.order < n) l
    → All (IsApart (record s { order = n })) l
both s n [] a b = tt
both s n (t ∷ l) a b = (
  (ground (arith, a.0, =ᵇ_iff t.name s.name, =ᵇ_iff s.name t.name), ground (arith, b.0)),
  both s n l a.1 b.1,
)

-- The order that an added scenario is given.
abbrev pub given_order : Option Scenario → List Scenario → ℕ
given_order (some old) l = old.order
given_order none l = next_scenario_order l

-- The order of the old scenario of the name, or one above all in use where there is none.
abbrev pub IsNewOrder : Bytes → List Scenario → ℕ → Type 0
IsNewOrder name l n =
    ((old : Scenario) × (scenario_named name l ≡ some old) × (n ≡ old.order))
    ⊎ ((scenario_named name l ≡ none) × All (λ t. t.order < n) l)

given_order-IsNewOrder :
    (name : Bytes) (l : List Scenario) → IsNewOrder name l (given_order (scenario_named name l) l)
given_order-IsNewOrder name l = elim (Option-cases (scenario_named name l)) [
  | inl e ↦ rw e (inr (refl, next_scenario_order_above l))
  | inr (old, e) ↦ rw e (inl (old, refl, refl))
]

abbrev sorted_with : List Scenario → Scenario → List Scenario
sorted_with l s = sort_scenarios_by_priority (l ++ s ∷ [])

sort-IsRegistry :
    (r : Registry) (l : List Scenario) → Pairwise IsApart l → IsRegistry (with_scenarios r l)
sort-IsRegistry r l w = record { apart = Pairwise-sort l w; ranked = sort-Outranks l w }

fresh-IsApart :
    (s : Scenario) (l : List Scenario)
    → All (λ t. (t.name =ᵇ s.name) ≡ false) l
    → All (IsApart (record s { order = next_scenario_order l })) l
fresh-IsApart s l a = both s (next_scenario_order l) l a (next_scenario_order_above l)

replacing-IsApart :
    (s old : Scenario) (rest : List Scenario)
    → old.name ≡ s.name
    → All (IsApart old) rest
    → All (IsApart (record s { order = old.order })) rest
replacing-IsApart s old rest e a =
    All-map (IsApart old) (IsApart (record s { order = old.order })) rest
      (λ t h. (subst (λ (n : Bytes). (n =ᵇ t.name) ≡ false) e h.0, h.1)) a

-- The registry after an addition has the new scenario under its name, with the order that is given,
-- and the others as before.
abbrev pub Added : Scenario → Registry → Registry → Type 0
Added s r r' =
    IsRegistry r'
    × IsNewOrder s.name r.scenarios (given_order (scenario_named s.name r.scenarios) r.scenarios)
    × ((asked : Bytes)
        → scenario_named asked r'.scenarios ≡ (
            if s.name =ᵇ asked
            then some
                (record s { order = given_order (scenario_named s.name r.scenarios) r.scenarios })
            else scenario_named asked r.scenarios))

sorted-Added :
    (s s' : Scenario) (r : Registry) (rest : List Scenario)
    → s' ≡ record s { order = given_order (scenario_named s.name r.scenarios) r.scenarios }
    → Pairwise IsApart rest
    → All (IsApart s') rest
    → ((asked : Bytes)
        → (if s.name =ᵇ asked then some s' else scenario_named asked rest)
          ≡ (if s.name =ᵇ asked then some s' else scenario_named asked r.scenarios))
    → Added s r (with_scenarios r (rest ++ s' ∷ []))
sorted-Added s s' r rest e w a look =
    let whole = All-Pairwise-append rest s' w a in
    let name : s'.name ≡ s.name = ap (λ (t : Scenario). t.name) e in
    (
      sort-IsRegistry r (rest ++ s' ∷ []) whole,
      given_order-IsNewOrder s.name r.scenarios,
      λ asked.
          scenario_named-sort asked (rest ++ s' ∷ []) whole
          ∙ scenario_named-append asked rest s' (names_differ s' rest a)
          ∙ subst
              (λ (n : Bytes).
                (if n =ᵇ asked then some s' else scenario_named asked rest)
                ≡ (if s.name =ᵇ asked then some s' else scenario_named asked r.scenarios))
              (sym name) (look asked)
          ∙ ap
              (λ (t : Scenario).
                if s.name =ᵇ asked then some t else scenario_named asked r.scenarios)
              e,
    )

abbrev added_by : Scenario → Registry → Option (Scenario × List Scenario) → Registry
added_by s r none =
    with_scenarios r (r.scenarios ++ (record s { order = next_scenario_order r.scenarios }) ∷ [])
added_by s r (some (old, rest)) = with_scenarios r (rest ++ (record s { order = old.order }) ∷ [])

add-added_by : (s : Scenario) (r : Registry) → add s r ≡ added_by s r (take_out s.name r.scenarios)
unfolding add
add-added_by s r = elim (Option-cases (take_out s.name r.scenarios)) [
  | inl e ↦ rw (e, add) refl
  | inr (t, e) ↦ rw (e, add) refl
]

added_by-Added :
    (s : Scenario) (r : Registry) (o : Option (Scenario × List Scenario))
    → IsRegistry r
    → TakenOut s.name r.scenarios o
    → Added s r (added_by s r o)
added_by-Added s r none v (a, e) =
    let l = r.scenarios in
    let s' = record s { order = next_scenario_order l } in
    sorted-Added s s' r l (rw e refl) v.apart (fresh-IsApart s l a) (λ asked. refl)
added_by-Added s r (some (old, rest)) v (name, w, a, look) =
    let s' = record s { order = old.order } in
    let here : scenario_named s.name r.scenarios ≡ some old =
      ground (arith, look s.name, =ᵇ_refl s.name) in
    sorted-Added s s' r rest (rw here refl) w (replacing-IsApart s old rest name a)
      (λ asked. ground (arith, look asked))

-- `Add` keeps the registry sorted, its names and its orders different. A scenario of a name in use
-- takes that name's place and its order, one of a new name gets an order that is above every order in
-- use, and what is registered under every other name stays as it was.
pub add-Added : (s : Scenario) (r : Registry) → IsRegistry r → Added s r (add s r)
add-Added s r v = subst (Added s r) (sym (add-added_by s r)) (
    added_by-Added s r (take_out s.name r.scenarios) v
      (take_out-TakenOut s.name r.scenarios v.apart))
