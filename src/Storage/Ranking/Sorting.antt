-- ===== src/Storage/Ranking/Sorting.antt =====
-- internal/storage/sharded_scenario.go: what sorting by rank keeps and what it establishes.
use icapmock.Prelude.{
  ℕ, ◌+◌, ◌<◌, ◌≤◌, ◌≡◌, refl, true, false, some, List, [], ◌∷◌, arith, inl, inr, leb, ◌==◌,
  if◌then◌else◌, Bytes, ◌=ᵇ◌, =ᵇ_iff, All, Bool-cases,
}
use icapmock.Storage.Scenarios.{Scenario}
use icapmock.Storage.Ranking.{
  outranks, insert_ranked, sort_scenarios_by_priority, next_from, next_scenario_order,
  scenario_named,
}

abbrev pub Pairwise {ℓ κ} : {A : Type ℓ} → (A → A → Type κ) → List A → Type κ
Pairwise R [] = Unit
Pairwise R (x ∷ xs) = All (R x) xs × Pairwise R xs

-- Neither the names nor the orders of two scenarios are the same.
abbrev pub IsApart : Scenario → Scenario → Type 0
IsApart s t = ((s.name =ᵇ t.name) ≡ false) × ((s.order == t.order) ≡ false)

abbrev pub Outranks : Scenario → Scenario → Type 0
Outranks s t = outranks s t ≡ true

pub IsApart-sym : (s t : Scenario) → IsApart s t → IsApart t s
IsApart-sym s t (n, o) = ground (arith, n, o, =ᵇ_iff s.name t.name, =ᵇ_iff t.name s.name)

pub Outranks-trans : (s t u : Scenario) → Outranks s t → Outranks t u → Outranks s u
unfolding outranks
Outranks-trans s t u h k = ground (arith, h, k)

pub outranks_total : (s t : Scenario) → IsApart s t → outranks t s ≡ false → Outranks s t
unfolding outranks
outranks_total s t a h = ground (arith, a.1, h)

pub outranks_asym : (s t : Scenario) → Outranks s t → outranks t s ≡ false
unfolding outranks
outranks_asym s t h = ground (arith, h)

module _ (P : Scenario → Type 0) where
  All-insert_ranked : (s : Scenario) (l : List Scenario) → P s → All P l → All P (insert_ranked s l)
  unfolding insert_ranked
  All-insert_ranked s [] h a = (h, a)
  All-insert_ranked s (t ∷ ts) h a = elim (Bool-cases (outranks t s)) [
    | inl e ↦ rw e (a.0, All-insert_ranked s ts h a.1)
    | inr e ↦ rw e (h, a)
  ]

  pub All-sort : (l : List Scenario) → All P l → All P (sort_scenarios_by_priority l)
  unfolding sort_scenarios_by_priority
  All-sort [] a = a
  All-sort (s ∷ l) a = All-insert_ranked s (sort_scenarios_by_priority l) a.0 (All-sort l a.1)

pub All-map :
    (P Q : Scenario → Type 0) (l : List Scenario) → ((s : Scenario) → P s → Q s) → All P l → All Q l
All-map P Q [] f a = tt
All-map P Q (s ∷ l) f a = (f s a.0, All-map P Q l f a.1)

Pairwise-insert_ranked :
    (s : Scenario) (l : List Scenario)
    → All (IsApart s) l
    → Pairwise IsApart l
    → Pairwise IsApart (insert_ranked s l)
unfolding insert_ranked
Pairwise-insert_ranked s [] a w = (tt, tt)
Pairwise-insert_ranked s (t ∷ ts) a w = elim (Bool-cases (outranks t s)) [
  | inl e ↦ rw e (
    All-insert_ranked (IsApart t) s ts (IsApart-sym s t a.0) w.0,
    Pairwise-insert_ranked s ts a.1 w.1,
  )
  | inr e ↦ rw e (a, w)
]

pub Pairwise-sort :
    (l : List Scenario) → Pairwise IsApart l → Pairwise IsApart (sort_scenarios_by_priority l)
unfolding sort_scenarios_by_priority
Pairwise-sort [] w = tt
Pairwise-sort (s ∷ l) w =
    Pairwise-insert_ranked s (sort_scenarios_by_priority l) (All-sort (IsApart s) l w.0)
      (Pairwise-sort l w.1)

insert_ranked-Outranks :
    (s : Scenario) (l : List Scenario)
    → All (IsApart s) l
    → Pairwise Outranks l
    → Pairwise Outranks (insert_ranked s l)
unfolding insert_ranked
insert_ranked-Outranks s [] a w = (tt, tt)
insert_ranked-Outranks s (t ∷ ts) a w = elim (Bool-cases (outranks t s)) [
  | inl e ↦ rw e (All-insert_ranked (Outranks t) s ts e w.0, insert_ranked-Outranks s ts a.1 w.1)
  | inr e ↦
      let h = outranks_total s t a.0 e in
      rw e ((h, All-map (Outranks t) (Outranks s) ts (λ u k. Outranks-trans s t u h k) w.0), w)
]

-- Sorting scenarios that are apart gives a list in which each outranks all behind it.
pub sort-Outranks :
    (l : List Scenario) → Pairwise IsApart l → Pairwise Outranks (sort_scenarios_by_priority l)
unfolding sort_scenarios_by_priority
sort-Outranks [] w = tt
sort-Outranks (s ∷ l) w =
    insert_ranked-Outranks s (sort_scenarios_by_priority l) (All-sort (IsApart s) l w.0)
      (sort-Outranks l w.1)

scenario_named-insert_ranked :
    (name : Bytes) (s : Scenario) (l : List Scenario)
    → All (IsApart s) l
    → scenario_named name (insert_ranked s l)
      ≡ (if s.name =ᵇ name then some s else scenario_named name l)
unfolding scenario_named insert_ranked
scenario_named-insert_ranked name s [] a = refl
scenario_named-insert_ranked name s (t ∷ ts) a = elim (Bool-cases (outranks t s)) [
  | inl e ↦
      let ih = scenario_named-insert_ranked name s ts a.1 in
      rw e (ground (arith, ih, a.0, =ᵇ_iff s.name name, =ᵇ_iff t.name name, =ᵇ_iff s.name t.name))
  | inr e ↦ rw e refl
]

-- Sorting does not change which scenario has a name.
pub scenario_named-sort :
    (name : Bytes) (l : List Scenario)
    → Pairwise IsApart l
    → scenario_named name (sort_scenarios_by_priority l) ≡ scenario_named name l
unfolding scenario_named sort_scenarios_by_priority
scenario_named-sort name [] w = refl
scenario_named-sort name (s ∷ l) w =
    let ih = scenario_named-sort name l w.1 in
    let e =
      scenario_named-insert_ranked name s (sort_scenarios_by_priority l)
        (All-sort (IsApart s) l w.0) in
    ground (arith, ih, e)

next_from_grows : (n : ℕ) (l : List Scenario) → n ≤ next_from n l
unfolding next_from
next_from_grows n [] = omega arith
next_from_grows n (s ∷ l) =
    let ih = next_from_grows (if leb n s.order then s.order + 1 else n) l in ground (arith, ih)

next_from_above : (n : ℕ) (l : List Scenario) → All (λ s. s.order < next_from n l) l
unfolding next_from
next_from_above n [] = tt
next_from_above n (s ∷ l) =
    let m = if leb n s.order then s.order + 1 else n in
    let grows = next_from_grows m l in
    let here : s.order < next_from m l = ground (arith, grows) in (here, next_from_above m l)

-- The next order is above every order in use.
pub next_scenario_order_above : (l : List Scenario) → All (λ s. s.order < next_scenario_order l) l
unfolding next_scenario_order
next_scenario_order_above l = next_from_above 0 l
