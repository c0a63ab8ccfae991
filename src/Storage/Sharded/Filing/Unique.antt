-- ===== src/Storage/Sharded/Filing/Unique.antt =====
-- internal/storage/sharded_scenario.go, `uniqueScenarioPointers`: nothing but copies is left out.
use icapmock.Prelude.{
  ℕ, ◌≡◌, ◌⊎◌, refl, ◌∙◌, sym, subst, Bool, true, false, ◌&&◌, ◌||◌, List, [], ◌∷◌, arith, ◌=ᵇ◌,
  =ᵇ_iff, inl, inr, Bool-cases, All,
}
use icapmock.Storage.Scenarios.{Scenario, default_scenario_name}
use icapmock.Storage.Ranking.Sorting.{IsApart}
use icapmock.Storage.Sharded.{unique_from, unique_scenario_pointers, seen_order}
use icapmock.Storage.Sharded.Search.Choice.{Among}

unique_from-All :
    (P : Scenario → Type 0) (defaults : Bool) (seen : List ℕ) (l : List Scenario)
    → All P l
    → All P (unique_from defaults seen l)
unfolding unique_from
unique_from-All P defaults seen [] a = tt
unique_from-All P defaults seen (s ∷ l) a =
    let is_default = s.name =ᵇ default_scenario_name in
    elim (Bool-cases (is_default && defaults || seen_order s.order seen)) [
      | inl e ↦ rw e (unique_from-All P (defaults || is_default) seen l a.1)
      | inr e ↦ rw e (a.0, unique_from-All P (defaults || is_default) (s.order ∷ seen) l a.1)
    ]

pub unique-All :
    (P : Scenario → Type 0) (l : List Scenario) → All P l → All P (unique_scenario_pointers l)
unfolding unique_scenario_pointers
unique-All P l a = unique_from-All P false [] l a

-- It was seen before, by its order or as the default scenario.
abbrev Seen : Bool → List ℕ → Scenario → Type 0
Seen defaults seen t =
    (seen_order t.order seen ≡ true)
    ⊎ ((defaults ≡ true) × ((t.name =ᵇ default_scenario_name) ≡ true))

Seen-earlier :
    (defaults is_default : Bool) (seen : List ℕ) (s t : Scenario)
    → is_default ≡ (s.name =ᵇ default_scenario_name)
    → (s ≡ t) ⊎ IsApart s t
    → Seen (defaults || is_default) (s.order ∷ seen) t
    → (s ≡ t) ⊎ Seen defaults seen t
Seen-earlier defaults is_default seen s t e (inl same) h = inl same
Seen-earlier defaults is_default seen s t e (inr apart) (inl h) =
    inr (inl (ground (arith, h, apart.1)))
Seen-earlier defaults is_default seen s t e (inr apart) (inr (h, n)) = elim (Bool-cases defaults) [
  | inl d ↦ inr (inr (d, n))
  | inr d ↦
      let own : (s.name =ᵇ default_scenario_name) ≡ true = sym e ∙ ground (arith, h, d) in
      absurd (
        let one = (=ᵇ_iff s.name default_scenario_name).0 own in
        let two = (=ᵇ_iff t.name default_scenario_name).0 n in
        let f = (=ᵇ_iff s.name t.name).1 (one ∙ sym two) in let g = apart.0 in cc)
]

weaken-Seen :
    (n : ℕ) (defaults : Bool) (seen : List ℕ) (t : Scenario)
    → Seen defaults seen t
    → Seen defaults (n ∷ seen) t
weaken-Seen n defaults seen t (inl h) = inl (ground (arith, h))
weaken-Seen n defaults seen t (inr h) = inr h

unique_from-Among :
    (defaults : Bool) (seen : List ℕ) (l : List Scenario) (t : Scenario)
    → All (λ s. (s ≡ t) ⊎ IsApart s t) l
    → Among t l
    → Among t (unique_from defaults seen l) ⊎ Seen defaults seen t
unfolding unique_from
unique_from-Among defaults seen [] t a h = absurd h
unique_from-Among defaults seen (s ∷ l) t a h =
    let is_default = s.name =ᵇ default_scenario_name in
    elim (Bool-cases (is_default && defaults || seen_order s.order seen)) [
      | inl e ↦ rw e (elim h [
        | inl same ↦ inr (subst (Seen defaults seen) (sym same) (old_seen s e))
        | inr m ↦ elim (unique_from-Among (defaults || is_default) seen l t a.1 m) [
          | inl k ↦ inl k
          | inr k ↦
              elim (Seen-earlier defaults is_default seen s t refl a.0
                (weaken-Seen s.order _ seen t k)) [
                  | inl same ↦ inr (subst (Seen defaults seen) same (old_seen s e))
                  | inr k' ↦ inr k'
                ]
        ]
      ])
      | inr e ↦ rw e (elim h [
        | inl same ↦ inl (inl same)
        | inr m ↦ elim (unique_from-Among (defaults || is_default) (s.order ∷ seen) l t a.1 m) [
          | inl k ↦ inl (inr k)
          | inr k ↦ elim (Seen-earlier defaults is_default seen s t refl a.0 k) [
            | inl same ↦ inl (inl (sym same))
            | inr k' ↦ inr k'
          ]
        ]
      ])
    ]
  where
    old_seen :
        (u : Scenario)
        → ((u.name =ᵇ default_scenario_name) && defaults || seen_order u.order seen) ≡ true
        → Seen defaults seen u
    old_seen u e = elim (Bool-cases (seen_order u.order seen)) [
      | inl k ↦ inl k
      | inr k ↦ inr (ground (arith, e, k), ground (arith, e, k))
    ]

pub unique-Among :
    (l : List Scenario) (t : Scenario)
    → All (λ s. (s ≡ t) ⊎ IsApart s t) l
    → Among t l
    → Among t (unique_scenario_pointers l)
unfolding unique_scenario_pointers
unique-Among l t a h = elim (unique_from-Among false [] l t a h) [
  | inl k ↦ k
  | inr (inl k) ↦ absurd (cc)
  | inr (inr k) ↦ absurd (let f = k.0 in cc)
]
