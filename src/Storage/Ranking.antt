-- ===== src/Storage/Ranking.antt =====
-- internal/storage/sharded_scenario.go: the rank of a scenario, and the order in which both registries
-- keep their scenarios.
pub mod Sorting
use icapmock.Prelude.{
  ℕ, ◌+◌, Bool, true, false, Option, none, some, List, [], ◌∷◌, ltb, leb, if◌then◌else◌, foldr,
  Bytes, ◌=ᵇ◌,
}
use icapmock.Prelude.Int64.{int_ltb, int_eq}
use icapmock.Storage.Scenarios.{Scenario}

unfoldable pub outranks : Scenario → Scenario → Bool
outranks left right =
    if int_eq left.priority right.priority
    then ltb left.order right.order
    else int_ltb right.priority left.priority

-- `none` is nil.
unfoldable pub scenario_outranks : Option Scenario → Option Scenario → Bool
scenario_outranks none none = false
scenario_outranks (some left) none = true
scenario_outranks none (some right) = false
scenario_outranks (some left) (some right) = outranks left right

unfoldable pub insert_ranked : Scenario → List Scenario → List Scenario
insert_ranked s [] = s ∷ []
insert_ranked s (t ∷ ts) =
    let rest = insert_ranked s ts in if outranks t s then t ∷ rest else s ∷ t ∷ ts

-- `sort.SliceStable`: of scenarios of the same rank, the first comes first.
unfoldable pub sort_scenarios_by_priority : List Scenario → List Scenario
sort_scenarios_by_priority l = foldr insert_ranked [] l

unfoldable pub next_from : ℕ → List Scenario → ℕ
next_from next [] = next
next_from next (s ∷ l) = next_from (if leb next s.order then s.order + 1 else next) l

unfoldable pub next_scenario_order : List Scenario → ℕ
next_scenario_order l = next_from 0 l

unfoldable pub scenario_named : Bytes → List Scenario → Option Scenario
scenario_named name [] = none
scenario_named name (s ∷ l) = if s.name =ᵇ name then some s else scenario_named name l

unfoldable pub scenario_order_for_add : List Scenario → Bytes → ℕ
scenario_order_for_add l name = elim (scenario_named name l) [
  | some s ↦ s.order
  | none ↦ next_scenario_order l
]
