-- ===== src/Storage/Topology/Changes.antt =====
-- internal/storage/scenario.go, `ValidateExactRouteTopology` and `Reload`: which changes are accepted.
use icapmock.Prelude.{
  Option, some, is_nil, ◌≡◌, ◌⊎◌, ◌↔◌, refl, ◌∙◌, sym, ap, subst, true, false, none, List, [], ◌∷◌,
  arith, inl, inr, Bytes, ◌=ᵇ◌, =ᵇ_iff, =ᵇ_refl, All, Bool-cases,
}
use icapmock.Icap.Header.{bytes_leb}
use icapmock.Icap.Header.Laws.{bytes_leb_antisym}
use icapmock.Storage.HeaderRules.{member}
use icapmock.Storage.Scenarios.{Scenario}
use icapmock.Storage.ShardKeys.{unseen}
use icapmock.Storage.Registry.{Registry, scenario_list}
use icapmock.Storage.Topology.{
  LoadResult, read, unreadable, after_validation, after_load, reload, has_exact_routes,
  declared_paths, scenario_endpoint_topology, string_slices_equal, validate_exact_route_topology,
}
use icapmock.Storage.Topology.Sets.{
  IsBefore, IsAscending, All-member, member_self, member-sort_strings, member-unseen,
  sort_strings-IsAscending, unseen-IsDistinctTexts,
}

no_member : (x : Bytes) → member x [] ≡ false
unfolding member
no_member x = refl

lacks_before : (x : Bytes) (l : List Bytes) → All (IsBefore x) l → member x l ≡ false
lacks_before x l a = elim (Bool-cases (member x l)) [
  | inl e ↦ absurd (let k = (All-member (IsBefore x) x l a e).1 in let f = =ᵇ_refl x in cc)
  | inr e ↦ e
]

at_most :
    (x y : Bytes) (l : List Bytes)
    → All (IsBefore x) l
    → member y (x ∷ l) ≡ true
    → (x ≡ y) ⊎ (bytes_leb x y ≡ true)
unfolding member
at_most x y l a h = elim (Bool-cases (x =ᵇ y)) [
  | inl e ↦ inl ((=ᵇ_iff x y).0 e)
  | inr e ↦ inr (All-member (IsBefore x) y l a (ground (arith, h, e))).0
]

heads_equal :
    (x y : Bytes) → (x ≡ y) ⊎ (bytes_leb x y ≡ true) → (y ≡ x) ⊎ (bytes_leb y x ≡ true) → x ≡ y
heads_equal x y (inl e) k = e
heads_equal x y (inr h) (inl e) = sym e
heads_equal x y (inr h) (inr k) = bytes_leb_antisym x y h k

tails_alike :
    (x z : Bytes) (l m : List Bytes)
    → member x l ≡ false
    → member x m ≡ false
    → member z (x ∷ l) ≡ member z (x ∷ m)
    → member z l ≡ member z m
unfolding member
tails_alike x z l m h k e = elim (Bool-cases (x =ᵇ z)) [
  | inl f ↦
      let same = (=ᵇ_iff x z).0 f in subst (λ (t : Bytes). member t l ≡ member t m) same (h ∙ sym k)
  | inr f ↦ rw (f, member) at e
]

-- Two ascending lists with the same members are the same.
ascending_unique :
    (l m : List Bytes)
    → IsAscending l
    → IsAscending m
    → ((x : Bytes) → member x l ≡ member x m)
    → l ≡ m
ascending_unique [] [] a b same = refl
ascending_unique [] (y ∷ m) a b same =
    absurd (let e = same y in let f = member_self y m in let g = no_member y in cc)
ascending_unique (x ∷ l) [] a b same =
    absurd (let e = same x in let f = member_self x l in let g = no_member x in cc)
ascending_unique (x ∷ l) (y ∷ m) a b same =
    let e =
      heads_equal x y (at_most x y l a.0 (same y ∙ member_self y m))
        (at_most y x m b.0 (sym (same x) ∙ member_self x l)) in
    let b' : IsAscending (x ∷ m) = subst (λ (t : Bytes). IsAscending (t ∷ m)) (sym e) b in
    let same' : (z : Bytes) → member z (x ∷ l) ≡ member z (x ∷ m) =
      subst (λ (t : Bytes). (z : Bytes) → member z (x ∷ l) ≡ member z (t ∷ m)) (sym e) same in
    ap (λ (t : List Bytes). x ∷ t)
      (ascending_unique l m a.1 b'.1
        (λ z. tails_alike x z l m (lacks_before x l a.0) (lacks_before x m b'.0) (same' z)))
    ∙ ap (λ (t : Bytes). t ∷ m) e

string_slices_equal_iff : (l m : List Bytes) → (string_slices_equal l m ≡ true) ↔ (l ≡ m)
unfolding string_slices_equal
string_slices_equal_iff [] [] = (λ _. refl, λ _. refl)
string_slices_equal_iff [] (y ∷ m) = (λ h. cc, λ h. cc)
string_slices_equal_iff (x ∷ l) [] = (λ h. cc, λ h. cc)
string_slices_equal_iff (x ∷ l) (y ∷ m) = ground (arith, =ᵇ_iff x y, string_slices_equal_iff l m)

member-topology :
    (x : Bytes) (l : List Scenario)
    → member x (scenario_endpoint_topology l) ≡ member x (declared_paths l)
unfolding scenario_endpoint_topology
member-topology x l =
    let e = member-unseen x [] (declared_paths l) in
    let none_seen = no_member x in
    member-sort_strings x (unseen [] (declared_paths l)) ∙ ground (arith, e, none_seen)

topology-IsAscending : (l : List Scenario) → IsAscending (scenario_endpoint_topology l)
unfolding scenario_endpoint_topology
topology-IsAscending l =
    sort_strings-IsAscending (unseen [] (declared_paths l))
      (unseen-IsDistinctTexts [] (declared_paths l))

-- The same endpoints are declared.
abbrev pub IsSameTopology : List Scenario → List Scenario → Type 0
IsSameTopology l m = (x : Bytes) → member x (declared_paths l) ≡ member x (declared_paths m)

topology_iff :
    (l m : List Scenario)
    → (scenario_endpoint_topology l ≡ scenario_endpoint_topology m) ↔ IsSameTopology l m
topology_iff l m = (
  λ e x. sym (member-topology x l) ∙ ap (member x) e ∙ member-topology x m,
  λ same.
      ascending_unique (scenario_endpoint_topology l) (scenario_endpoint_topology m)
        (topology-IsAscending l) (topology-IsAscending m)
        (λ x. member-topology x l ∙ same x ∙ sym (member-topology x m)),
)

-- A change of the scenarios is accepted exactly when neither the old nor the new ones use exact routes,
-- or both declare the same endpoints, in whatever order and however often.
pub validate_exact_route_topology_iff :
    (current next : List Scenario)
    → (validate_exact_route_topology current next ≡ none) ↔ (
        ((has_exact_routes current ≡ false) × (has_exact_routes next ≡ false))
        ⊎ IsSameTopology current next)
unfolding validate_exact_route_topology
validate_exact_route_topology_iff current next =
    let old = scenario_endpoint_topology current in
    let new = scenario_endpoint_topology next in
    let slices = string_slices_equal_iff old new in
    let same = topology_iff current next in
    (
      λ h. elim (Bool-cases (string_slices_equal old new)) [
        | inl e ↦ inr (same.0 (slices.0 e))
        | inr e ↦ inl (ground (arith, h, e))
      ],
      λ k. elim k [
        | inl free ↦ ground (arith, free.0, free.1)
        | inr s ↦ let e = slices.1 (same.1 s) in ground (arith, e)
      ],
    )

abbrev pub KeepsTopology : List Scenario → List Scenario → Type 0
KeepsTopology l m =
    ((has_exact_routes l ≡ false) × (has_exact_routes m ≡ false)) ⊎ IsSameTopology l m

module _ (E : Type 0) where
  validated_keeps :
      (r : Registry) (next : List Scenario) (o : Option (List Bytes × List Bytes))
      → validate_exact_route_topology r.scenarios next ≡ o
      → KeepsTopology r.scenarios (after_validation {E = E} r next o).0.scenarios
  validated_keeps r next none h = (validate_exact_route_topology_iff r.scenarios next).0 h
  validated_keeps r next (some change) h = inr (λ x. refl)

  loaded_keeps :
      (r : Registry) (o : LoadResult E) → KeepsTopology r.scenarios (after_load r o).0.scenarios
  unfolding scenario_list
  loaded_keeps r (unreadable e) = inr (λ x. refl)
  loaded_keeps r (read next) =
      validated_keeps r next (validate_exact_route_topology r.scenarios next) refl

  -- Whatever the file holds, reloading a registry that uses exact routes, or comes to use them, leaves
  -- the endpoints that its scenarios declare as they were.
  pub reload-KeepsTopology :
      (load : Bytes → LoadResult E) (r : Registry)
      → KeepsTopology r.scenarios (reload load r).0.scenarios
  unfolding reload
  reload-KeepsTopology load r = elim (Bool-cases (is_nil r.file_path)) [
    | inl e ↦ rw e (inr (λ x. refl))
    | inr e ↦ rw e (loaded_keeps r (load r.file_path))
  ]
