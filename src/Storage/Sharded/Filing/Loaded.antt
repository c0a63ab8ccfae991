-- ===== src/Storage/Sharded/Filing/Loaded.antt =====
-- internal/storage/sharded_scenario.go, `Load`: what a loaded registry holds and where it is filed.
use icapmock.Prelude.{
  ℕ, zero, suc, ◌<◌, ◌≡◌, refl, ◌∙◌, sym, ap, subst, Option, none, some, List, [], ◌∷◌, ◌++◌, arith,
  if◌then◌else◌, Bytes, length, inl, inr, Bool-cases, Option-cases, All, All-append,
}
use native.Mathlib.Decide.{ℕ_discrete}
use icapmock.Storage.Scenarios.{Scenario}
use icapmock.Storage.Ranking.Sorting.{All-map}
use icapmock.Storage.ShardKeys.{
  requires_global_priority_check, shard_for_scenario, build_index_keys, exact_route_shard_entries,
}
use icapmock.Storage.Sharded.{
  Shard, ShardedRegistry, add_to_shard, at_shard, add_entries, add_global_scenario, index_scenario,
  index_all, shard_scenarios,
}
use icapmock.Storage.Sharded.Search.{shard_at}
use icapmock.Storage.Sharded.Search.Choice.{Among, Among-append_left, Among-append_right}
use icapmock.Storage.Sharded.Filing.{
  filed_at, add_keys-All, shard_at-same, shard_at-other, length-at_shard,
}

-- The shards and the keys that a scenario is filed under; `none` is the global list.
unfoldable pub placement : ℕ → Scenario → Option (List (ℕ × List Bytes))
placement count s = elim (exact_route_shard_entries count s) [
  | some entries ↦ some entries
  | none ↦
      if requires_global_priority_check s
      then none
      else some ((shard_for_scenario count s, build_index_keys s) ∷ [])
]

abbrev pub place : Option (List (ℕ × List Bytes)) → Scenario → ShardedRegistry → ShardedRegistry
place none s r = add_global_scenario s r
place (some entries) s r = record r { shards = add_entries s entries r.shards }

index_scenario-place :
    (s : Scenario) (r : ShardedRegistry)
    → index_scenario s r ≡ place (placement r.shard_count s) s r
unfolding index_scenario placement add_entries
index_scenario-place s r = elim (Option-cases (exact_route_shard_entries r.shard_count s)) [
  | inr (entries, e) ↦ rw (index_scenario, placement, e) refl
  | inl e ↦ elim (Bool-cases (requires_global_priority_check s)) [
    | inl g ↦ rw (index_scenario, placement, e, g) refl
    | inr g ↦ rw (index_scenario, placement, e, g) refl
  ]
]

-- A scenario of the list that is filed in shards.
abbrev pub IsSharded : ℕ → List Scenario → Scenario → Type 0
IsSharded n l t = Among t l × ((entries : List (ℕ × List Bytes)) × (placement n t ≡ some entries))

-- The shards hold scenarios of the list only, and the index of one of them what it holds.
pub record IsFiling (n i : ℕ) (l : List Scenario) (shards : List Shard) : Type 0 where
  pub size : i < length shards
  pub held : All (IsSharded n l) (shard_scenarios shards)
  pub inside :
      (k : Bytes)
      → All (λ t. Among t (shard_at i shards).scenarios) (filed_at k (shard_at i shards).index)

All-before : (P : Scenario → Type 0) (l m : List Scenario) → All P (l ++ m) → All P l
All-before P [] m a = tt
All-before P (t ∷ l) m a = (a.0, All-before P l m a.1)

All-behind : (P : Scenario → Type 0) (l m : List Scenario) → All P (l ++ m) → All P m
All-behind P [] m a = a
All-behind P (t ∷ l) m a = All-behind P l m a.1

at_shard-All :
    (P : Scenario → Type 0) (j : ℕ) (keys : List Bytes) (s : Scenario) (shards : List Shard)
    → P s
    → All P (shard_scenarios shards)
    → All P (shard_scenarios (at_shard j (add_to_shard s keys) shards))
unfolding shard_scenarios at_shard add_to_shard
at_shard-All P j keys s [] p a = tt
at_shard-All P zero keys s (x ∷ shards) p a =
    All-append P (x.scenarios ++ s ∷ []) (shard_scenarios shards)
      (All-append P x.scenarios (s ∷ []) (All-before P x.scenarios (shard_scenarios shards) a)
        (p, tt))
      (All-behind P x.scenarios (shard_scenarios shards) a)
at_shard-All P (suc j) keys s (x ∷ shards) p a =
    All-append P x.scenarios (shard_scenarios (at_shard j (add_to_shard s keys) shards))
      (All-before P x.scenarios (shard_scenarios shards) a)
      (at_shard-All P j keys s shards p (All-behind P x.scenarios (shard_scenarios shards) a))

-- The index of a shard holds what the shard holds.
abbrev InsideShard : Shard → Type 0
InsideShard x = (k : Bytes) → All (λ t. Among t x.scenarios) (filed_at k x.index)

add_to_shard-InsideShard :
    (s : Scenario) (keys : List Bytes) (x : Shard)
    → InsideShard x
    → InsideShard (add_to_shard s keys x)
unfolding add_to_shard
add_to_shard-InsideShard s keys x h =
    let l = x.scenarios ++ s ∷ [] in
    add_keys-All (λ t. Among t l) keys s x.index
      (Among-append_right s x.scenarios (s ∷ []) (inl refl))
      (λ k.
        All-map (λ t. Among t x.scenarios) (λ t. Among t l) (filed_at k x.index)
          (λ t m. Among-append_left t x.scenarios (s ∷ []) m) (h k))

at_shard-IsFiling :
    (n i j : ℕ) (l : List Scenario) (keys : List Bytes) (s : Scenario) (shards : List Shard)
    → IsSharded n l s
    → IsFiling n i l shards
    → IsFiling n i l (at_shard j (add_to_shard s keys) shards)
at_shard-IsFiling n i j l keys s shards p v =
    let size = length-at_shard j (add_to_shard s keys) shards in
    let low = v.size in
    record {
      size = omega (arith, size, low);
      held = at_shard-All (IsSharded n l) j keys s shards p v.held;
      inside = elim (ℕ_discrete i j) [
        | yes e ↦
            subst (λ (x : ℕ). InsideShard (shard_at i (at_shard x (add_to_shard s keys) shards))) e
              (subst InsideShard (sym (shard_at-same i (add_to_shard s keys) shards v.size))
                (add_to_shard-InsideShard s keys (shard_at i shards) v.inside))
        | no ne ↦
            subst InsideShard (sym (shard_at-other i j (add_to_shard s keys) shards ne)) v.inside
      ];
    }

add_entries-IsFiling :
    (n i : ℕ) (l : List Scenario) (entries : List (ℕ × List Bytes)) (s : Scenario)
    (shards : List Shard)
    → IsSharded n l s
    → IsFiling n i l shards
    → IsFiling n i l (add_entries s entries shards)
unfolding add_entries
add_entries-IsFiling n i l [] s shards p v = v
add_entries-IsFiling n i l ((j, keys) ∷ entries) s shards p v =
    add_entries-IsFiling n i l entries s (at_shard j (add_to_shard s keys) shards) p
      (at_shard-IsFiling n i j l keys s shards p v)

pub record IsLoaded (n i : ℕ) (l : List Scenario) (r : ShardedRegistry) : Type 0 where
  pub count : r.shard_count ≡ n
  pub filing : IsFiling n i l r.shards
  pub globals : All (λ t. Among t l) r.global_scenarios

place-IsLoaded :
    (n i : ℕ) (l : List Scenario) (o : Option (List (ℕ × List Bytes))) (s : Scenario)
    (r : ShardedRegistry)
    → placement n s ≡ o
    → Among s l
    → IsLoaded n i l r
    → IsLoaded n i l (place o s r)
unfolding add_global_scenario
place-IsLoaded n i l none s r e m v = record {
  count = v.count;
  filing = v.filing;
  globals = All-append (λ t. Among t l) r.global_scenarios (s ∷ []) v.globals (m, tt);
}
place-IsLoaded n i l (some entries) s r e m v = record {
  count = v.count;
  filing = add_entries-IsFiling n i l entries s r.shards (m, (entries, e)) v.filing;
  globals = v.globals;
}

pub index_scenario-is_place :
    (n i : ℕ) (l : List Scenario) (s : Scenario) (r : ShardedRegistry)
    → IsLoaded n i l r
    → index_scenario s r ≡ place (placement n s) s r
index_scenario-is_place n i l s r v =
    index_scenario-place s r ∙ ap (λ (c : ℕ). place (placement c s) s r) v.count

pub index_scenario-IsLoaded :
    (n i : ℕ) (l : List Scenario) (s : Scenario) (r : ShardedRegistry)
    → Among s l
    → IsLoaded n i l r
    → IsLoaded n i l (index_scenario s r)
index_scenario-IsLoaded n i l s r m v =
    subst (IsLoaded n i l) (sym (index_scenario-is_place n i l s r v))
      (place-IsLoaded n i l (placement n s) s r refl m v)

pub index_all-IsLoaded :
    (n i : ℕ) (l todo : List Scenario) (r : ShardedRegistry)
    → All (λ t. Among t l) todo
    → IsLoaded n i l r
    → IsLoaded n i l (index_all todo r)
unfolding index_all
index_all-IsLoaded n i l [] r a v = v
index_all-IsLoaded n i l (s ∷ todo) r a v =
    index_all-IsLoaded n i l todo (index_scenario s r) a.1 (index_scenario-IsLoaded n i l s r a.0 v)
