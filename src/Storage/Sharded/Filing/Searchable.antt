-- ===== src/Storage/Sharded/Filing/Searchable.antt =====
-- internal/storage/sharded_scenario.go: a loaded registry can be searched for the scenarios it reaches.
use native.Mathlib.Nat.{mod-lt}
use icapmock.Prelude.{
  ℕ, zero, suc, ◌<◌, ◌≡◌, ◌⊎◌, refl, ◌∙◌, sym, ap, subst, true, List, [], ◌∷◌, map, arith, Bytes,
  length, inl, inr, All, All-append,
}
use icapmock.Prelude.Maps.{lookup}
use icapmock.Storage.HeaderRules.{member}
use icapmock.Storage.Scenarios.{Scenario, Request, Progress, Environment}
use icapmock.Storage.Ranking.Sorting.{All-map, IsApart, IsApart-sym, Pairwise}
use icapmock.Storage.Registry.First.{IsRefused}
use icapmock.Storage.ShardKeys.{hash_string, shard_for_request}
use icapmock.Storage.Sharded.{
  Shard, ShardedRegistry, load_scenarios, shard_scenarios, unique_scenario_pointers,
}
use icapmock.Storage.Sharded.Search.{build_search_keys, indexed, shard_at, shard_candidates}
use icapmock.Storage.Sharded.Search.Choice.{
  Among, All-Among, Among-append_left, Among-append_right, IsClear,
}
use icapmock.Storage.Sharded.Search.Best.{sharded_scenarios}
use icapmock.Storage.Sharded.Search.Found.{all_scenarios, IsSearchable}
use icapmock.Storage.Sharded.Filing.{filed_at, indexed-Among, indexed-All}
use icapmock.Storage.Sharded.Filing.Unique.{unique-All, unique-Among}
use icapmock.Storage.Sharded.Filing.Loaded.{placement, IsSharded, IsLoaded, index_all-IsLoaded}
use icapmock.Storage.Sharded.Filing.Reached.{
  Reached, reached_by, index_all-Reached, index_all-Filed,
}

pub same_or_IsApart :
    (s t : Scenario) (l : List Scenario)
    → Pairwise IsApart l
    → Among s l
    → Among t l
    → (s ≡ t) ⊎ IsApart s t
same_or_IsApart s t [] w h k = absurd h
same_or_IsApart s t (u ∷ l) w (inl e) (inl f) = inl (e ∙ sym f)
same_or_IsApart s t (u ∷ l) w (inl e) (inr k) =
    inr (subst (λ (v : Scenario). IsApart v t) (sym e) (All-Among (IsApart u) t l w.0 k))
same_or_IsApart s t (u ∷ l) w (inr h) (inl f) = inr (
    subst (λ (v : Scenario). IsApart s v) (sym f)
      (IsApart-sym u s (All-Among (IsApart u) s l w.0 h)))
same_or_IsApart s t (u ∷ l) w (inr h) (inr k) = same_or_IsApart s t l w.1 h k

All-self : (l : List Scenario) → All (λ t. Among t l) l
All-self [] = tt
All-self (s ∷ l) =
    (inl refl, All-map (λ t. Among t l) (λ t. Among t (s ∷ l)) l (λ t m. inr m) (All-self l))

abbrev no_items : Shard
no_items = record { index = []; scenarios = [] }

emptied_index :
    (i : ℕ) (shards : List Shard) → (shard_at i (map (λ (s : Shard). no_items) shards)).index ≡ []
unfolding shard_at
emptied_index i [] = refl
emptied_index zero (s ∷ shards) = refl
emptied_index (suc i) (s ∷ shards) = emptied_index i shards

emptied_scenarios :
    (shards : List Shard) → shard_scenarios (map (λ (s : Shard). no_items) shards) ≡ []
unfolding shard_scenarios
emptied_scenarios [] = refl
emptied_scenarios (s ∷ shards) = emptied_scenarios shards

length-emptied :
    (shards : List Shard) → length (map (λ (s : Shard). no_items) shards) ≡ length shards
length-emptied [] = refl
length-emptied (s ∷ shards) = ap suc (length-emptied shards)

abbrev cleared : ShardedRegistry → ShardedRegistry
cleared r = record r { shards = map (λ (s : Shard). no_items) r.shards; global_scenarios = [] }

cleared-IsLoaded :
    (i : ℕ) (l : List Scenario) (r : ShardedRegistry)
    → i < length r.shards
    → IsLoaded r.shard_count i l (cleared r)
unfolding lookup
cleared-IsLoaded i l r low = record {
  count = refl;
  filing = record {
    size = let e = length-emptied r.shards in omega (arith, e, low);
    held = subst (All (IsSharded r.shard_count l)) (sym (emptied_scenarios r.shards)) tt;
    inside = λ k.
        subst
          (λ (x : List (Bytes × List Scenario)).
            All (λ t. Among t (shard_at i (cleared r).shards).scenarios) (filed_at k x))
          (sym (emptied_index i r.shards)) tt;
  };
  globals = tt;
}

shard_at-Among :
    (i : ℕ) (shards : List Shard) (t : Scenario)
    → Among t (shard_at i shards).scenarios
    → Among t (shard_scenarios shards)
unfolding shard_at shard_scenarios
shard_at-Among i [] t h = h
shard_at-Among zero (s ∷ shards) t h = Among-append_left t s.scenarios (shard_scenarios shards) h
shard_at-Among (suc i) (s ∷ shards) t h =
    Among-append_right t s.scenarios (shard_scenarios shards) (shard_at-Among i shards t h)

-- The registry has the shards that it counts, and one at least.
pub record IsCounted (r : ShardedRegistry) : Type 0 where
  pub many : 0 < r.shard_count
  pub all : length r.shards ≡ r.shard_count

shard_for_request_below : (n : ℕ) (req : Request) → 0 < n → shard_for_request n req < n
unfolding shard_for_request hash_string
shard_for_request_below n req h = mod-lt _ h

-- Loading puts the scenario in the global list, or files it in the shard of the request under a key that
-- the request is searched under.
abbrev pub IsReached : ℕ → Request → Scenario → Type 0
IsReached count req t =
    reached_by (shard_for_request count req) (build_search_keys req) (placement count t) ≡ true

module _ (path : Bytes) (l : List Scenario) (start : ShardedRegistry) (req : Request)
    (sized : IsCounted start) (apart : Pairwise IsApart l) where
  abbrev loaded_registry : ShardedRegistry
  loaded_registry = load_scenarios path l start

  abbrev request_shard : ℕ
  request_shard = shard_for_request start.shard_count req

  in_range : request_shard < length start.shards
  in_range =
      let low = shard_for_request_below start.shard_count req sized.many in
      let e = sized.all in omega (arith, low, e)

  loaded_registry-IsLoaded : IsLoaded start.shard_count request_shard l loaded_registry
  unfolding load_scenarios
  loaded_registry-IsLoaded =
      let v =
        index_all-IsLoaded start.shard_count request_shard l l (cleared start) (All-self l)
          (cleared-IsLoaded request_shard l start in_range) in
      record { count = v.count; filing = v.filing; globals = v.globals }

  loaded_registry-Reached :
      (t : Scenario)
      → Among t l
      → IsReached start.shard_count req t
      → Reached request_shard (build_search_keys req) t loaded_registry
  unfolding load_scenarios
  loaded_registry-Reached t m h =
      index_all-Reached start.shard_count request_shard (build_search_keys req) l l t
        (cleared start) (All-self l) (cleared-IsLoaded request_shard l start in_range) m h

  abbrev shard_list : List Scenario
  shard_list = indexed (build_search_keys req) (shard_at request_shard loaded_registry.shards).index

  candidates_are : shard_candidates loaded_registry req ≡ unique_scenario_pointers shard_list
  unfolding shard_candidates
  candidates_are =
      ap
        (λ (c : ℕ). unique_scenario_pointers (
          indexed (build_search_keys req)
            (shard_at (shard_for_request c req) loaded_registry.shards).index))
        loaded_registry-IsLoaded.count

  shard_list-held : All (λ t. Among t (shard_scenarios loaded_registry.shards)) shard_list
  shard_list-held =
      let x = shard_at request_shard loaded_registry.shards in
      All-map (λ t. Among t x.scenarios) (λ t. Among t (shard_scenarios loaded_registry.shards))
        shard_list (λ t m. shard_at-Among request_shard loaded_registry.shards t m)
        (indexed-All (λ t. Among t x.scenarios) (build_search_keys req) x.index
          loaded_registry-IsLoaded.filing.inside)

  abbrev held : List Scenario
  held = shard_scenarios loaded_registry.shards

  held_in_list : (t : Scenario) → Among t held → Among t l
  held_in_list t m =
      (All-Among (IsSharded start.shard_count l) t held loaded_registry-IsLoaded.filing.held m).0

  -- Scenarios of the list are the same as one of them, or apart from it.
  told-IsApart :
      (t : Scenario) (m : List Scenario)
      → Among t l
      → All (λ u. Among u l) m
      → All (λ u. (u ≡ t) ⊎ IsApart u t) m
  told-IsApart t m h a =
      All-map (λ u. Among u l) (λ u. (u ≡ t) ⊎ IsApart u t) m
        (λ u k. same_or_IsApart u t l apart k h) a

  held_all : All (λ u. Among u l) held
  held_all =
      All-map (IsSharded start.shard_count l) (λ u. Among u l) held (λ u k. k.0)
        loaded_registry-IsLoaded.filing.held

  sharded-Among : (t : Scenario) → Among t held → Among t (sharded_scenarios loaded_registry)
  sharded-Among t m = unique-Among held t (told-IsApart t held (held_in_list t m) held_all) m

  candidate-Among :
      (t : Scenario) → Among t shard_list → Among t (shard_candidates loaded_registry req)
  candidate-Among t m =
      let in_list = λ (u : Scenario) (k : Among u held). held_in_list u k in
      let a = All-map (λ u. Among u held) (λ u. Among u l) shard_list in_list shard_list-held in
      subst (Among t) (sym candidates_are) (
        unique-Among shard_list t
          (told-IsApart t shard_list (All-Among (λ u. Among u l) t shard_list a m) a) m)

  filed-Among :
      (t : Scenario) (k : Bytes)
      → member k (build_search_keys req) ≡ true
      → Among t (filed_at k (shard_at request_shard loaded_registry.shards).index)
      → Among t shard_list
  filed-Among t k m f =
      indexed-Among (build_search_keys req) k t
        (shard_at request_shard loaded_registry.shards).index m f

  -- All scenarios are from the list, and those that are reached are among them.
  pub all_loaded : All (λ t. Among t l) (all_scenarios loaded_registry)
  all_loaded =
      All-append (λ t. Among t l) (sharded_scenarios loaded_registry)
        loaded_registry.global_scenarios (unique-All (λ t. Among t l) held held_all)
        loaded_registry-IsLoaded.globals

  pub reached-Among :
      (t : Scenario)
      → Among t l
      → IsReached start.shard_count req t
      → Among t (all_scenarios loaded_registry)
  reached-Among t m h = elim (loaded_registry-Reached t m h) [
    | inl g ↦
        Among-append_right t (sharded_scenarios loaded_registry) loaded_registry.global_scenarios g
    | inr (k, n, f) ↦
        Among-append_left t (sharded_scenarios loaded_registry) loaded_registry.global_scenarios (
          sharded-Among t
            (All-Among (λ u. Among u held) t shard_list shard_list-held (filed-Among t k n f)))
  ]

  -- A scenario of the shards that is reached is a candidate.
  reached_candidate :
      (t : Scenario)
      → IsSharded start.shard_count l t
      → IsReached start.shard_count req t
      → Among t (shard_candidates loaded_registry req)
  unfolding load_scenarios
  reached_candidate t (m, (entries, e)) h =
      let (k, n, f) =
        index_all-Filed start.shard_count request_shard (build_search_keys req) l l t entries
          (cleared start) (All-self l) (cleared-IsLoaded request_shard l start in_range) m e
          (ap (reached_by request_shard (build_search_keys req)) (sym e) ∙ h) in
      candidate-Among t (filed-Among t k n f)

  pub load-IsSearchable :
      (env : Environment) (p : Progress)
      → All (IsClear env req p) l
      → All (λ t. IsRefused env req p t ⊎ IsReached start.shard_count req t) l
      → IsSearchable env req p loaded_registry
  load-IsSearchable env p clear reach = record {
    inside = subst (All (λ t. Among t (sharded_scenarios loaded_registry))) (sym candidates_are) (
        unique-All (λ t. Among t (sharded_scenarios loaded_registry)) shard_list
          (All-map (λ t. Among t held) (λ t. Among t (sharded_scenarios loaded_registry)) shard_list
            sharded-Among shard_list-held));
    clear_shards =
        All-map (λ t. Among t l) (IsClear env req p) (sharded_scenarios loaded_registry)
          (λ t m. All-Among (IsClear env req p) t l clear m)
          (unique-All (λ t. Among t l) held held_all);
    clear_global =
        All-map (λ t. Among t l) (IsClear env req p) loaded_registry.global_scenarios
          (λ t m. All-Among (IsClear env req p) t l clear m) loaded_registry-IsLoaded.globals;
    covered = inr (
        All-map (IsSharded start.shard_count l)
          (λ t. IsRefused env req p t ⊎ Among t (shard_candidates loaded_registry req))
          (sharded_scenarios loaded_registry)
          (λ t k.
            elim (All-Among (λ u. IsRefused env req p u ⊎ IsReached start.shard_count req u) t l
              reach k.0) [ inl out ↦ inl out | inr filed ↦ inr (reached_candidate t k filed) ])
          (unique-All (IsSharded start.shard_count l) held loaded_registry-IsLoaded.filing.held));
  }
