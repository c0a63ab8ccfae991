-- ===== src/Storage/Sharded/Search/Found.antt =====
-- internal/storage/sharded_scenario.go, `Match`: the search over shards finds the best scenario.
use icapmock.Prelude.{◌≡◌, ◌⊎◌, refl, subst, Option, none, some, List, ◌++◌, inl, inr, All}
use icapmock.Storage.Scenarios.{
  BodyPatternOptions, Scenario, Request, Progress, Environment, default_scenario,
}
use icapmock.Storage.Matching.Verdicts.{IsAlike}
use icapmock.Storage.Ranking.Sorting.{All-map}
use icapmock.Storage.Registry.{found}
use icapmock.Storage.Registry.First.{poll-alive}
use icapmock.Storage.Sharded.{ShardedRegistry}
use icapmock.Storage.Sharded.Search.{
  Scan, scanned, broke_off, shard_candidates, prefer_global, search, finish, match_uncached,
}
use icapmock.Storage.Registry.First.{IsRefused}
use icapmock.Storage.Sharded.Search.Choice.{
  Pick, picked, ◌then_pick◌, ScanEnds, Among, All-Among, pick, IsClear, IsBestOf, pick-IsBestOf,
}
use icapmock.Storage.Sharded.Search.Best.{
  sharded_scenarios, IsCovered, fallback_choice, global_choice, search-ends, fallback_choice-best,
  prefer_global-best,
}

abbrev pub all_scenarios : ShardedRegistry → List Scenario
all_scenarios r = sharded_scenarios r ++ r.global_scenarios

abbrev pub under : Environment → BodyPatternOptions → Environment
under env options = record env { options = options }

module _ (env : Environment) (req : Request) (p : Progress) (r : ShardedRegistry) where
  -- What the search relies on: the index of a shard holds scenarios of the registry, no verdict is an
  -- error, and the request's shard covers the scenarios that are accepted.
  pub record IsSearchable : Type 0 where
    pub inside : All (λ t. Among t (sharded_scenarios r)) (shard_candidates r req)
    pub clear_shards : All (IsClear env req p) (sharded_scenarios r)
    pub clear_global : All (IsClear env req p) r.global_scenarios
    pub covered : IsCovered env req p r

  scanned_of :
      (o : Option Scenario) (a : Scan)
      → ScanEnds env p (picked o) a
      → (q : Progress) × (a ≡ scanned o q) × IsAlike env p q
  scanned_of o (scanned o' q) h = (q, cc, h.1)
  scanned_of o (broke_off e q) h = absurd (let f = h.0 in cc)

  search-IsBestOf :
      p.alive ≡ none
      → IsSearchable
      → (o : Option Scenario) × (q : Progress) × (search env r req p ≡ scanned o q)
        × IsAlike env p q
        × IsBestOf env req p (all_scenarios r) o
  unfolding global_choice
  search-IsBestOf h s =
      let clear =
        All-map (λ t. Among t (sharded_scenarios r)) (IsClear env req p) (shard_candidates r req)
          (λ t m. All-Among (IsClear env req p) t (sharded_scenarios r) s.clear_shards m)
          s.inside in
      let (a, ea, ba) = pick-IsBestOf env req p (shard_candidates r req) clear in
      let (b, eb, bb) = fallback_choice-best env req p r a ba s.inside s.clear_shards s.covered in
      let (g, eg, bg) = pick-IsBestOf env req p r.global_scenarios s.clear_global in
      let o = prefer_global b g in
      let ends = search-ends env req p r p (h, refl, refl) in
      let choice : (pick env req p (shard_candidates r req) none
            then_pick fallback_choice env req p r
            then_pick global_choice env req p r)
          ≡ picked o =
        rw (ea, eb, eg) refl in
      let (q, e, k) =
        scanned_of o (search env r req p)
          (subst (λ (c : Pick). ScanEnds env p c (search env r req p)) choice ends) in
      (o, q, e, k, prefer_global-best env req p (sharded_scenarios r) r.global_scenarios b g bb bg)

abbrev pub Found : Environment → Request → Progress → List Scenario → Scenario → Type 0
Found env req p l s =
    IsBestOf env req p l (some s) ⊎ (All (IsRefused env req p) l × (s ≡ default_scenario))

finish_of :
    (env : Environment) (req : Request) (p : Progress) (l : List Scenario) (o : Option Scenario)
    (q : Progress)
    → q.alive ≡ none
    → IsBestOf env req p l o
    → (s : Scenario) × (finish (scanned o q) ≡ found s q) × Found env req p l s
finish_of env req p l none q a b = (default_scenario, refl, inr (b, refl))
finish_of env req p l (some s) q a b = (s, rw (poll-alive q a) refl, inl b)

-- In a registry that is searchable for the request, with a context that is not cancelled and the
-- cache off, the search over the shards finds a scenario: an accepted one that no accepted scenario
-- of the whole registry outranks, or the default one if every scenario is refused.
pub match_uncached-Found :
    (env : Environment) (r : ShardedRegistry) (req : Request) (p : Progress)
    → p.alive ≡ none
    → IsSearchable (under env r.body_pattern) req p r
    → (s : Scenario) × (q : Progress) × (match_uncached env r (some req) p ≡ found s q)
      × Found (under env r.body_pattern) req p (all_scenarios r) s
unfolding match_uncached
match_uncached-Found env r req p h k =
    let env' = under env r.body_pattern in
    let (o, q, e, a, b) = search-IsBestOf env' req p r h k in
    let (s, f, found_s) = finish_of env' req p (all_scenarios r) o q a.0 b in
    (s, q, rw (poll-alive p h) (rw e f), found_s)
