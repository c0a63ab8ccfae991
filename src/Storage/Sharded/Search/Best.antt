-- ===== src/Storage/Sharded/Search/Best.antt =====
-- internal/storage/sharded_scenario.go, `Match`: the steps of the search over shards, and what each of
-- them finds.
use icapmock.Prelude.{
  ◌≡◌, ◌⊎◌, refl, false, Option, none, some, List, ◌++◌, arith, inl, inr, All, All-append,
  Bool-cases,
}
use icapmock.Storage.Scenarios.{Scenario, Request, Progress, Environment}
use icapmock.Storage.Matching.Verdicts.{IsAlike}
use icapmock.Storage.Ranking.{outranks}
use icapmock.Storage.Ranking.Sorting.{All-map}
use icapmock.Storage.Sharded.{ShardedRegistry, unique_scenario_pointers, shard_scenarios}
use icapmock.Storage.Sharded.Search.{
  Scan, scanned, broke_off, ◌then_scan◌, scan, shard_candidates, match_in_shard, fallback_match,
  match_global_priority_candidates, or_fallback, match_sharded_and_fallback, prefer_global,
  apply_global_priority_candidate, search,
}
use icapmock.Storage.Registry.First.{IsRefused}
use icapmock.Storage.Sharded.Search.Choice.{
  Pick, picked, ◌then_pick◌, ScanEnds, Among, Among-append_left, Among-append_right, All-Among,
  not_above, pick, scan-pick, NotAbove, IsClear, IsBestOf, pick-IsBestOf,
}

-- The scenarios of all shards, as the fallback goes through them.
abbrev pub sharded_scenarios : ShardedRegistry → List Scenario
sharded_scenarios r = unique_scenario_pointers (shard_scenarios r.shards)

neither_above :
    (t g c : Scenario) → outranks t g ≡ false → outranks g c ≡ false → outranks t c ≡ false
unfolding outranks
neither_above t g c h k = ground arith

module _ (env : Environment) (req : Request) (p : Progress) where
  then_scan-ends :
      (k : Pick) (a : Scan) (f : Option Scenario → Pick) (g : Option Scenario → Progress → Scan)
      → ScanEnds env p k a
      → ((o : Option Scenario) (q : Progress) → IsAlike env p q → ScanEnds env p (f o) (g o q))
      → ScanEnds env p (k then_pick f) (a then_scan g)
  then_scan-ends k (scanned o q) f g h next = rw (h.0) (next o q h.1)
  then_scan-ends k (broke_off e q) f g h next = rw (h.0) (refl, h.1)

  module _ (r : ShardedRegistry) where
    -- Every scenario of the shards that is accepted is among the candidates of the request's shard, or
    -- none of these is accepted.
    abbrev pub IsCovered : Type 0
    IsCovered =
        All (IsRefused env req p) (shard_candidates r req)
        ⊎ All (λ t. IsRefused env req p t ⊎ Among t (shard_candidates r req)) (sharded_scenarios r)

    unfoldable pub fallback_choice : Option Scenario → Pick
    fallback_choice (some s) = picked (some s)
    fallback_choice none = pick env req p (sharded_scenarios r) none

    unfoldable pub global_choice : Option Scenario → Pick
    global_choice o =
        pick env req p r.global_scenarios none then_pick λ g. picked (prefer_global o g)

    fallback-ends :
        (o : Option Scenario) (q : Progress)
        → IsAlike env p q
        → ScanEnds env p (fallback_choice o) (or_fallback env r req o q)
    unfolding fallback_choice fallback_match
    fallback-ends (some s) q a = (refl, a)
    fallback-ends none q a = scan-pick env req p (sharded_scenarios r) none q a

    pub global-ends :
        (o : Option Scenario) (q : Progress)
        → IsAlike env p q
        → ScanEnds env p (global_choice o) (apply_global_priority_candidate env r req o q)
    unfolding global_choice apply_global_priority_candidate match_global_priority_candidates
    global-ends o q a =
        then_scan-ends (pick env req p r.global_scenarios none)
          (scan env req r.global_scenarios none q) (λ g. picked (prefer_global o g))
          (λ g q'. scanned (prefer_global o g) q') (scan-pick env req p r.global_scenarios none q a)
          (λ g q' b. (refl, b))

    pub sharded-ends :
        (q : Progress)
        → IsAlike env p q
        → ScanEnds env p
            (pick env req p (shard_candidates r req) none then_pick fallback_choice)
            (match_sharded_and_fallback env r req q)
    unfolding match_sharded_and_fallback match_in_shard
    sharded-ends q a =
        then_scan-ends (pick env req p (shard_candidates r req) none)
          (scan env req (shard_candidates r req) none q) fallback_choice (or_fallback env r req)
          (scan-pick env req p (shard_candidates r req) none q a) fallback-ends

    pub search-ends :
        (q : Progress)
        → IsAlike env p q
        → ScanEnds env p
            (pick env req p (shard_candidates r req) none
              then_pick fallback_choice
              then_pick global_choice)
            (search env r req q)
    search-ends q a =
        then_scan-ends (pick env req p (shard_candidates r req) none then_pick fallback_choice)
          (match_sharded_and_fallback env r req q) global_choice
          (apply_global_priority_candidate env r req) (sharded-ends q a) global-ends

    of_candidates :
        (s : Scenario)
        → IsBestOf env req p (shard_candidates r req) (some s)
        → All (λ t. Among t (sharded_scenarios r)) (shard_candidates r req)
        → IsCovered
        → IsBestOf env req p (sharded_scenarios r) (some s)
    of_candidates s h inside (inl a) = absurd (
        let e = All-Among (IsRefused env req p) s (shard_candidates r req) a h.0 in
        let v = h.1 in cc)
    of_candidates s h inside (inr a) = (
      All-Among (λ t. Among t (sharded_scenarios r)) s (shard_candidates r req) inside h.0,
      h.1,
      All-map (λ t. IsRefused env req p t ⊎ Among t (shard_candidates r req)) (NotAbove env req p s)
          (sharded_scenarios r)
          (λ t k. elim k [
            | inl e ↦ inl e
            | inr m ↦ All-Among (NotAbove env req p s) t (shard_candidates r req) h.2 m
          ])
          a,
    )

    pub fallback_choice-best :
        (o : Option Scenario)
        → IsBestOf env req p (shard_candidates r req) o
        → All (λ t. Among t (sharded_scenarios r)) (shard_candidates r req)
        → All (IsClear env req p) (sharded_scenarios r)
        → IsCovered
        → (o' : Option Scenario) × (fallback_choice o ≡ picked o')
          × IsBestOf env req p (sharded_scenarios r) o'
    unfolding fallback_choice
    fallback_choice-best (some s) h inside clear cover =
        (some s, refl, of_candidates s h inside cover)
    fallback_choice-best none h inside clear cover =
        pick-IsBestOf env req p (sharded_scenarios r) clear

  pub prefer_global-best :
      (l g : List Scenario) (o o' : Option Scenario)
      → IsBestOf env req p l o
      → IsBestOf env req p g o'
      → IsBestOf env req p (l ++ g) (prefer_global o o')
  unfolding prefer_global
  prefer_global-best l g none none h k = All-append (IsRefused env req p) l g h k
  prefer_global-best l g (some s) none h k = (
    Among-append_left s l g h.0,
    h.1,
    All-append (NotAbove env req p s) l g h.2
        (All-map (IsRefused env req p) (NotAbove env req p s) g (λ t e. inl e) k),
  )
  prefer_global-best l g none (some s) h k = (
    Among-append_right s l g k.0,
    k.1,
    All-append (NotAbove env req p s) l g
        (All-map (IsRefused env req p) (NotAbove env req p s) l (λ t e. inl e) h) k.2,
  )
  prefer_global-best l g (some c) (some s) h k = elim (Bool-cases (outranks s c)) [
    | inl e ↦ rw e (
      Among-append_right s l g k.0,
      k.1,
      All-append (NotAbove env req p s) l g
          (All-map (NotAbove env req p c) (NotAbove env req p s) l
            (λ t n. elim n [ inl v ↦ inl v | inr f ↦ inr (not_above s t c e f) ]) h.2)
          k.2,
    )
    | inr e ↦ rw e (
      Among-append_left c l g h.0,
      h.1,
      All-append (NotAbove env req p c) l g h.2 (
          All-map (NotAbove env req p s) (NotAbove env req p c) g
            (λ t n. elim n [ inl v ↦ inl v | inr f ↦ inr (neither_above t s c f e) ]) k.2),
    )
  ]
