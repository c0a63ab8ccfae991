-- ===== src/Storage/Sharded/Search/Agreement.antt =====
-- internal/storage: the search over shards finds the scenario that the base registry finds.
use icapmock.Prelude.{
  ℕ, ◌≡◌, ◌⊎◌, refl, ◌∙◌, sym, Bytes, ap, subst, false, none, some, List, [], ◌∷◌, ◌++◌, inl, inr,
  All,
}
use icapmock.Storage.Scenarios.{BodyPatternOptions, Scenario, Request, Progress, Environment}
use icapmock.Storage.Matching.{MatchError}
use icapmock.Storage.Matching.Verdicts.{accepted, broken, verdict}
use icapmock.Storage.Ranking.{outranks}
use icapmock.Storage.Ranking.Sorting.{IsApart, Pairwise, outranks_total, outranks_asym}
use icapmock.Storage.Registry.{MatchResult, found, not_found, Registry, match, match_request}
use icapmock.Storage.Registry.TakenOut.{IsRegistry}
use icapmock.Storage.Registry.First.{Explains, match_request-Explains}
use icapmock.Storage.Sharded.{ShardedRegistry, load_scenarios}
use icapmock.Storage.Sharded.Search.{match_uncached}
use icapmock.Storage.Registry.First.{IsRefused}
use icapmock.Storage.Sharded.Search.Choice.{
  Among, All-Among, outranks_irrefl, NotAbove, IsClear, IsBestOf,
}
use icapmock.Storage.Registry.Best.{AtMost, IsBest, match_request-IsBest}
use icapmock.Storage.Sharded.Filing.Searchable.{
  same_or_IsApart, IsCounted, IsReached, all_loaded, reached-Among, load-IsSearchable,
}
use icapmock.Storage.Sharded.Search.Found.{all_scenarios, under, Found, match_uncached-Found}

Among-split : (s : Scenario) (before behind : List Scenario) → Among s (before ++ s ∷ behind)
Among-split s [] behind = inl refl
Among-split s (t ∷ before) behind = inr (Among-split s before behind)

module _ (env : Environment) (req : Request) (p : Progress) where
  not_outranked :
      (s t : Scenario)
      → NotAbove env req p s t
      → verdict env t req p ≡ accepted
      → outranks t s ≡ false
  not_outranked s t (inl e) v = absurd (cc)
  not_outranked s t (inr e) v = e

  -- Of scenarios that are apart, a part that has the best one has no other best one.
  best_unique :
      (l m : List Scenario) (s t : Scenario)
      → Pairwise IsApart l
      → All (λ u. Among u l) m
      → Among s m
      → IsBestOf env req p l (some s)
      → IsBestOf env req p m (some t)
      → s ≡ t
  best_unique l m s t w m_in s_in h k =
      let t_in = All-Among (λ u. Among u l) t m m_in k.0 in
      elim (same_or_IsApart s t l w h.0 t_in) [
        | inl e ↦ e
        | inr a ↦
            let under_s = not_outranked s t (All-Among (NotAbove env req p s) t l h.2 t_in) k.1 in
            let under_t = not_outranked t s (All-Among (NotAbove env req p t) s m k.2 s_in) h.1 in
            absurd (let above = outranks_total s t a under_s in cc)
      ]

  AtMost-NotAbove :
      (s t : Scenario) → AtMost env req p s t → IsClear env req p t → NotAbove env req p s t
  AtMost-NotAbove s t (inl n) (inl v) = absurd (n v)
  AtMost-NotAbove s t (inl n) (inr v) = inl v
  AtMost-NotAbove s t (inr (inl e)) c =
      inr (subst (λ (u : Scenario). outranks u s ≡ false) (sym e) (outranks_irrefl s))
  AtMost-NotAbove s t (inr (inr o)) c = inr (outranks_asym s t o)

  All-NotAbove :
      (s : Scenario) (l : List Scenario)
      → All (AtMost env req p s) l
      → All (IsClear env req p) l
      → All (NotAbove env req p s) l
  All-NotAbove s [] a c = tt
  All-NotAbove s (t ∷ l) a c = (AtMost-NotAbove s t a.0 c.0, All-NotAbove s l a.1 c.1)

  clear_not_broken :
      (s : Scenario) (e : MatchError) → IsClear env req p s → verdict env s req p ≡ broken e → ⊥
  clear_not_broken s e (inl v) b = cc
  clear_not_broken s e (inr v) b = cc

  base_best :
      (l : List Scenario) (d : Scenario) (res : MatchResult)
      → All (IsClear env req p) l
      → Among d l
      → verdict env d req p ≡ accepted
      → Explains env req p l 0 res
      → IsBest env req p l res
      → (s : Scenario) × (q : Progress) × (res ≡ found s q) × IsBestOf env req p l (some s)
  base_best l d (found s q) c m v (before, behind, e, a, w, k) b =
      let inside = subst (Among s) (sym e) (Among-split s before behind) in
      (s, q, refl, (inside, w, All-NotAbove s l b c))
  base_best l d (not_found e q) c m v (inl (f, a, k)) b =
      absurd (let r = All-Among (IsRefused env req p) d l a m in cc)
  base_best l d (not_found e q) c m v (inr (before, s, behind, f, a, w, k)) b = absurd (
      clear_not_broken s e
        (All-Among (IsClear env req p) s l c
          (subst (Among s) (sym f) (Among-split s before behind)))
        w)

  Found-IsBestOf :
      (l : List Scenario) (d s : Scenario)
      → Among d l
      → verdict env d req p ≡ accepted
      → Found env req p l s
      → IsBestOf env req p l (some s)
  Found-IsBestOf l d s m v (inl b) = b
  Found-IsBestOf l d s m v (inr (a, e)) =
      absurd (let r = All-Among (IsRefused env req p) d l a m in cc)

match-under :
    (env : Environment) (r : Registry) (o : BodyPatternOptions) (req : Request) (p : Progress)
    → r.body_pattern ≡ o
    → match env r (some req) p ≡ match_request (under env o) r.scenarios (some req) p
unfolding match
match-under env r o req p e =
    ap (λ (b : BodyPatternOptions). match_request (under env b) r.scenarios (some req) p) e

module _ (env : Environment) (req : Request) (p : Progress) (count : ℕ) (l : List Scenario)
    (reach : All (λ t. IsRefused env req p t ⊎ IsReached count req t) l) where
  accepted-IsReached :
      (t : Scenario) → Among t l → verdict env t req p ≡ accepted → IsReached count req t
  accepted-IsReached t m v =
      elim (All-Among (λ u. IsRefused env req p u ⊎ IsReached count req u) t l reach m) [
        | inl out ↦ absurd (cc)
        | inr filed ↦ filed
      ]

-- With the match cache off, a sharded registry that has loaded the scenarios of a base registry, under
-- the same body_pattern options, finds the scenario that the base registry finds, where no verdict
-- is a body_pattern error, some scenario is accepted, each scenario that is not refused has been
-- filed as global or in the request's shard under a key the request is searched under, the
-- sharded registry has at least one shard and as many as it counts, and the context is not
-- cancelled.
pub match_uncached-match :
    (env : Environment) (path : Bytes) (start : ShardedRegistry) (base : Registry) (req : Request)
    (p : Progress) (d : Scenario)
    → p.alive ≡ none
    → base.body_pattern ≡ (load_scenarios path base.scenarios start).body_pattern
    → IsRegistry base
    → IsCounted start
    → All (IsClear (under env base.body_pattern) req p) base.scenarios
    → All
        (λ t. IsRefused (under env base.body_pattern) req p t ⊎ IsReached start.shard_count req t)
        base.scenarios
    → Among d base.scenarios
    → verdict (under env base.body_pattern) d req p ≡ accepted
    → (s : Scenario) × (q q' : Progress) × (match_uncached env
          (load_scenarios path base.scenarios start)
          (some req)
          p
        ≡ found s q)
      × (match env base (some req) p ≡ found s q')
match_uncached-match env path start base req p d h same v sized clear reach m w =
    let l = base.scenarios in
    let r = load_scenarios path l start in
    let e = under env base.body_pattern in
    let e' = under env r.body_pattern in
    let env_same : e ≡ e' = ap (under env) same in
    let clear' = subst (λ x. All (IsClear x req p) l) env_same clear in
    let reach' =
      subst (λ x. All (λ t. IsRefused x req p t ⊎ IsReached start.shard_count req t) l) env_same
        reach in
    let w' = subst (λ x. verdict x d req p ≡ accepted) env_same w in
    let held : (t : Scenario)
        → Among t l
        → verdict e' t req p ≡ accepted
        → Among t (all_scenarios r) =
      λ t i a.
        reached-Among path l start req sized v.apart t i
          (accepted-IsReached e' req p start.shard_count l reach' t i a) in
    let (s, q', found_base, best_base) =
      base_best e' req p l d (match_request e' l (some req) p) clear' m w'
        (match_request-Explains e' req p l h) (match_request-IsBest e' req p l h v.ranked) in
    let (t, q, found_here, f) =
      match_uncached-Found env r req p h
        (load-IsSearchable path l start req sized v.apart e' p clear' reach') in
    let best_here = Found-IsBestOf e' req p (all_scenarios r) d t (held d m w') w' f in
    let one : s ≡ t =
      best_unique e' req p l (all_scenarios r) s t v.apart
        (all_loaded path l start req sized v.apart) (held s best_base.0 best_base.1) best_base
        best_here in
    (
      s,
      q,
      q',
      found_here ∙ ap (λ (u : Scenario). found u q) (sym one),
      match-under env base r.body_pattern req p same ∙ found_base,
    )
