-- ===== src/Storage/Registry/Best.antt =====
-- internal/storage/scenario.go, `Match`: the scenario that is found is the one of the highest rank.
use icapmock.Prelude.{◌≡◌, ◌≢◌, ◌⊎◌, refl, none, some, List, [], ◌∷◌, ◌++◌, inl, inr, All}
use icapmock.Storage.Scenarios.{Scenario, Request, Progress, Environment}
use icapmock.Storage.Matching.Verdicts.{accepted, verdict}
use icapmock.Storage.Ranking.Sorting.{Pairwise, Outranks, All-map}
use icapmock.Storage.Registry.{MatchResult, found, not_found, match_request}
use icapmock.Storage.Registry.{Registry, match}
use icapmock.Storage.Registry.TakenOut.{IsRegistry}
use icapmock.Storage.Registry.First.{IsRefused, Explains, match_request-Explains}

abbrev pub AtMost : Environment → Request → Progress → Scenario → Scenario → Type 0
AtMost env req p s t = (verdict env t req p ≢ accepted) ⊎ (t ≡ s) ⊎ Outranks s t

AtMost-split :
    (env : Environment) (req : Request) (p : Progress) (s : Scenario)
    (before behind : List Scenario)
    → All (IsRefused env req p) before
    → Pairwise Outranks (before ++ s ∷ behind)
    → All (AtMost env req p s) (before ++ s ∷ behind)
AtMost-split env req p s [] behind a w =
    (inr (inl refl), All-map (Outranks s) (AtMost env req p s) behind (λ t h. inr (inr h)) w.0)
AtMost-split env req p s (b ∷ before) behind a w =
    (inl (λ h. cc (a.0)), AtMost-split env req p s before behind a.1 w.1)

abbrev pub IsBest : Environment → Request → Progress → List Scenario → MatchResult → Type 0
IsBest env req p l (found s p') = All (AtMost env req p s) l
IsBest env req p l (not_found e p') = Unit

IsBest-of_Explains :
    (env : Environment) (req : Request) (p : Progress) (l : List Scenario) (r : MatchResult)
    → Pairwise Outranks l
    → Explains env req p l 0 r
    → IsBest env req p l r
IsBest-of_Explains env req p l (found s p') w (before, behind, e, a, v, k) =
    rw e (AtMost-split env req p s before behind a (rw e at w))
IsBest-of_Explains env req p l (not_found e p') w h = tt

pub match_request-IsBest :
    (env : Environment) (req : Request) (p : Progress) (l : List Scenario)
    → p.alive ≡ none
    → Pairwise Outranks l
    → IsBest env req p l (match_request env l (some req) p)
match_request-IsBest env req p l h w =
    IsBest-of_Explains env req p l (match_request env l (some req) p) w
      (match_request-Explains env req p l h)

-- In a registry whose scenarios are sorted by rank, with a context that is not cancelled: the
-- scenario that `Match` finds outranks every other scenario of the registry that is accepted. The
-- verdicts are those under the registry's own body_pattern options.
pub match-IsBest :
    (env : Environment) (r : Registry) (req : Request) (p : Progress)
    → p.alive ≡ none
    → IsRegistry r
    → IsBest (record env { options = r.body_pattern }) req p r.scenarios (match env r (some req) p)
unfolding match
match-IsBest env r req p h v =
    match_request-IsBest (record env { options = r.body_pattern }) req p r.scenarios h v.ranked
