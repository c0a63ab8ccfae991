-- ===== src/Storage/Registry/First.antt =====
-- internal/storage/scenario.go, `Match`: which scenario is found.
use icapmock.Prelude.{
  ℕ, suc, ◌≡◌, ◌⊎◌, refl, ◌∙◌, ap, Option, none, some, List, [], ◌∷◌, ◌++◌, arith, inl, inr, All,
  ◌+◌, length,
}
use icapmock.Storage.Scenarios.{Scenario, Request, Progress, Environment}
use icapmock.Storage.Matching.{
  no_match, Check, passed, rejected, failed, poll, poll_from, matches_scenario,
}
use icapmock.Storage.Matching.Verdicts.{
  accepted, refused, broken, verdict, IsAlike, Ends, matches_scenario-Ends,
}
use icapmock.Storage.Registry.{
  MatchResult, found, not_found, match_from, match_request, continue_with,
}

pub poll-alive : (p : Progress) → p.alive ≡ none → poll p ≡ passed p
unfolding poll
poll-alive p h = ap (λ (o : Option ℕ). poll_from o p) h

module _ (env : Environment) (req : Request) (p : Progress) where
  abbrev pub IsRefused : Scenario → Type 0
  IsRefused s = verdict env s req p ≡ refused

  -- The scenarios in front of the one that ends the search have been refused.
  abbrev pub Explains : List Scenario → ℕ → MatchResult → Type 0
  Explains l n (found s p') =
      (before behind : List Scenario) × (l ≡ before ++ s ∷ behind)
      × All IsRefused before
      × (verdict env s req p ≡ accepted)
      × IsAlike env p p'
  Explains l n (not_found e p') =
      ((e ≡ no_match (n + length l) req.method req.uri) × All IsRefused l × IsAlike env p p')
      ⊎ ((before : List Scenario) × (s : Scenario) × (behind : List Scenario) × (l
            ≡ before ++ s ∷ behind)
          × All IsRefused before
          × (verdict env s req p ≡ broken e)
          × IsAlike env p p')

  Explains-behind :
      (s : Scenario) (l : List Scenario) (n : ℕ) (r : MatchResult)
      → IsRefused s
      → Explains l (suc n) r
      → Explains (s ∷ l) n r
  Explains-behind s l n (found t q) h (before, behind, e, a, v, k) =
      (s ∷ before, behind, ap (λ (m : List Scenario). s ∷ m) e, (h, a), v, k)
  Explains-behind s l n (not_found e q) h (inl (m, a, k)) =
      inl (m ∙ ap (λ (c : ℕ). no_match c req.method req.uri) (omega arith), (h, a), k)
  Explains-behind s l n (not_found e q) h (inr (before, t, behind, m, a, v, k)) =
      inr (s ∷ before, t, behind, ap (λ (m : List Scenario). s ∷ m) m, (h, a), v, k)

  Explains-continued :
      (s : Scenario) (l : List Scenario) (n : ℕ) (c : Check)
      → ((q : Progress) → IsAlike env p q → Explains l (suc n) (match_from env l (suc n) req q))
      → Ends env p (verdict env s req p) c
      → Explains (s ∷ l) n (continue_with s (match_from env l (suc n) req) c)
  Explains-continued s l n (passed q) ih h = ([], l, refl, tt, h.0, h.1)
  Explains-continued s l n (failed e q) ih h = inr ([], s, l, refl, tt, h.0, h.1)
  Explains-continued s l n (rejected q) ih h =
      Explains-behind s l n (match_from env l (suc n) req q) h.0 (ih q h.1)

  match_from-Explains :
      (l : List Scenario) (n : ℕ) (q : Progress)
      → IsAlike env p q
      → Explains l n (match_from env l n req q)
  unfolding match_from
  match_from-Explains [] n q a =
      inl (ap (λ (c : ℕ). no_match c req.method req.uri) (omega arith), tt, a)
  match_from-Explains (s ∷ l) n q a =
      rw (poll-alive q a.0, match_from)
        (Explains-continued s l n (matches_scenario env s req q)
          (λ q' a'. match_from-Explains l (suc n) q' a') (matches_scenario-Ends env p s req q a))

-- With a context that is not cancelled, the search finds the first scenario of the list that is not
-- refused: it returns it if it is accepted, the error of its body_pattern if that is broken, and
-- the error that counts all scenarios if there is none. The verdicts are those by the bodies at the
-- start, whatever the scenarios tried before did to the captures and the bodies.
pub match_request-Explains :
    (env : Environment) (req : Request) (p : Progress) (l : List Scenario)
    → p.alive ≡ none
    → Explains env req p l 0 (match_request env l (some req) p)
unfolding match_request
match_request-Explains env req p l h =
    rw (poll-alive p h) (match_from-Explains env req p l 0 p (h, refl, refl))
