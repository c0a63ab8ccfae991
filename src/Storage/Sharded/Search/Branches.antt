-- ===== src/Storage/Sharded/Search/Branches.antt =====
-- internal/storage/sharded_scenario.go, `Match`: the branch that the request carries afterwards is that of
-- the last candidate that matched.
use icapmock.Prelude.{◌≡◌, refl, Option, none, some, List, [], ◌∷◌, ◌++◌, ℕ}
use icapmock.Storage.Scenarios.{Scenario, Request, Progress, Environment}
use icapmock.Storage.Matching.{Check, passed, rejected, failed, matches_scenario}
use icapmock.Storage.Matching.Verdicts.{
  Verdict, accepted, verdict, IsAlike, Ends, matches_scenario-Ends,
}
use icapmock.Storage.Matching.Selected.{Selects, branch_of, matches_scenario-Selects}
use icapmock.Storage.Registry.{MatchResult, found, not_found}
use icapmock.Storage.Registry.First.{poll-alive}
use icapmock.Storage.Sharded.{ShardedRegistry}
use icapmock.Storage.Sharded.Search.{
  Scan, scanned, broke_off, ◌then_scan◌, better, scan_with, scan, prefer_global,
  match_global_priority_candidates, apply_global_priority_candidate, match_sharded_and_fallback,
  search, finish, match_uncached,
}
use icapmock.Storage.Sharded.Search.Choice.{Pick, ScanEnds}
use icapmock.Storage.Sharded.Search.Best.{global_choice, global-ends, sharded-ends}
use icapmock.Storage.Sharded.Search.Found.{under}

abbrev ScanLeaves : Option ℕ → Scan → Type 0
ScanLeaves b (scanned o p) = p.matched_branch ≡ b
ScanLeaves b (broke_off e p) = Unit

abbrev ScanIsAlike : Environment → Progress → Scan → Type 0
ScanIsAlike env p (scanned o q) = IsAlike env p q
ScanIsAlike env p (broke_off e q) = Unit

ends_alike :
    (env : Environment) (p : Progress) (k : Pick) (a : Scan)
    → ScanEnds env p k a
    → ScanIsAlike env p a
ends_alike env p k (scanned o q) h = h.1
ends_alike env p k (broke_off e q) h = tt

abbrev pub LeavesBranch : Option ℕ → MatchResult → Type 0
LeavesBranch b (found s q) = q.matched_branch ≡ b
LeavesBranch b (not_found e q) = Unit

module _ (env : Environment) (req : Request) (p : Progress) (d : Scenario) where
  abbrev last_branch : Option ℕ
  last_branch = branch_of env.library d req

  last_step :
      (best : Option Scenario) (c : Check)
      → verdict env d req p ≡ accepted
      → Ends env p (verdict env d req p) c
      → Selects last_branch c
      → ScanLeaves last_branch (scan_with d best (scan env req []) c)
  unfolding scan
  last_step best (passed q) v h b = b
  last_step best (rejected q) v h b = absurd (let e = h.0 in cc)
  last_step best (failed e q) v h b = tt

  inner_step :
      (s : Scenario) (l : List Scenario) (best : Option Scenario) (c : Check) (v : Verdict)
      → Ends env p v c
      → ((o : Option Scenario) (q : Progress)
          → IsAlike env p q
          → ScanLeaves last_branch (scan env req l o q))
      → ScanLeaves last_branch (scan_with s best (scan env req l) c)
  inner_step s l best (passed q) v h ih = ih (better best s) q h.1
  inner_step s l best (rejected q) v h ih = ih best q h.1
  inner_step s l best (failed e q) v h ih = tt

  scan_last :
      (l : List Scenario) (best : Option Scenario) (q : Progress)
      → verdict env d req p ≡ accepted
      → IsAlike env p q
      → ScanLeaves last_branch (scan env req (l ++ d ∷ []) best q)
  unfolding scan
  scan_last [] best q v a =
      rw (poll-alive q a.0, scan)
        (last_step best (matches_scenario env d req q) v (matches_scenario-Ends env p d req q a)
          (matches_scenario-Selects env d req q))
  scan_last (s ∷ l) best q v a =
      rw (poll-alive q a.0, scan)
        (inner_step s (l ++ d ∷ []) best (matches_scenario env s req q) (verdict env s req p)
          (matches_scenario-Ends env p s req q a) (λ o q' a'. scan_last l o q' v a'))

  preferred_leaves :
      (current : Option Scenario) (a : Scan)
      → ScanLeaves last_branch a
      → ScanLeaves last_branch (a then_scan (λ g q. scanned (prefer_global current g) q))
  preferred_leaves current (scanned o q) h = h
  preferred_leaves current (broke_off e q) h = tt

  global_leaves :
      (r : ShardedRegistry) (l : List Scenario) (o : Option Scenario) (q : Progress)
      → r.global_scenarios ≡ l ++ d ∷ []
      → verdict env d req p ≡ accepted
      → IsAlike env p q
      → ScanLeaves last_branch (apply_global_priority_candidate env r req o q)
  unfolding apply_global_priority_candidate match_global_priority_candidates
  global_leaves r l o q e v a =
      rw e (preferred_leaves o (scan env req (l ++ d ∷ []) none q) (scan_last l none q v a))

  then_leaves :
      (r : ShardedRegistry) (l : List Scenario) (a : Scan)
      → r.global_scenarios ≡ l ++ d ∷ []
      → verdict env d req p ≡ accepted
      → ScanIsAlike env p a
      → ScanLeaves last_branch (a then_scan apply_global_priority_candidate env r req)
        × ScanIsAlike env p (a then_scan apply_global_priority_candidate env r req)
  then_leaves r l (scanned o q) e v k = (
    global_leaves r l o q e v k,
    ends_alike env p (global_choice env req p r o) (apply_global_priority_candidate env r req o q)
        (global-ends env req p r o q k),
  )
  then_leaves r l (broke_off e' q) e v k = (tt, tt)

  finish_leaves :
      (a : Scan)
      → ScanLeaves last_branch a × ScanIsAlike env p a
      → LeavesBranch last_branch (finish a)
  finish_leaves (scanned none q) (h, k) = h
  finish_leaves (scanned (some s) q) (h, k) = rw (poll-alive q k.0) h
  finish_leaves (broke_off e q) (h, k) = tt

-- Where the last of the global scenarios is accepted, the request carries after the search the branch
-- that is selected in that scenario, whichever scenario is found: none if it has no branches.
pub match_uncached-LeavesBranch :
    (env : Environment) (r : ShardedRegistry) (req : Request) (p : Progress) (l : List Scenario)
    (d : Scenario)
    → p.alive ≡ none
    → r.global_scenarios ≡ l ++ d ∷ []
    → verdict (under env r.body_pattern) d req p ≡ accepted
    → LeavesBranch (branch_of env.library d req) (match_uncached env r (some req) p)
unfolding match_uncached
match_uncached-LeavesBranch env r req p l d h e v =
    let env' = under env r.body_pattern in
    rw (poll-alive p h) (
      finish_leaves env' req p d (search env' r req p) (
        then_leaves env' req p d r l (match_sharded_and_fallback env' r req p) e v (
          ends_alike env' p _ (match_sharded_and_fallback env' r req p)
            (sharded-ends env' req p r p (h, refl, refl)))))
