-- ===== src/Storage/Sharded/Search/Choice.antt =====
-- internal/storage/sharded_scenario.go: the loop over candidates finds the best of them.
use icapmock.Prelude.{
  ◌≡◌, ◌⊎◌, refl, sym, subst, true, false, Option, none, some, List, [], ◌∷◌, ◌++◌, append_assoc,
  append-nil, arith, inl, inr, All, All-append, Bool-cases,
}
use icapmock.Storage.Scenarios.{Scenario, Request, Progress, Environment}
use icapmock.Storage.Matching.{MatchError, Check, passed, rejected, failed, matches_scenario}
use icapmock.Storage.Matching.Verdicts.{
  Verdict, accepted, refused, broken, verdict, IsAlike, Ends, matches_scenario-Ends,
}
use icapmock.Storage.Ranking.{scenario_outranks, outranks}
use icapmock.Storage.Ranking.Sorting.{Outranks-trans, All-map}
use icapmock.Storage.Registry.First.{poll-alive, IsRefused}
use icapmock.Storage.Sharded.Search.{Scan, scanned, broke_off, better, scan_with, scan}

-- What a search finds, apart from its progress.
pub data Pick : Type 0 where
  picked : Option Scenario → Pick
  stopped : MatchError → Pick

abbrev pub pick_with : Verdict → Scenario → Option Scenario → (Option Scenario → Pick) → Pick
pick_with accepted s best rest = rest (better best s)
pick_with refused s best rest = rest best
pick_with (broken e) s best rest = stopped e

infixl 5 ◌then_pick◌
abbrev pub ◌then_pick◌ : Pick → (Option Scenario → Pick) → Pick
picked o then_pick f = f o
stopped e then_pick f = stopped e

abbrev pub ScanEnds : Environment → Progress → Pick → Scan → Type 0
ScanEnds env p k (scanned o q) = (k ≡ picked o) × IsAlike env p q
ScanEnds env p k (broke_off e q) = (k ≡ stopped e) × IsAlike env p q

abbrev pub Among : Scenario → List Scenario → Type 0
Among s [] = ⊥
Among s (t ∷ l) = (s ≡ t) ⊎ Among s l

pub Among-append_left : (s : Scenario) (l m : List Scenario) → Among s l → Among s (l ++ m)
Among-append_left s [] m h = absurd h
Among-append_left s (t ∷ l) m (inl e) = inl e
Among-append_left s (t ∷ l) m (inr h) = inr (Among-append_left s l m h)

pub Among-append_right : (s : Scenario) (l m : List Scenario) → Among s m → Among s (l ++ m)
Among-append_right s [] m h = h
Among-append_right s (t ∷ l) m h = inr (Among-append_right s l m h)

pub All-Among :
    (P : Scenario → Type 0) (s : Scenario) (l : List Scenario) → All P l → Among s l → P s
All-Among P s [] a h = absurd h
All-Among P s (t ∷ l) a (inl e) = subst P (sym e) a.0
All-Among P s (t ∷ l) a (inr h) = All-Among P s l a.1 h

pub outranks_irrefl : (s : Scenario) → outranks s s ≡ false
unfolding outranks
outranks_irrefl s = ground arith

pub not_above :
    (s t b : Scenario) → outranks s b ≡ true → outranks t b ≡ false → outranks t s ≡ false
not_above s t b h k = elim (Bool-cases (outranks t s)) [
  | inl e ↦ absurd (let both = Outranks-trans t s b e h in cc)
  | inr e ↦ e
]

module _ (env : Environment) (req : Request) (p : Progress) where
  unfoldable pub pick : List Scenario → Option Scenario → Pick
  pick [] best = picked best
  pick (s ∷ l) best = pick_with (verdict env s req p) s best (pick l)

  scan_with-pick_with :
      (s : Scenario) (l : List Scenario) (best : Option Scenario) (v : Verdict) (c : Check)
      → Ends env p v c
      → ((b : Option Scenario) (q : Progress)
          → IsAlike env p q
          → ScanEnds env p (pick l b) (scan env req l b q))
      → ScanEnds env p (pick_with v s best (pick l)) (scan_with s best (scan env req l) c)
  scan_with-pick_with s l best v (passed q) h ih = rw (h.0) (ih (better best s) q h.1)
  scan_with-pick_with s l best v (rejected q) h ih = rw (h.0) (ih best q h.1)
  scan_with-pick_with s l best v (failed e q) h ih = rw (h.0) (refl, h.1)

  pub scan-pick :
      (l : List Scenario) (best : Option Scenario) (q : Progress)
      → IsAlike env p q
      → ScanEnds env p (pick l best) (scan env req l best q)
  unfolding scan pick
  scan-pick [] best q a = (refl, a)
  scan-pick (s ∷ l) best q a =
      rw (poll-alive q a.0, scan)
        (scan_with-pick_with s l best (verdict env s req p) (matches_scenario env s req q)
          (matches_scenario-Ends env p s req q a) (λ b q' a'. scan-pick l b q' a'))

  -- A scenario that is refused, or does not outrank `s`.
  abbrev pub NotAbove : Scenario → Scenario → Type 0
  NotAbove s t = (verdict env t req p ≡ refused) ⊎ (outranks t s ≡ false)

  -- The verdict is not an error.
  abbrev pub IsClear : Scenario → Type 0
  IsClear t = (verdict env t req p ≡ accepted) ⊎ (verdict env t req p ≡ refused)

  -- An accepted scenario of the list that none of the accepted ones outranks, or there is none.
  abbrev pub IsBestOf : List Scenario → Option Scenario → Type 0
  IsBestOf l none = All (IsRefused env req p) l
  IsBestOf l (some s) = Among s l × (verdict env s req p ≡ accepted) × All (NotAbove s) l

  better-IsBestOf :
      (past : List Scenario) (best : Option Scenario) (s : Scenario)
      → IsBestOf past best
      → verdict env s req p ≡ accepted
      → IsBestOf (past ++ s ∷ []) (better best s)
  unfolding better scenario_outranks
  better-IsBestOf past none s h v = (
    Among-append_right s past (s ∷ []) (inl refl),
    v,
    All-append (NotAbove s) past (s ∷ [])
        (All-map (IsRefused env req p) (NotAbove s) past (λ t e. inl e) h)
        (inr (outranks_irrefl s), tt),
  )
  better-IsBestOf past (some b) s h v = elim (Bool-cases (outranks s b)) [
    | inl e ↦ rw e (
      Among-append_right s past (s ∷ []) (inl refl),
      v,
      All-append (NotAbove s) past (s ∷ [])
          (All-map (NotAbove b) (NotAbove s) past
            (λ t k. elim k [ inl r ↦ inl r | inr f ↦ inr (not_above s t b e f) ]) h.2)
          (inr (outranks_irrefl s), tt),
    )
    | inr e ↦ rw e (
      Among-append_left b past (s ∷ []) h.0,
      h.1,
      All-append (NotAbove b) past (s ∷ []) h.2 (inr e, tt),
    )
  ]

  refused-IsBestOf :
      (past : List Scenario) (best : Option Scenario) (s : Scenario)
      → IsBestOf past best
      → IsRefused env req p s
      → IsBestOf (past ++ s ∷ []) best
  refused-IsBestOf past none s h v = All-append (IsRefused env req p) past (s ∷ []) h (v, tt)
  refused-IsBestOf past (some b) s h v = (
    Among-append_left b past (s ∷ []) h.0,
    h.1,
    All-append (NotAbove b) past (s ∷ []) h.2 (inl v, tt),
  )

  pick-behind :
      (past l : List Scenario) (best : Option Scenario)
      → IsBestOf past best
      → All IsClear l
      → (o : Option Scenario) × (pick l best ≡ picked o) × IsBestOf (past ++ l) o
  unfolding pick
  pick-behind past [] best h c = (best, refl, rw (append-nil past) h)
  pick-behind past (s ∷ l) best h (inl v, c) =
      let (o, e, b) =
        pick-behind (past ++ s ∷ []) l (better best s) (better-IsBestOf past best s h v) c in
      (o, rw v e, subst (λ (m : List Scenario). IsBestOf m o) (append_assoc past (s ∷ []) l) b)
  pick-behind past (s ∷ l) best h (inr v, c) =
      let (o, e, b) = pick-behind (past ++ s ∷ []) l best (refused-IsBestOf past best s h v) c in
      (o, rw v e, subst (λ (m : List Scenario). IsBestOf m o) (append_assoc past (s ∷ []) l) b)

  -- Where no verdict is an error, the loop ends with the best of the candidates.
  pub pick-IsBestOf :
      (l : List Scenario)
      → All IsClear l
      → (o : Option Scenario) × (pick l none ≡ picked o) × IsBestOf l o
  pick-IsBestOf l c = pick-behind [] l none tt c
