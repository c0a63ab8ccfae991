-- ===== src/Storage/Sharded/Filing/Reached.antt =====
-- internal/storage/sharded_scenario.go, `Load`: the scenarios that a search reaches are filed.
use icapmock.Prelude.{
  ℕ, ◌<◌, ◌≡◌, ◌⊎◌, refl, ◌∙◌, sym, ap, subst, Bool, true, Option, none, some, List, [], ◌∷◌, Bytes,
  length, inl, inr, All,
}
use icapmock.Storage.HeaderRules.{member}
use icapmock.Storage.Scenarios.{Scenario}
use icapmock.Storage.Sharded.{
  ShardedRegistry, add_entries, add_global_scenario, index_scenario, index_all,
}
use icapmock.Storage.Sharded.Search.Choice.{Among, Among-append_left, Among-append_right}
use icapmock.Storage.Sharded.Filing.{Filed, add_entries-keeps, reaches, add_entries-Filed}
use icapmock.Storage.Sharded.Filing.Loaded.{
  placement, place, IsLoaded, index_scenario-is_place, index_scenario-IsLoaded,
}

-- A scenario is global, or filed in the shard under one of the keys.
abbrev pub Reached : ℕ → List Bytes → Scenario → ShardedRegistry → Type 0
Reached i search t r =
    Among t r.global_scenarios ⊎ ((k : Bytes) × (member k search ≡ true) × Filed i k t r.shards)

abbrev pub reached_by : ℕ → List Bytes → Option (List (ℕ × List Bytes)) → Bool
reached_by i search none = true
reached_by i search (some entries) = reaches i search entries

place-keeps :
    (i : ℕ) (search : List Bytes) (o : Option (List (ℕ × List Bytes))) (s t : Scenario)
    (r : ShardedRegistry)
    → i < length r.shards
    → Reached i search t r
    → Reached i search t (place o s r)
unfolding add_global_scenario
place-keeps i search none s t r low (inl m) =
    inl (Among-append_left t r.global_scenarios (s ∷ []) m)
place-keeps i search none s t r low (inr f) = inr f
place-keeps i search (some entries) s t r low (inl m) = inl m
place-keeps i search (some entries) s t r low (inr (k, m, f)) =
    inr (k, m, add_entries-keeps entries i k s t r.shards low f)

place-Reached :
    (i : ℕ) (search : List Bytes) (o : Option (List (ℕ × List Bytes))) (s : Scenario)
    (r : ShardedRegistry)
    → i < length r.shards
    → reached_by i search o ≡ true
    → Reached i search s (place o s r)
unfolding add_global_scenario
place-Reached i search none s r low h =
    inl (Among-append_right s r.global_scenarios (s ∷ []) (inl refl))
place-Reached i search (some entries) s r low h =
    inr (add_entries-Filed entries i search s r.shards low h)

index_all-keeps :
    (n i : ℕ) (search : List Bytes) (l todo : List Scenario) (t : Scenario) (r : ShardedRegistry)
    → All (λ u. Among u l) todo
    → IsLoaded n i l r
    → Reached i search t r
    → Reached i search t (index_all todo r)
unfolding index_all
index_all-keeps n i search l [] t r a v h = h
index_all-keeps n i search l (s ∷ todo) t r a v h =
    index_all-keeps n i search l todo t (index_scenario s r) a.1
      (index_scenario-IsLoaded n i l s r a.0 v)
      (subst (Reached i search t) (sym (index_scenario-is_place n i l s r v))
        (place-keeps i search (placement n s) s t r v.filing.size h))

pub index_all-Reached :
    (n i : ℕ) (search : List Bytes) (l todo : List Scenario) (t : Scenario) (r : ShardedRegistry)
    → All (λ u. Among u l) todo
    → IsLoaded n i l r
    → Among t todo
    → reached_by i search (placement n t) ≡ true
    → Reached i search t (index_all todo r)
unfolding index_all
index_all-Reached n i search l [] t r a v m h = absurd m
index_all-Reached n i search l (s ∷ todo) t r a v (inl e) h =
    let here : Reached i search t (place (placement n s) s r) =
      subst (λ (u : Scenario). Reached i search u (place (placement n s) s r)) (sym e)
        (place-Reached i search (placement n s) s r v.filing.size
          (subst (λ (u : Scenario). reached_by i search (placement n u) ≡ true) e h)) in
    index_all-keeps n i search l todo t (index_scenario s r) a.1
      (index_scenario-IsLoaded n i l s r a.0 v)
      (subst (Reached i search t) (sym (index_scenario-is_place n i l s r v)) here)
index_all-Reached n i search l (s ∷ todo) t r a v (inr m) h =
    index_all-Reached n i search l todo t (index_scenario s r) a.1
      (index_scenario-IsLoaded n i l s r a.0 v) m h

place-keeps_Filed :
    (i : ℕ) (o : Option (List (ℕ × List Bytes))) (k : Bytes) (s t : Scenario) (r : ShardedRegistry)
    → i < length r.shards
    → Filed i k t r.shards
    → Filed i k t (place o s r).shards
unfolding add_global_scenario
place-keeps_Filed i none k s t r low f = f
place-keeps_Filed i (some entries) k s t r low f = add_entries-keeps entries i k s t r.shards low f

Filed-stays :
    (n i : ℕ) (l todo : List Scenario) (k : Bytes) (t : Scenario) (r : ShardedRegistry)
    → All (λ u. Among u l) todo
    → IsLoaded n i l r
    → Filed i k t r.shards
    → Filed i k t (index_all todo r).shards
unfolding index_all
Filed-stays n i l [] k t r a v h = h
Filed-stays n i l (s ∷ todo) k t r a v h =
    Filed-stays n i l todo k t (index_scenario s r) a.1 (index_scenario-IsLoaded n i l s r a.0 v) (
      subst (λ (x : ShardedRegistry). Filed i k t x.shards)
        (sym (index_scenario-is_place n i l s r v))
        (place-keeps_Filed i (placement n s) k s t r v.filing.size h))

-- One that is not global is filed.
pub index_all-Filed :
    (n i : ℕ) (search : List Bytes) (l todo : List Scenario) (t : Scenario)
    (entries : List (ℕ × List Bytes)) (r : ShardedRegistry)
    → All (λ u. Among u l) todo
    → IsLoaded n i l r
    → Among t todo
    → placement n t ≡ some entries
    → reaches i search entries ≡ true
    → (k : Bytes) × (member k search ≡ true) × Filed i k t (index_all todo r).shards
unfolding index_all
index_all-Filed n i search l [] t entries r a v m e h = absurd m
index_all-Filed n i search l (s ∷ todo) t entries r a v (inl q) e h =
    let here = subst (λ (u : Scenario). placement n u ≡ some entries) q e in
    let is_place =
      index_scenario-is_place n i l s r v
      ∙ ap (λ (o : Option (List (ℕ × List Bytes))). place o s r) here in
    let (k, w, f) = add_entries-Filed entries i search s r.shards v.filing.size h in
    let f' : Filed i k t (index_scenario s r).shards =
      subst (λ (x : ShardedRegistry). Filed i k t x.shards) (sym is_place)
        (subst (λ (u : Scenario). Filed i k u (add_entries s entries r.shards)) (sym q) f) in
    (
      k,
      w,
      Filed-stays n i l todo k t (index_scenario s r) a.1 (index_scenario-IsLoaded n i l s r a.0 v)
          f',
    )
index_all-Filed n i search l (s ∷ todo) t entries r a v (inr m) e h =
    index_all-Filed n i search l todo t entries (index_scenario s r) a.1
      (index_scenario-IsLoaded n i l s r a.0 v) m e h
