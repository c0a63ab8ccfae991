-- ===== src/Storage/Loader.antt =====
-- pkg/icap/body_read.go as the loader of internal/storage/scenario.go: `GetBodyLimited` meets what
-- matching relies on.
use icapmock.Prelude.{
  ℕ, ◌≡◌, refl, ◌∙◌, sym, ap, true, Option, none, some, arith, inl, inr, Bool-cases, Option-cases,
}
use icapmock.Icap.Chunked.Source.{Source}
use icapmock.Icap.Body.{
  Runtime, Loaded, not_loaded, body_too_large, Taken, store, LazyBody, load_once, with_result,
  get_body_limited, read_all_limited_with_capacity,
}
use icapmock.Storage.Scenarios.{BodyLoader}

store-once : (o : Option Taken) (b b' : LazyBody) → store o b ≡ some b' → b'.once ≡ true
store-once none b b' h = absurd (cc)
store-once (some t) b b' h = ground arith

load_once-once :
    (rounds : ℕ) (rt : Runtime) (limit hint : Option ℕ) (b b' : LazyBody)
    → load_once rounds rt limit hint b ≡ some b'
    → b'.once ≡ true
unfolding load_once
load_once-once rounds rt limit hint b b' h = ground (
  arith,
  Bool-cases b.once,
  Option-cases b.body_reader,
  λ (s : Source). store-once (read_all_limited_with_capacity rounds rt limit hint s) b b',
)

abbrev or_unread : Option (Loaded × LazyBody) → LazyBody → Loaded × LazyBody
or_unread none b = (not_loaded body_too_large, b)
or_unread (some r) b = r

get_body_limited-with_result :
    (rounds : ℕ) (rt : Runtime) (limit hint : Option ℕ) (b : LazyBody)
    → get_body_limited rounds rt limit hint b ≡ with_result limit (load_once rounds rt limit hint b)
unfolding get_body_limited
get_body_limited-with_result rounds rt limit hint b = refl

load_once_done :
    (rounds : ℕ) (rt : Runtime) (limit hint : Option ℕ) (b : LazyBody)
    → b.once ≡ true
    → load_once rounds rt limit hint b ≡ some b
unfolding load_once
load_once_done rounds rt limit hint b h = rw h refl

load_at : ℕ → Runtime → Option ℕ → Option ℕ → LazyBody → Loaded × LazyBody
load_at rounds rt hint limit b = or_unread (get_body_limited rounds rt limit hint b) b

load_at-of :
    (rounds : ℕ) (rt : Runtime) (hint limit : Option ℕ) (b : LazyBody) (o : Option LazyBody)
    → load_once rounds rt limit hint b ≡ o
    → load_at rounds rt hint limit b ≡ or_unread (with_result limit o) b
unfolding load_at
load_at-of rounds rt hint limit b o h =
    ap (λ (r : Option (Loaded × LazyBody)). or_unread r b)
      (get_body_limited-with_result rounds rt limit hint b ∙ ap (with_result limit) h)

load_at_again :
    (rounds : ℕ) (rt : Runtime) (hint limit : Option ℕ) (b : LazyBody)
    → load_at rounds rt hint limit (load_at rounds rt hint limit b).1
      ≡ load_at rounds rt hint limit b
load_at_again rounds rt hint limit b = elim (Option-cases (load_once rounds rt limit hint b)) [
  | inl n ↦
      let e = load_at-of rounds rt hint limit b none n in
      ap (λ (r : Loaded × LazyBody). load_at rounds rt hint limit r.1) e
  | inr (b', h) ↦
      let e = load_at-of rounds rt hint limit b (some b') h in
      let done =
        load_once_done rounds rt limit hint b' (load_once-once rounds rt limit hint b b' h) in
      ap (λ (r : Loaded × LazyBody). load_at rounds rt hint limit r.1) e
      ∙ load_at-of rounds rt hint limit b' (some b') done
      ∙ sym e
]

-- The loader of a program run in which the rounds are not used up.
pub body_loader : ℕ → Runtime → Option ℕ → BodyLoader
body_loader rounds rt hint = record {
  load = load_at rounds rt hint;
  load_again = load_at_again rounds rt hint;
}
