-- ===== src/Router/Table/Agreement.antt =====
-- internal/router/router.go: the cache changes nothing in where a request is routed to.
use icapmock.Prelude.{
  ℕ, ◌<◌, ◌≤◌, ◌≡◌, refl, ◌∙◌, sym, ap, subst, Bool, true, Option, some, List, [], ◌∷◌, ◌++◌, arith,
  Bytes, length, lacks, drop, head?, inl, inr, Option-cases,
}
use icapmock.Prelude.Maps.{lookup}
use icapmock.Router.Cache.{RouteCache}
use icapmock.Router.Cache.Methods.{
  build_key, get_handler, put_handler, looked_up, after_get, lookup_handler_func, clear,
}
use icapmock.Router.Cache.Methods.Valid.{IsCache}
use icapmock.Router.Cache.Methods.Use.{put_handler-IsPut}
use icapmock.Router.Cache.Methods.Reading.{Got, get_handler-Got, empty-IsCache}
use icapmock.Router.Paths.{extract_path}
use icapmock.Router.Table.{Router, loaded, or_pattern, serve}
use icapmock.Router.Table.Reads.{IsRead, get_handler-IsRead}
use icapmock.Router.Table.Writes.{put_handler-IsWritten}

build_key_inj :
    (m p n q : Bytes)
    → lacks b':' m ≡ true
    → lacks b':' n ≡ true
    → build_key m p ≡ build_key n q
    → p ≡ q
unfolding build_key
build_key_inj [] p [] q h k e = ap (drop 1) e
build_key_inj [] p (d ∷ n) q h k e = let f = ap head? e in absurd (ground (arith, f, k))
build_key_inj (c ∷ m) p [] q h k e = let f = ap head? e in absurd (ground (arith, f, h))
build_key_inj (c ∷ m) p (d ∷ n) q h k e =
    build_key_inj m p n q (ground (arith, h)) (ground (arith, k)) (ap (drop 1) e)

-- The cache holds at most as much as it may, and each handler in it is that of its path in the table.
pub record IsTable (routes : List (Bytes × ℕ)) (c : RouteCache) (xs : List ℕ) : Type 0 where
  pub cached : IsCache c xs
  pub some_room : 0 < c.max_entries
  pub within : length xs ≤ c.max_entries
  pub agrees :
      (m p : Bytes) (x : ℕ)
      → lacks b':' m ≡ true
      → lookup (build_key m p) c.cache ≡ some x
      → lookup p routes ≡ some (c.nodes x).handler

read-IsTable :
    (routes : List (Bytes × ℕ)) (c d : RouteCache) (xs ys : List ℕ)
    → IsTable routes c xs
    → IsRead c d
    → IsCache d ys
    → IsTable routes d ys
read-IsTable routes c d xs ys t r v = record {
  cached = v;
  some_room = rw (r.limit) (t.some_room);
  within =
      let room = t.within in
      let small = r.small in rw (r.limit) (omega (arith, room, small, v.sized, t.cached.sized));
  agrees = λ m p x plain e.
      t.agrees m p x plain (r.table (build_key m p) x e) ∙ ap some (sym (r.handler x));
}

written-IsTable :
    (routes : List (Bytes × ℕ)) (method path : Bytes) (h now : ℕ) (c : RouteCache) (xs : List ℕ)
    → lacks b':' method ≡ true
    → lookup path routes ≡ some h
    → IsTable routes c xs
    → (ys : List ℕ) × IsTable routes (put_handler method path (some h) now c) ys
written-IsTable routes method path h now c xs plain known t =
    let (ys, a, done) = put_handler-IsPut method path h now c xs t.cached t.some_room t.within in
    let d = put_handler method path (some h) now c in
    let w = put_handler-IsWritten method path h now c xs t.cached in
    (
      ys,
      record {
        cached = done.valid;
        some_room = rw (done.limit) (t.some_room);
        within = rw (done.limit) (done.within);
        agrees = λ m p x ok e. elim (w.table (build_key m p) x e) [
          | inl (same, own) ↦
              let q = build_key_inj m p method path ok plain same in
              ap (λ (s : Bytes). lookup s routes) q ∙ known ∙ ap some (sym own)
          | inr (before, same) ↦ t.agrees m p x ok before ∙ ap some (sym same)
        ];
      },
    )

-- The handler is that of the table, whether it was cached or not, and the cache still fits.
abbrev Looked : List (Bytes × ℕ) → Bytes → Option ℕ × Bool × RouteCache → Type 0
Looked routes path (h, _, c) = (h ≡ lookup path routes) × ((ys : List ℕ) × IsTable routes c ys)

missed-Looked :
    (routes : List (Bytes × ℕ)) (method path : Bytes) (now : ℕ) (c : RouteCache) (xs : List ℕ)
    → lacks b':' method ≡ true
    → IsTable routes c xs
    → Looked routes path (looked_up method path now (loaded (lookup path routes)) c)
missed-Looked routes method path now c xs plain t = elim (Option-cases (lookup path routes)) [
  | inl e ↦ rw e (refl, (xs, t))
  | inr (h, e) ↦
      let done = written-IsTable routes method path h now c xs plain e t in
      subst
        (λ (o : Option ℕ).
          (looked_up method path now (loaded o) c).0 ≡ o
          × ((ys : List ℕ) × IsTable routes (looked_up method path now (loaded o) c).2 ys))
        (sym e) (refl, done)
]

after_get-Looked :
    (routes : List (Bytes × ℕ)) (method path : Bytes) (now : ℕ) (c : RouteCache) (xs : List ℕ)
    (got : Option ℕ × RouteCache)
    → lacks b':' method ≡ true
    → IsTable routes c xs
    → IsRead c got.1
    → Got (build_key method path) now c xs got
    → Looked routes path (after_get method path now (λ p. loaded (lookup p routes)) got)
after_get-Looked routes method path now c xs (o, d) plain t r (inl (_, e, v)) =
    rw e (missed-Looked routes method path now d xs plain (read-IsTable routes c d xs xs t r v))
after_get-Looked routes method path now c xs (o, d) plain t r
      (inr (inl (a, _, _, e, (l, s, _, v)))) =
    rw e (
      missed-Looked routes method path now d (l ++ s) plain
        (read-IsTable routes c d xs (l ++ s) t r v))
after_get-Looked routes method path now c xs (o, d) plain t r (inr (inr (a, k, _, e, (ys, v, _)))) =
    rw e (sym (t.agrees method path a plain k), (ys, read-IsTable routes c d xs ys t r v))

lookup_handler_func-Looked :
    (routes : List (Bytes × ℕ)) (method uri : Bytes) (now : ℕ) (c : RouteCache) (xs : List ℕ)
    → lacks b':' method ≡ true
    → IsTable routes c xs
    → Looked routes
        (extract_path uri)
        (lookup_handler_func (λ p. loaded (lookup p routes)) method uri now c)
unfolding lookup_handler_func
lookup_handler_func-Looked routes method uri now c xs plain t =
    let path = extract_path uri in
    after_get-Looked routes method path now c xs (get_handler method path now c) plain t
      (get_handler-IsRead method path now c) (get_handler-Got method path now c xs t.cached)

-- The answer without a cache: the exact route, or the first pattern that matches.
abbrev pub uncached_handler : (ℕ → Bytes → Bool) → Bytes → Router → Option ℕ
uncached_handler matches path r = or_pattern matches path r.patterns (lookup path r.routes)

-- A request with a method without a colon, to a router whose cache agrees with its table, is answered
-- by the handler of the exact route of its path, or of the first pattern that matches, or by 404 if
-- there is none, whatever is cached; the routes stay, and the cache agrees with them afterwards.
pub serve-IsTable :
    (matches : ℕ → Bytes → Bool) (method uri : Bytes) (now : ℕ) (r : Router) (xs : List ℕ)
    → lacks b':' method ≡ true
    → IsTable r.routes r.cache xs
    → ((serve matches method uri now r).0 ≡ uncached_handler matches (extract_path uri) r)
      × ((serve matches method uri now r).1.routes ≡ r.routes)
      × ((serve matches method uri now r).1.patterns ≡ r.patterns)
      × ((ys : List ℕ) × IsTable r.routes (serve matches method uri now r).1.cache ys)
unfolding serve
serve-IsTable matches method uri now r xs plain t =
    let (e, kept) = lookup_handler_func-Looked r.routes method uri now r.cache xs plain t in
    (ap (or_pattern matches (extract_path uri) r.patterns) e, refl, refl, kept)

pub clear-IsTable :
    (routes other : List (Bytes × ℕ)) (c : RouteCache) (xs : List ℕ)
    → IsTable routes c xs
    → IsTable other (clear c) []
unfolding clear lookup
clear-IsTable routes other c xs t = record {
  cached = (empty-IsCache 0 0 c.nodes c).1;
  some_room = t.some_room;
  within = omega arith;
  agrees = λ m p x plain e. absurd (cc);
}
