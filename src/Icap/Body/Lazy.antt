-- ===== src/Icap/Body/Lazy.antt =====
-- pkg/icap/request.go: a body is loaded once, and later calls see what the first one found.
use icapmock.Prelude.{
  ℕ, ◌<◌, ◌≡◌, refl, ap, ◌∙◌, Bool, true, false, not, ◌&&◌, ◌==◌, Option, none, some, [], Bytes,
  length, inl, inr, Bool-cases,
}
use icapmock.Icap.Chunked.Source.{Error, is_eof, Source}
use icapmock.Icap.Body.{
  Runtime, Loaded, loaded, not_loaded, exceeds, Taken, body_within_limit, LazyBody, load_once,
  loaded_body, get_body_limited, read_all_limited_with_capacity, initial_read_capacity,
}
use icapmock.Icap.Body.Whole.{verdict, outcome, one_above, IsBelowMax, source_of}
use icapmock.Icap.Body.Limit.{Grows, read_all_limited-verdict}

-- A message whose body was not asked for yet.
abbrev pub unread_body : Bytes → Error → LazyBody
unread_body bytes stop = record {
  body_reader = some (source_of bytes stop);
  body = [];
  body_loaded = false;
  body_err = none;
  once = false;
}

-- What a later call with this limit returns, by what the first one found.
abbrev pub later_result : Loaded → Option ℕ → Loaded
later_result (loaded content) limit = body_within_limit content limit
later_result (not_loaded e) limit = not_loaded e

abbrev stored_body : Taken → LazyBody → LazyBody
stored_body t b = elim t.result [
  | loaded content ↦ record b {
    body_reader = some t.left;
    body = content;
    body_loaded = true;
    once = true;
  }
  | not_loaded e ↦ record b { body_reader = some t.left; body = []; body_err = some e; once = true }
]

loaded_body-stored :
    (r : Loaded) (left : Source) (b : LazyBody) (limit : Option ℕ)
    → b.body_err ≡ none
    → loaded_body limit (stored_body (record { result = r; left = left }) b) ≡ later_result r limit
unfolding loaded_body
loaded_body-stored (loaded content) left b limit h = rw h refl
loaded_body-stored (not_loaded e) left b limit h = refl

once-stored :
    (r : Loaded) (left : Source) (b : LazyBody)
    → (stored_body (record { result = r; left = left }) b).once ≡ true
once-stored (loaded content) left b = refl
once-stored (not_loaded e) left b = refl

later_result-verdict :
    (limit : Option ℕ) (bytes : Bytes) (stop : Error)
    → later_result (verdict limit bytes stop) limit ≡ verdict limit bytes stop
unfolding body_within_limit
later_result-verdict limit bytes stop = elim (Bool-cases (exceeds limit bytes)) [
  | inl e ↦ rw e refl
  | inr e ↦ elim (Bool-cases (is_eof stop)) [
    | inl f ↦ rw (e, f) (rw e refl)
    | inr f ↦ rw (e, f) refl
  ]
]

later_result-outcome :
    (unhinted last : Bool) (limit : Option ℕ) (bytes : Bytes) (stop : Error)
    → later_result (outcome unhinted last limit bytes stop) limit
      ≡ outcome unhinted last limit bytes stop
later_result-outcome unhinted last limit bytes stop =
    elim (Bool-cases (unhinted && (last && (one_above limit bytes && not (is_eof stop))))) [
      | inl e ↦ rw e refl
      | inr e ↦ rw e (later_result-verdict limit bytes stop)
    ]

get_body_limited-again :
    (rounds : ℕ) (rt : Runtime) (limit hint : Option ℕ) (b : LazyBody)
    → b.once ≡ true
    → get_body_limited rounds rt limit hint b ≡ some (loaded_body limit b, b)
unfolding get_body_limited load_once
get_body_limited-again rounds rt limit hint b h = rw h refl

get_body_limited-first :
    (rounds : ℕ) (rt : Runtime) (limit hint : Option ℕ) (bytes : Bytes) (stop : Error) (t : Taken)
    → read_all_limited_with_capacity rounds rt limit hint (source_of bytes stop) ≡ some t
    → get_body_limited rounds rt limit hint (unread_body bytes stop)
      ≡ some (
        loaded_body limit (stored_body t (unread_body bytes stop)),
        stored_body t (unread_body bytes stop),
      )
unfolding get_body_limited load_once
get_body_limited-first rounds rt limit hint bytes stop t h = rw h refl

-- What the first call of a body comes to.
abbrev pub first_result : Runtime → Option ℕ → Option ℕ → Bytes → Error → Loaded
first_result rt limit hint bytes stop =
    outcome (initial_read_capacity limit hint == 0) rt.with_last limit bytes stop

-- Of a body that was not asked for yet, where a slice grows to hold what is appended, the limit is
-- below the greatest int64 and the rounds are more than the bytes, the first call decides: it
-- returns the body within its limit, that it is too large, or the reader's error, which goes first
-- where it comes with the one byte above the limit and there is no hint to use. Every later call, with
-- any limit, reads nothing more and changes nothing: it returns the same error, or the same body
-- if that is within its own limit.
pub get_body_limited-once :
    (rounds : ℕ) (rt : Runtime) (limit hint : Option ℕ) (bytes : Bytes) (stop : Error)
    → Grows rt
    → IsBelowMax limit
    → length bytes < rounds
    → (b : LazyBody) × (get_body_limited rounds rt limit hint (unread_body bytes stop)
        ≡ some (first_result rt limit hint bytes stop, b))
      × ((rounds' : ℕ) (rt' : Runtime) (limit' hint' : Option ℕ)
          → get_body_limited rounds' rt' limit' hint' b
            ≡ some (later_result (first_result rt limit hint bytes stop) limit', b))
get_body_limited-once rounds rt limit hint bytes stop grows low fuel =
    let (t, run, result) =
      read_all_limited-verdict rounds rt limit hint bytes stop grows low fuel in
    let start = unread_body bytes stop in
    let b = stored_body t start in
    let r = first_result rt limit hint bytes stop in
    let at : (l : Option ℕ) → loaded_body l b ≡ later_result r l = λ l.
      loaded_body-stored t.result t.left start l refl
      ∙ ap (λ (r' : Loaded). later_result r' l) result in
    let same =
      later_result-outcome (initial_read_capacity limit hint == 0) rt.with_last limit bytes stop in
    (
      b,
      get_body_limited-first rounds rt limit hint bytes stop t run
          ∙ ap (λ (r' : Loaded). some (r', b)) (at limit ∙ same),
      λ rounds' rt' limit' hint'.
          get_body_limited-again rounds' rt' limit' hint' b (once-stored t.result t.left start)
          ∙ ap (λ (r' : Loaded). some (r', b)) (at limit'),
    )
