-- ===== src/Tests/Body.antt =====
-- pkg/icap/body_read.go and the lazy bodies of pkg/icap/request.go: the theorems on short bodies.
use icapmock.Prelude.{
  ℕ, true, false, zero, suc, ◌+◌, ◌≡◌, refl, Option, none, some, [], ◌∷◌, arith, Bytes, codes,
  length,
}
use icapmock.Prelude.Int64.{wrap64, max_int64}
use icapmock.Icap.Chunked.Source.{eof, unexpected_eof}
use icapmock.Icap.Body.{
  Runtime, Loaded, loaded, not_loaded, body_too_large, read_failed, Taken, LazyBody, read_some,
  read_limited, read_all, read_all_limited_default, read_with_capacity,
  read_all_limited_with_capacity, initial_read_capacity, read_capacity_within_limit,
  normalize_read_all_error, body_within_limit, get_body_limited,
}
use icapmock.Icap.Body.Whole.{source_of}
use icapmock.Icap.Body.Limit.{read_all_limited-verdict}
use icapmock.Icap.Body.Lazy.{unread_body, later_result, first_result, get_body_limited-once}

-- Every Read gives a byte, and a slice doubles.
abbrev slow : Runtime
slow = record { given = λ i. 1; with_last = false; grow = λ cap n. cap + n }

abbrev generous : Runtime
generous = record { given = λ i. 4096; with_last = true; grow = λ cap n. cap + n }

read_all_limited-verdict_example :
    (t : Taken) × (read_all_limited_with_capacity 6 slow
        (some 4)
        (some 2)
        (source_of (codes "hello") eof)
      ≡ some t)
    × (t.result ≡ not_loaded body_too_large)
unfolding initial_read_capacity read_capacity_within_limit
read_all_limited-verdict_example =
    read_all_limited-verdict 6 slow (some 4) (some 2) (codes "hello") eof (λ cap n. omega arith)
      (omega arith) (omega arith)

program : Unit {0}
unfolding read_some read_limited read_all read_all_limited_default read_with_capacity
    read_all_limited_with_capacity initial_read_capacity read_capacity_within_limit
    normalize_read_all_error body_within_limit wrap64
program = tt

abbrev result_of : Option Taken → Option Loaded
result_of none = none
result_of (some t) = some t.result

-- The greatest int64 as a limit reads nothing and finds an empty body.
greatest_limit :
    result_of (
      read_all_limited_with_capacity 9 generous
        (some max_int64)
        none
        (source_of (codes "hello") eof))
    ≡ some (loaded [])
unfolding program
greatest_limit = refl

-- A reader that fails with the byte above the limit: the hint decides which error is returned.
hint_decides :
    (result_of (
        read_all_limited_with_capacity 9 generous
          (some 4)
          none
          (source_of (codes "hello") unexpected_eof))
      ≡ some (not_loaded (read_failed unexpected_eof)))
    × (result_of (
          read_all_limited_with_capacity 9 generous
            (some 4)
            (some 4)
            (source_of (codes "hello") unexpected_eof))
        ≡ some (not_loaded body_too_large))
unfolding program
hint_decides = (refl, refl)

get_body_limited-once_example :
    (b : LazyBody) × (get_body_limited 6 slow (some 9) none (unread_body (codes "hello") eof)
      ≡ some (first_result slow (some 9) none (codes "hello") eof, b))
    × ((rounds' : ℕ) (rt' : Runtime) (limit' hint' : Option ℕ)
        → get_body_limited rounds' rt' limit' hint' b
          ≡ some (later_result (first_result slow (some 9) none (codes "hello") eof) limit', b))
get_body_limited-once_example =
    get_body_limited-once 6 slow (some 9) none (codes "hello") eof (λ cap n. omega arith)
      (omega arith) (omega arith)

zeros : ℕ → Bytes
zeros zero = []
zeros (suc n) = 0 ∷ zeros n

length-zeros : (n : ℕ) → length (zeros n) ≡ n
unfolding zeros
length-zeros zero = refl
length-zeros (suc n) = omega (arith, length-zeros n)
