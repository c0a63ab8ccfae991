-- ===== src/Handler/Retry.antt =====
-- internal/handler/retry.go: which errors are tried again, and the loop that does it. The handler
-- and the context are the environment: what the call of each attempt gives, and whether the context
-- ends while the backoff behind it lasts. The backoff's length is computed with floats, and is not
-- modelled; nothing but the waiting depends on it.
pub mod Substring
pub mod Attempts
use icapmock.Prelude.{
  ℕ, zero, suc, ◌+◌, ◌-◌, ◌*◌, Bool, true, false, not, ◌&&◌, ◌||◌, Option, none, some, List, [],
  ◌∷◌, ◌++◌, ltb, leb, ◌==◌, if◌then◌else◌, Bytes, codes, ◌=ᵇ◌, length, take, drop, any_of,
}
use icapmock.Prelude.Int64.{ℤ, pos, is_negative, is_positive}

-- The errors that `errors.Is` is asked for.
pub data Sentinel : Type 0 where
  econnreset econnrefused etimedout econnaborted ehostunreach : Sentinel
  deadline_exceeded canceled temporary net_closed : Sentinel
  other_error : ℕ → Sentinel

abbrev pub sentinel_eq : Sentinel → Sentinel → Bool
sentinel_eq econnreset econnreset = true
sentinel_eq econnrefused econnrefused = true
sentinel_eq etimedout etimedout = true
sentinel_eq econnaborted econnaborted = true
sentinel_eq ehostunreach ehostunreach = true
sentinel_eq deadline_exceeded deadline_exceeded = true
sentinel_eq canceled canceled = true
sentinel_eq temporary temporary = true
sentinel_eq net_closed net_closed = true
sentinel_eq (other_error n) (other_error m) = n == m
sentinel_eq _ _ = false

-- An error: its text, the answer of `Timeout` if a net.Error is in its chain, and the errors that
-- it wraps.
pub record GoError : Type 0 where
  pub message : Bytes
  pub net_timeout : Option Bool
  pub chain : List Sentinel

-- `errors.Is`.
unfoldable pub errors_is : GoError → Sentinel → Bool
errors_is e target = any_of (λ s. sentinel_eq s target) e.chain

-- The loop of `findSubstring`, at the suffix that starts at `i`; the first argument counts the
-- values of `i` that are left.
unfoldable pub find_from : ℕ → Bytes → Bytes → Bool
find_from zero s substr = false
find_from (suc rounds) s substr =
    take (length substr) s =ᵇ substr || find_from rounds (drop 1 s) substr

unfoldable pub find_substring : Bytes → Bytes → Bool
find_substring s substr = find_from (length s + 1 - length substr) s substr

unfoldable pub contains : Bytes → Bytes → Bool
contains s substr =
    leb (length substr) (length s)
    && (s =ᵇ substr || ltb (length substr) (length s) && find_substring s substr)

unfoldable pub contains_any : Bytes → List Bytes → Bool
contains_any msg [] = false
contains_any msg (s ∷ substrings) = contains msg s || contains_any msg substrings

abbrev pub retryable_texts : List Bytes
retryable_texts =
    codes "connection reset"
    ∷ codes "connection refused"
    ∷ codes "broken pipe"
    ∷ codes "network is unreachable"
    ∷ codes "temporary failure"
    ∷ codes "timeout"
    ∷ []

abbrev pub is_timeout : Option Bool → Bool
is_timeout none = false
is_timeout (some b) = b

-- `IsRetryable` of an error that is not nil.
unfoldable pub is_retryable_error : GoError → Bool
is_retryable_error e =
    is_timeout e.net_timeout
    || (errors_is e econnreset
        || errors_is e econnrefused
        || errors_is e etimedout
        || errors_is e econnaborted
        || errors_is e ehostunreach)
    || errors_is e deadline_exceeded
    || errors_is e temporary
    || contains_any e.message retryable_texts

unfoldable pub get_error_type : GoError → Bytes
get_error_type e =
    if errors_is e deadline_exceeded
    then codes "deadline_exceeded"
    else if errors_is e canceled
    then codes "canceled"
    else if errors_is e econnreset
    then codes "conn_reset"
    else if errors_is e econnrefused
    then codes "conn_refused"
    else if errors_is e etimedout
    then codes "timed_out"
    else if errors_is e net_closed
    then codes "network_error"
    else codes "unknown"

-- The integer fields of the configuration; durations in nanoseconds.
pub record RetryConfig : Type 0 where
  pub max_retries : ℤ
  pub initial_backoff : ℤ
  pub max_backoff : ℤ
  pub retryable_errors : Option (List Sentinel)

unfoldable pub apply_retry_defaults : RetryConfig → RetryConfig
apply_retry_defaults c = record c {
  max_retries = if is_negative c.max_retries then pos 3 else c.max_retries;
  initial_backoff =
      if not (is_positive c.initial_backoff) then pos 100_000_000 else c.initial_backoff;
  max_backoff = if not (is_positive c.max_backoff) then pos 5_000_000_000 else c.max_backoff;
}

-- The method `isRetryable` for a list of errors, or without one.
unfoldable pub is_retryable : Option (List Sentinel) → GoError → Bool
is_retryable none e = is_retryable_error e
is_retryable (some targets) e = any_of (λ t. errors_is e t) targets

pub data Reply (R : Type 0) : Type 0 where
  reply : R → Reply R
  failure : GoError → Reply R

pub record Environment (R : Type 0) : Type 0 where
  pub handle : ℕ → Reply R
  pub canceled_in_wait : ℕ → Option GoError

pub record Metric : Type 0 where
  pub status : Bytes
  pub error_type : Bytes

-- What a request comes to: the result, the calls of the handler, and the metrics, the last first.
pub record Run (R : Type 0) : Type 0 where
  pub result : Reply R
  pub calls : ℕ
  pub metrics : List Metric

abbrev pub metric : Bytes → Bytes → Metric
metric status error_type = record { status = status; error_type = error_type }

module _ {R : Type 0} where
  unfoldable pub succeed : R → ℕ → List Metric → Run R
  succeed r attempt ms = record {
    result = reply r;
    calls = attempt + 1;
    metrics = if ltb 0 attempt then metric (codes "success") (codes "") ∷ ms else ms;
  }

  unfoldable pub record_final_failure : GoError → Bool → ℕ → List Metric → Run R
  record_final_failure e retryable attempt ms = record {
    result = failure e;
    calls = attempt + 1;
    metrics =
        metric (if retryable then codes "exhausted" else codes "non_retryable") (get_error_type e)
        ∷ ms;
  }

  unfoldable pub cancel : GoError → ℕ → List Metric → Run R
  cancel e attempt ms = record {
    result = failure e;
    calls = attempt + 1;
    metrics = metric (codes "canceled") (get_error_type e) ∷ ms;
  }

  -- The loop of `execute`: the attempts that may follow this one, and this one's number.
  unfoldable pub execute_from : Option (List Sentinel) → Environment R → ℕ → ℕ → List Metric → Run R
  execute_from targets env zero attempt ms = elim (env.handle attempt) [
    | reply r ↦ succeed r attempt ms
    | failure e ↦ record_final_failure e (is_retryable targets e) attempt ms
  ]
  execute_from targets env (suc left) attempt ms = elim (env.handle attempt) [
    | reply r ↦ succeed r attempt ms
    | failure e ↦ elim (is_retryable targets e) [
      | false ↦ record_final_failure e false attempt ms
      | true ↦
          let ms' = metric (codes "retry") (get_error_type e) ∷ ms in
          elim (env.canceled_in_wait attempt) [
            | some e' ↦ cancel e' attempt ms'
            | none ↦ execute_from targets env left (attempt + 1) ms'
          ]
    ]
  ]

  -- `execute`, for a number of retries that is not negative.
  unfoldable pub execute : Option (List Sentinel) → Environment R → ℕ → Run R
  execute targets env max_retries = execute_from targets env max_retries 0 []
