-- ===== src/Tests/Retry.antt =====
-- internal/handler/retry.go: tests, and the theorems on a handler that times out twice.
use icapmock.Prelude.{ℕ, ◌≡◌, refl, none, [], ◌∷◌, codes, ◌=ᵇ◌, if◌then◌else◌, ltb}
use icapmock.Prelude.Int64.{pos, negsuc}
use icapmock.Handler.Retry.{
  GoError, errors_is, find_from, find_substring, contains, contains_any, is_retryable_error,
  get_error_type, apply_retry_defaults, is_retryable, reply, failure, Environment, metric, succeed,
  record_final_failure, cancel, execute_from, execute,
}
use icapmock.Handler.Retry.Attempts.{Explains, execute-Explains}

program : Unit {0}
unfolding ◌=ᵇ◌ errors_is find_from find_substring contains contains_any is_retryable_error
    get_error_type apply_retry_defaults is_retryable succeed record_final_failure cancel
    execute_from execute
program = tt

abbrev timed_out : GoError
timed_out = record { message = codes "read: i/o timeout"; net_timeout = none; chain = [] }

-- The third attempt succeeds.
abbrev flaky : Environment ℕ
flaky = record {
  handle = λ i. if ltb i 2 then failure timed_out else reply 204;
  canceled_in_wait = λ i. none;
}

three_calls :
    ((execute none flaky 3).result ≡ reply 204)
    × ((execute none flaky 3).calls ≡ 3)
    × ((execute none flaky 3).metrics
        ≡ metric (codes "success") []
          ∷ metric (codes "retry") (codes "unknown")
          ∷ metric (codes "retry") (codes "unknown")
          ∷ [])
    × ((execute none flaky 1).result ≡ failure timed_out)
unfolding program
three_calls = (refl, refl, refl, refl)

defaults :
    (apply_retry_defaults (record {
      max_retries = negsuc 0;
      initial_backoff = pos 0;
      max_backoff = pos 7;
      retryable_errors = none;
    })).max_retries
    ≡ pos 3
unfolding program
defaults = refl

execute-Explains_example : Explains none flaky 0 3 (execute none flaky 3)
execute-Explains_example = execute-Explains none flaky 3
