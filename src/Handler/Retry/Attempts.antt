-- ===== src/Handler/Retry/Attempts.antt =====
-- internal/handler/retry.go: how often the handler is called, and with what result.
use icapmock.Prelude.{
  ℕ, zero, suc, ◌+◌, ◌≤◌, ◌≡◌, refl, ◌⊎◌, inl, inr, Bool, true, false, Option, none, some, List, [],
  ◌∷◌, arith, Bool-cases, Option-cases, codes,
}
use icapmock.Handler.Retry.{
  Sentinel, GoError, is_retryable, Reply, reply, failure, Environment, Metric, Run, succeed,
  record_final_failure, cancel, execute_from, execute, metric, get_error_type,
}

module _ {R : Type 0} (targets : Option (List Sentinel)) (env : Environment R) where
  -- The attempt failed with an error that is tried again, and the wait behind it was not cut short.
  abbrev pub Retried : ℕ → Type 0
  Retried i =
      (e : GoError) × (env.handle i ≡ failure e)
      × (is_retryable targets e ≡ true)
      × (env.canceled_in_wait i ≡ none)

  -- The `n` attempts from `i` on.
  abbrev pub RetriedFrom : ℕ → ℕ → Type 0
  RetriedFrom i zero = Unit
  RetriedFrom i (suc n) = Retried i × RetriedFrom (i + 1) n

  -- Why attempt `i` was the last: the handler replied, or its error is final, or it is the attempt
  -- `top`, or the context ended in the wait behind it.
  abbrev pub Ends : ℕ → ℕ → Reply R → Type 0
  Ends i top result =
      ((r : R) × (env.handle i ≡ reply r) × (result ≡ reply r))
      ⊎ (((e : GoError) × (env.handle i ≡ failure e)
            × ((is_retryable targets e ≡ false) ⊎ (i ≡ top))
            × (result ≡ failure e))
          ⊎ ((e e' : GoError) × (env.handle i ≡ failure e)
              × (is_retryable targets e ≡ true)
              × (env.canceled_in_wait i ≡ some e')
              × (result ≡ failure e')))

  -- From attempt `i` on: `n` attempts were tried again, and the one behind them was the last.
  abbrev pub Explains : ℕ → ℕ → Run R → Type 0
  Explains i top run =
      (n last : ℕ) × (last ≡ i + n)
      × (last ≤ top)
      × (run.calls ≡ last + 1)
      × RetriedFrom i n
      × Ends last top run.result

  Reply-cases : (o : Reply R) → ((r : R) × (o ≡ reply r)) ⊎ ((e : GoError) × (o ≡ failure e))
  Reply-cases (reply r) = inl (r, refl)
  Reply-cases (failure e) = inr (e, refl)

  -- The attempt `i` is the last.
  succeed-Explains :
      (i top : ℕ) (r : R) (ms : List Metric)
      → i ≤ top
      → env.handle i ≡ reply r
      → Explains i top (succeed r i ms)
  unfolding succeed
  succeed-Explains i top r ms le h = (0, i, omega arith, le, refl, tt, inl (r, h, refl))

  failure-Explains :
      (i top : ℕ) (e : GoError) (retryable : Bool) (ms : List Metric)
      → i ≤ top
      → env.handle i ≡ failure e
      → (is_retryable targets e ≡ false) ⊎ (i ≡ top)
      → Explains i top (record_final_failure e retryable i ms)
  unfolding record_final_failure
  failure-Explains i top e retryable ms le h final =
      (0, i, omega arith, le, refl, tt, inr (inl (e, h, final, refl)))

  cancel-Explains :
      (i top : ℕ) (e e' : GoError) (ms : List Metric)
      → i ≤ top
      → env.handle i ≡ failure e
      → is_retryable targets e ≡ true
      → env.canceled_in_wait i ≡ some e'
      → Explains i top (cancel e' i ms)
  unfolding cancel
  cancel-Explains i top e e' ms le h retry wait =
      (0, i, omega arith, le, refl, tt, inr (inr (e, e', h, retry, wait, refl)))

  Retried-Explains :
      (i top : ℕ) (run : Run R) → Retried i → Explains (i + 1) top run → Explains i top run
  Retried-Explains i top run q (n, last, at, le, calls, rs, ends) =
      (suc n, last, omega (arith, at), le, calls, (q, rs), ends)

  execute_from-Explains :
      (left i top : ℕ) (ms : List Metric)
      → top ≡ i + left
      → Explains i top (execute_from targets env left i ms)
  unfolding execute_from
  execute_from-Explains zero i top ms t = elim (Reply-cases (env.handle i)) [
    | inl (r, h) ↦ rw (execute_from, h) (succeed-Explains i top r ms (omega (arith, t)) h)
    | inr (e, h) ↦
        rw (execute_from, h)
          (failure-Explains i top e (is_retryable targets e) ms (omega (arith, t)) h
            (inr (omega (arith, t))))
  ]
  execute_from-Explains (suc left) i top ms t = elim (Reply-cases (env.handle i)) [
    | inl (r, h) ↦ rw (execute_from, h) (succeed-Explains i top r ms (omega (arith, t)) h)
    | inr (e, h) ↦ elim (Bool-cases (is_retryable targets e)) [
      | inr final ↦
          rw (execute_from, h)
            (rw final (failure-Explains i top e false ms (omega (arith, t)) h (inl final)))
      | inl retry ↦
          let ms' = metric (codes "retry") (get_error_type e) ∷ ms in
          elim (Option-cases (env.canceled_in_wait i)) [
            | inr (e', wait) ↦
                rw (execute_from, h)
                  (rw (retry, wait)
                    (cancel-Explains i top e e' ms' (omega (arith, t)) h retry wait))
            | inl wait ↦
                rw (execute_from, h)
                  (rw (retry, wait)
                    (Retried-Explains i top (execute_from targets env left (i + 1) ms')
                      (e, h, retry, wait)
                      (execute_from-Explains left (i + 1) top ms' (omega (arith, t)))))
          ]
    ]
  ]

-- The handler is called once and then again after each error that is tried again, as long as
-- attempts are left and the context lasts: at most `max_retries` + 1 times. The result is that of
-- the last call, or the context's error.
pub execute-Explains :
    {R : Type 0} (targets : Option (List Sentinel)) (env : Environment R) (max_retries : ℕ)
    → Explains targets env 0 max_retries (execute targets env max_retries)
unfolding execute
execute-Explains targets env max_retries =
    execute_from-Explains targets env max_retries 0 max_retries [] (omega arith)
