-- ===== src/Tests/Terminal.antt =====
-- internal/server/terminal.go: the theorems on a request that two goroutines finish.
use icapmock.Prelude.{
  ◌≡◌, refl, ◌≤◌, ◌+◌, true, false, none, some, List, [], ◌∷◌, length, codes, ◌=ᵇ◌,
}
use icapmock.Server.Terminal.{
  Step, Entry, booked, unbooked, new_pending_terminal_accounting, streams, claims, settles,
  start_at, streaming_started, claim_terminal, settle, step, run, new_base_terminal_accounting,
  new_terminal_accounting, outcome_blocked, outcome_error, effective_request_outcome,
  request_outcome, response_has_partial_stream, message_has_partial_stream,
  encapsulated_http_status_code,
}
use icapmock.Server.Terminal.Entries.{Explained, always_collects}
use icapmock.Server.Terminal.Balance.{ended, finalize-once, finalize-balanced}

program : Unit {0}
unfolding start_at streaming_started claim_terminal settle step run new_base_terminal_accounting
    new_terminal_accounting new_pending_terminal_accounting ◌=ᵇ◌ effective_request_outcome
    request_outcome response_has_partial_stream message_has_partial_stream
    encapsulated_http_status_code
program = tt

abbrev two_finish : List Step
two_finish =
    streams
    ∷ claims none none (codes "")
    ∷ claims none none outcome_blocked
    ∷ settles 0 true 12
    ∷ []

one_outcome :
    ((ended true true true (some 5) two_finish).accounting.finished ≡ true)
    × ((ended true true true (some 5) two_finish).pending ≡ [])
    × ((ended true true true (some 5) two_finish).ledger.entries
        ≡ booked (record { outcome = outcome_error; duration = some 7 }) ∷ [])
unfolding program
one_outcome = (refl, refl, refl)

-- A collector that is set later gets the outcome; without a request none is recorded.
nothing_recorded :
    ((ended true true false none two_finish).ledger.entries
      ≡ booked (record { outcome = outcome_error; duration = none }) ∷ [])
    × ((ended true false true none two_finish).ledger.entries ≡ unbooked ∷ [])
unfolding program
nothing_recorded = (refl, refl)

finalize-once_example :
    (length (ended true true true (some 5) two_finish).ledger.entries
        + length (ended true true true (some 5) two_finish).pending
      ≤ 1)
    × ((ended true true true (some 5) two_finish).ledger.in_flight_dec
        ≤ (ended true true true (some 5) two_finish).ledger.in_flight_inc)
    × ((ended true true true (some 5) two_finish).ledger.streaming_dec
        ≤ (ended true true true (some 5) two_finish).ledger.streaming_inc)
finalize-once_example = finalize-once true true true (some 5) two_finish

finalize-balanced_example :
    ((ended true true true (some 5) two_finish).ledger.in_flight_inc
      ≡ (ended true true true (some 5) two_finish).ledger.in_flight_dec)
    × ((ended true true true (some 5) two_finish).ledger.streaming_inc
        ≡ (ended true true true (some 5) two_finish).ledger.streaming_dec)
    × ((e : Entry) × ((ended true true true (some 5) two_finish).ledger.entries ≡ e ∷ [])
        × Explained true true (always_collects two_finish) e)
finalize-balanced_example =
    finalize-balanced true true true (some 5) two_finish one_outcome.0 one_outcome.1
