-- ===== src/Server/Terminal.antt =====
-- internal/server/terminal.go, and `requestOutcome`, `recordTerminalMetrics` and
-- `recordIncomingRequestOutcome` of internal/server/metrics.go: the accounting of one request, which any number of goroutines may try to finish. The methods hold the mutex, so
-- each is one step; `finalize` is two, the claim under the mutex and the bookings behind it, and
-- other goroutines run in between.
pub mod Entries
pub mod Balance
use icapmock.Prelude.{
  ℕ, zero, suc, ◌+◌, ◌-◌, Bool, true, false, not, ◌&&◌, ◌||◌, Option, none, some, List, [], ◌∷◌,
  leb, if◌then◌else◌, Bytes, codes, ◌=ᵇ◌, is_nil,
}
use icapmock.Prelude.Int64.{ℤ, pos, int_ltb}
use icapmock.Prelude.Radix.{parse_int}

abbrev pub outcome_allowed : Bytes
outcome_allowed = codes "allowed"

abbrev pub outcome_blocked : Bytes
outcome_blocked = codes "blocked"

abbrev pub outcome_error : Bytes
outcome_error = codes "error"

abbrev pub status_bad_request : ℕ
status_bad_request = 400

-- The status and, for a streamed body, how its stream finishes.
pub record HttpMessage : Type 0 where
  pub status : Bytes
  pub finish_mode : Option Bytes

pub record Response : Type 0 where
  pub status_code : ℕ
  pub http_request : Option HttpMessage
  pub http_response : Option HttpMessage

unfoldable pub encapsulated_http_status_code : Response → ℤ
encapsulated_http_status_code r = elim r.http_response [
  | none ↦ pos 0
  | some m ↦ elim (parse_int 10 m.status) [ none ↦ pos 0 | some code ↦ code ]
]

unfoldable pub request_outcome : Option Response → Bytes
request_outcome none = outcome_error
request_outcome (some r) =
    if leb status_bad_request r.status_code
    then outcome_error
    else if not (int_ltb (encapsulated_http_status_code r) (pos status_bad_request))
    then outcome_blocked
    else outcome_allowed

unfoldable pub message_has_partial_stream : Option HttpMessage → Bool
message_has_partial_stream none = false
message_has_partial_stream (some m) = elim m.finish_mode [
  | none ↦ false
  | some mode ↦ mode =ᵇ codes "fin" || mode =ᵇ codes "term"
]

unfoldable pub response_has_partial_stream : Option Response → Bool
response_has_partial_stream none = false
response_has_partial_stream (some r) =
    message_has_partial_stream r.http_request || message_has_partial_stream r.http_response

-- The first argument is the outcome of the context's scenario metadata.
unfoldable pub effective_request_outcome : Option Bytes → Option Response → Bytes
effective_request_outcome metadata response =
    let derived : Bytes =
      if response_has_partial_stream response then outcome_blocked else request_outcome response in
    elim metadata [
      | none ↦ derived
      | some o ↦ if o =ᵇ outcome_allowed || o =ᵇ outcome_blocked then o else derived
    ]

-- `has_server`, `has_request`, `has_metrics`: the pointer is not nil.
pub record TerminalAccounting : Type 0 where
  pub has_server : Bool
  pub has_request : Bool
  pub has_metrics : Bool
  pub started : ℕ
  pub timing_started : Bool
  pub finished : Bool
  pub streaming_active : Bool
  pub request_in_flight : Bool

-- An outcome that is recorded; `recordTerminalMetrics` records a duration with it.
pub record Booking : Type 0 where
  pub outcome : Bytes
  pub duration : Option ℕ

-- What a claimed `finalize` comes to: an outcome is recorded, or none where the server has no collector
-- or the request is nil, or it panics for a server that is nil.
pub data Entry : Type 0 where
  booked : Booking → Entry
  unbooked panicked : Entry

-- How often each gauge of the collector was raised and lowered, and what the claims came to.
pub record Ledger : Type 0 where
  pub in_flight_inc : ℕ
  pub in_flight_dec : ℕ
  pub streaming_inc : ℕ
  pub streaming_dec : ℕ
  pub entries : List Entry

pub record Claim : Type 0 where
  pub was_streaming : Bool
  pub request_in_flight : Bool
  pub timing_started : Bool
  pub started : ℕ

abbrev pub unused_ledger : Ledger
unused_ledger = record {
  in_flight_inc = 0;
  in_flight_dec = 0;
  streaming_inc = 0;
  streaming_dec = 0;
  entries = [];
}

-- `collector`: the server has one.
unfoldable pub new_base_terminal_accounting : Bool → Bool → Bool → TerminalAccounting × Ledger
new_base_terminal_accounting server request collector =
    let counted = server && request && collector in
    (
      record {
        has_server = server;
        has_request = request;
        has_metrics = counted;
        started = 0;
        timing_started = false;
        finished = false;
        streaming_active = false;
        request_in_flight = counted;
      },
      record unused_ledger { in_flight_inc = if counted then 1 else 0 },
    )

unfoldable pub new_pending_terminal_accounting : Bool → Bool → Bool → TerminalAccounting × Ledger
new_pending_terminal_accounting server request collector =
    new_base_terminal_accounting server request collector

unfoldable pub new_terminal_accounting : Bool → Bool → Bool → ℕ → TerminalAccounting × Ledger
new_terminal_accounting server request collector now =
    let (a, l) = new_base_terminal_accounting server request collector in
    (record a { started = now; timing_started = true }, l)

unfoldable pub start_at : ℕ → TerminalAccounting → TerminalAccounting
start_at now a =
    if a.finished || a.timing_started then a else record a { started = now; timing_started = true }

unfoldable pub streaming_started : TerminalAccounting × Ledger → TerminalAccounting × Ledger
streaming_started (a, l) = if a.finished || a.streaming_active then (a, l) else (
  record a { streaming_active = true },
  record l { streaming_inc = if a.has_metrics then l.streaming_inc + 1 else l.streaming_inc },
)

unfoldable pub claim_terminal : TerminalAccounting → Option Claim × TerminalAccounting
claim_terminal a = if a.finished then (none, a) else (
  some (record {
    was_streaming = a.streaming_active;
    request_in_flight = a.request_in_flight;
    timing_started = a.timing_started;
    started = a.started;
  }),
  record a { finished = true; streaming_active = false; request_in_flight = false },
)

-- What `finalize` was called with, for a claim that it made.
pub record Pending : Type 0 where
  pub claim : Claim
  pub metadata : Option Bytes
  pub response : Option Response
  pub outcome : Bytes

-- `recordTerminalMetrics`, or `recordIncomingRequestOutcome` where there is no duration; `collector`: the
-- server has one by now.
abbrev pub record_outcome : Bool → Bool → Bool → Booking → Entry
record_outcome server request collector booking =
    if not server
    then panicked
    else if not collector || not request
    then unbooked
    else booked booking

-- The rest of `finalize`, at the time `now`, when the server has a collector or not.
unfoldable pub settle : TerminalAccounting → Bool → ℕ → Pending → Ledger → Ledger
settle a collector now p l =
    let c = p.claim in
    let outcome =
      if is_nil p.outcome then effective_request_outcome p.metadata p.response else p.outcome in
    record l {
      streaming_dec =
          if c.was_streaming && a.has_metrics then l.streaming_dec + 1 else l.streaming_dec;
      in_flight_dec =
          if c.request_in_flight && a.has_metrics then l.in_flight_dec + 1 else l.in_flight_dec;
      entries =
          record_outcome a.has_server a.has_request collector (record {
            outcome = outcome;
            duration = if c.timing_started then some (now - c.started) else none;
          })
          ∷ l.entries;
    }

-- The request's accounting, the collector, and the goroutines that are behind their claim.
pub record World : Type 0 where
  pub accounting : TerminalAccounting
  pub ledger : Ledger
  pub pending : List Pending

pub data Step : Type 0 where
  starts : ℕ → Step
  streams : Step
  claims : Option Bytes → Option Response → Bytes → Step
  settles : ℕ → Bool → ℕ → Step

abbrev pub pick : ℕ → List Pending → Option (Pending × List Pending)
pick i [] = none
pick zero (p ∷ ps) = some (p, ps)
pick (suc i) (p ∷ ps) = elim (pick i ps) [ none ↦ none | some (q, qs) ↦ some (q, p ∷ qs) ]

abbrev pub settled_by : Bool → ℕ → World → Option (Pending × List Pending) → World
settled_by collector now w none = w
settled_by collector now w (some (p, ps)) = record w {
  ledger = settle w.accounting collector now p w.ledger;
  pending = ps;
}

-- One step of some goroutine; `settles i collector now` is that of the one that made the
-- `i`th claim.
unfoldable pub step : Step → World → World
step (starts now) w = record w { accounting = start_at now w.accounting }
step streams w =
    let (a, l) = streaming_started (w.accounting, w.ledger) in
    record w { accounting = a; ledger = l }
step (claims metadata response outcome) w =
    let (claim, a) = claim_terminal w.accounting in
    elim claim [
      | none ↦ w
      | some c ↦ record w {
        accounting = a;
        pending =
            record { claim = c; metadata = metadata; response = response; outcome = outcome }
            ∷ w.pending;
      }
    ]
step (settles i collector now) w = settled_by collector now w (pick i w.pending)

unfoldable pub run : List Step → World → World
run [] w = w
run (s ∷ ss) w = run ss (step s w)

abbrev pub opened : TerminalAccounting × Ledger → World
opened (a, l) = record { accounting = a; ledger = l; pending = [] }
