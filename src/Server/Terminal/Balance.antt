-- ===== src/Server/Terminal/Balance.antt =====
-- internal/server/terminal.go: a request is finished once, and its gauges go back to where they were.
use icapmock.Prelude.{
  ℕ, zero, suc, ◌+◌, ◌≤◌, ◌≡◌, refl, ap, All, Bytes, Bool-cases, inl, inr, Bool, true, false,
  Option, none, some, List, [], ◌∷◌, if◌then◌else◌, length, arith,
}
use icapmock.Server.Terminal.{
  Response, TerminalAccounting, Ledger, Pending, World, Step, starts, streams, claims, settles,
  Entry, start_at, streaming_started, claim_terminal, settle, step, run, opened,
  new_base_terminal_accounting, new_pending_terminal_accounting, new_terminal_accounting,
}
use icapmock.Server.Terminal.Entries.{
  opening, always_collects, Explained, run-IsExplained, opening-IsExplained,
}

abbrev flag : Bool → ℕ
flag true = 1
flag false = 0

abbrev pending_in_flight : List Pending → ℕ
pending_in_flight [] = 0
pending_in_flight (p ∷ ps) = flag p.claim.request_in_flight + pending_in_flight ps

abbrev pending_streams : List Pending → ℕ
pending_streams [] = 0
pending_streams (p ∷ ps) = flag p.claim.was_streaming + pending_streams ps

-- Each gauge is up by what the request, or a claim that is not settled, still holds.
record IsBalanced (w : World) : Type 0 where
  once : length w.ledger.entries + length w.pending ≡ flag w.accounting.finished
  in_flight :
      w.ledger.in_flight_inc
      ≡ w.ledger.in_flight_dec + (flag w.accounting.request_in_flight + pending_in_flight w.pending)
  counted :
      flag w.accounting.request_in_flight + pending_in_flight w.pending
      ≤ flag w.accounting.has_metrics
  streaming :
      w.ledger.streaming_inc
      ≡ w.ledger.streaming_dec
        + (if w.accounting.has_metrics
            then flag w.accounting.streaming_active + pending_streams w.pending
            else 0)
  few : w.ledger.in_flight_inc ≤ 1
  idle : flag w.accounting.finished + flag w.accounting.request_in_flight ≤ 1
  quiet : flag w.accounting.finished + flag w.accounting.streaming_active ≤ 1

starts-IsBalanced : (now : ℕ) (w : World) → IsBalanced w → IsBalanced (step (starts now) w)
unfolding step start_at
starts-IsBalanced now w h = ground arith

streams-IsBalanced : (w : World) → IsBalanced w → IsBalanced (step streams w)
unfolding step streaming_started
streams-IsBalanced w h = ground arith

claims-IsBalanced :
    (metadata : Option Bytes) (response : Option Response) (outcome : Bytes) (w : World)
    → IsBalanced w
    → IsBalanced (step (claims metadata response outcome) w)
unfolding step claim_terminal
claims-IsBalanced metadata response outcome w h = elim (Bool-cases w.accounting.finished) [
  | inl e ↦ ground (arith, e)
  | inr e ↦ ground (arith, e)
]

-- Settling the one claim there can be.
settles-last :
    (collector : Bool) (now : ℕ) (p : Pending) (a : TerminalAccounting) (l : Ledger)
    → IsBalanced (record { accounting = a; ledger = l; pending = p ∷ [] })
    → IsBalanced (record { accounting = a; ledger = settle a collector now p l; pending = [] })
unfolding settle
settles-last collector now p a l h = ground arith

settles-IsBalanced :
    (i : ℕ) (collector : Bool) (now : ℕ) (a : TerminalAccounting) (l : Ledger) (ps : List Pending)
    → IsBalanced (record { accounting = a; ledger = l; pending = ps })
    → IsBalanced
        (step (settles i collector now) (record { accounting = a; ledger = l; pending = ps }))
unfolding step
settles-IsBalanced i collector now a l [] h = h
settles-IsBalanced zero collector now a l (p ∷ []) h = settles-last collector now p a l h
settles-IsBalanced (suc i) collector now a l (p ∷ []) h = h
settles-IsBalanced i collector now a l (p ∷ q ∷ ps) h = absurd (two_claims a l p q ps h.once)
  where
    two_claims :
        (b : TerminalAccounting) (m : Ledger) (x y : Pending) (zs : List Pending)
        → length m.entries + length (x ∷ y ∷ zs) ≡ flag b.finished
        → ⊥
    two_claims b m x y zs e = ground arith

step-IsBalanced : (s : Step) (w : World) → IsBalanced w → IsBalanced (step s w)
step-IsBalanced (starts now) w h = starts-IsBalanced now w h
step-IsBalanced streams w h = streams-IsBalanced w h
step-IsBalanced (claims metadata response outcome) w h =
    claims-IsBalanced metadata response outcome w h
step-IsBalanced (settles i collector now) w h =
    settles-IsBalanced i collector now w.accounting w.ledger w.pending h

run-IsBalanced : (ss : List Step) (w : World) → IsBalanced w → IsBalanced (run ss w)
unfolding run
run-IsBalanced [] w h = h
run-IsBalanced (s ∷ ss) w h = run-IsBalanced ss (step s w) (step-IsBalanced s w h)

abbrev pub ended : Bool → Bool → Bool → Option ℕ → List Step → World
ended server request collector timed ss = run ss (opened (opening server request collector timed))

opening-IsBalanced :
    (server request collector : Bool) (timed : Option ℕ)
    → IsBalanced (opened (opening server request collector timed))
unfolding new_terminal_accounting new_pending_terminal_accounting new_base_terminal_accounting
opening-IsBalanced server request collector none = ground arith
opening-IsBalanced server request collector (some now) = ground arith

ended-IsBalanced :
    (server request collector : Bool) (timed : Option ℕ) (ss : List Step)
    → IsBalanced (ended server request collector timed ss)
ended-IsBalanced server request collector timed ss =
    run-IsBalanced ss (opened (opening server request collector timed))
      (opening-IsBalanced server request collector timed)

-- Whatever the goroutines do and in whatever order, one at most finishes the request,
-- whether its timing started at once or later: there is one claim at most, settled or still to be, and no gauge is lowered more often than raised.
pub finalize-once :
    (server request collector : Bool) (timed : Option ℕ) (ss : List Step)
    → (length (ended server request collector timed ss).ledger.entries
          + length (ended server request collector timed ss).pending
        ≤ 1)
      × ((ended server request collector timed ss).ledger.in_flight_dec
          ≤ (ended server request collector timed ss).ledger.in_flight_inc)
      × ((ended server request collector timed ss).ledger.streaming_dec
          ≤ (ended server request collector timed ss).ledger.streaming_inc)
finalize-once server request collector timed ss =
    let h = ended-IsBalanced server request collector timed ss in
    (ground (arith, h.once), omega (arith, h.in_flight), omega (arith, h.streaming))

settled :
    (w : World)
    → IsBalanced w
    → w.accounting.finished ≡ true
    → w.pending ≡ []
    → (w.ledger.in_flight_inc ≡ w.ledger.in_flight_dec)
      × (w.ledger.streaming_inc ≡ w.ledger.streaming_dec)
      × (length w.ledger.entries ≡ 1)
settled w h f p = ground (arith, f, p, ap pending_in_flight p, ap pending_streams p, ap length p)

only_entry :
    (P : Entry → Type 0) (l : List Entry)
    → length l ≡ 1
    → All P l
    → (e : Entry) × (l ≡ e ∷ []) × P e
only_entry P [] h a = absurd (omega (arith, h))
only_entry P (e ∷ []) h a = (e, refl, a.0)
only_entry P (e ∷ f ∷ l) h a = absurd (omega (arith, h))

-- Once the request is finished and no goroutine is behind its claim, each gauge was lowered as
-- often as raised, and one claim was settled, whether its timing started at once or later. It panics exactly where the server is nil; otherwise
-- it records one outcome, unless the request is nil or the server had no collector by then.
pub finalize-balanced :
    (server request collector : Bool) (timed : Option ℕ) (ss : List Step)
    → (ended server request collector timed ss).accounting.finished ≡ true
    → (ended server request collector timed ss).pending ≡ []
    → ((ended server request collector timed ss).ledger.in_flight_inc
        ≡ (ended server request collector timed ss).ledger.in_flight_dec)
      × ((ended server request collector timed ss).ledger.streaming_inc
          ≡ (ended server request collector timed ss).ledger.streaming_dec)
      × ((e : Entry) × ((ended server request collector timed ss).ledger.entries ≡ e ∷ [])
          × Explained server request (always_collects ss) e)
finalize-balanced server request collector timed ss f p =
    let w = ended server request collector timed ss in
    let (in_flight, streaming, one) =
      settled w (ended-IsBalanced server request collector timed ss) f p in
    let v =
      run-IsExplained server request (always_collects ss) ss
        (opened (opening server request collector timed)) (λ e. e)
        (opening-IsExplained server request collector (always_collects ss) timed) in
    (
      in_flight,
      streaming,
      only_entry (Explained server request (always_collects ss)) w.ledger.entries one v.entries,
    )
