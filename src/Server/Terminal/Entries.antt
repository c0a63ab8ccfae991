-- ===== src/Server/Terminal/Entries.antt =====
-- internal/server/terminal.go: what the claims come to that are settled.
use icapmock.Prelude.{
  ℕ, ◌≡◌, ◌⊎◌, refl, ◌&&◌, ◌||◌, All, Bool-cases, inl, inr, Bool, true, false, Option, none, some,
  List, [], ◌∷◌, arith,
}
use icapmock.Server.Terminal.{
  TerminalAccounting, Ledger, Pending, World, Step, starts, streams, claims, settles, Booking,
  Entry, booked, unbooked, panicked, record_outcome, pick, settled_by, start_at, streaming_started,
  claim_terminal, settle, step, run, opened, new_base_terminal_accounting,
  new_pending_terminal_accounting, new_terminal_accounting,
}

-- The accounting of a request whose timing starts at once, `some now`, or later.
abbrev pub opening : Bool → Bool → Bool → Option ℕ → TerminalAccounting × Ledger
opening server request collector none = new_pending_terminal_accounting server request collector
opening server request collector (some now) = new_terminal_accounting server request collector now

-- The server has a collector wherever a claim is settled.
abbrev pub always_collects : List Step → Bool
always_collects [] = true
always_collects (starts now ∷ ss) = always_collects ss
always_collects (streams ∷ ss) = always_collects ss
always_collects (claims metadata response outcome ∷ ss) = always_collects ss
always_collects (settles i collector now ∷ ss) = collector && always_collects ss

-- A claim panics exactly for a nil server, and records its outcome unless the request is nil or there
-- was no collector.
abbrev pub Explained : Bool → Bool → Bool → Entry → Type 0
Explained server request collects e =
    ((server ≡ false) × (e ≡ panicked))
    ⊎ ((server ≡ true) × ((request ≡ false) ⊎ (collects ≡ false)) × (e ≡ unbooked))
    ⊎ ((server ≡ true) × (request ≡ true) × ((b : Booking) × (e ≡ booked b)))

record_outcome-Explained :
    (server request collector collects : Bool) (b : Booking)
    → (collects ≡ true → collector ≡ true)
    → Explained server request collects (record_outcome server request collector b)
record_outcome-Explained false request collector collects b h = inl (refl, refl)
record_outcome-Explained true false collector collects b h =
    inr (inl (refl, inl refl, ground (arith, Bool-cases collector)))
record_outcome-Explained true true true collects b h = inr (inr (refl, refl, (b, refl)))
record_outcome-Explained true true false false b h = inr (inl (refl, inr refl, refl))
record_outcome-Explained true true false true b h = absurd (let f = h refl in cc)

pub record IsExplained (server request collects : Bool) (w : World) : Type 0 where
  server_is : w.accounting.has_server ≡ server
  request_is : w.accounting.has_request ≡ request
  pub entries : All (Explained server request collects) w.ledger.entries

picked-IsExplained :
    (server request collects collector : Bool) (now : ℕ) (w : World)
    (o : Option (Pending × List Pending))
    → (collects ≡ true → collector ≡ true)
    → IsExplained server request collects w
    → IsExplained server request collects (settled_by collector now w o)
unfolding settle
picked-IsExplained server request collects collector now w none h v = v
picked-IsExplained server request collects collector now w (some (p, ps)) h v = record {
  server_is = v.server_is;
  request_is = v.request_is;
  entries = (
    rw (v.server_is, v.request_is) (record_outcome-Explained server request collector collects _ h),
    v.entries,
  );
}

step-IsExplained :
    (server request collects : Bool) (s : Step) (w : World)
    → (collects ≡ true → always_collects (s ∷ []) ≡ true)
    → IsExplained server request collects w
    → IsExplained server request collects (step s w)
unfolding step start_at streaming_started claim_terminal
step-IsExplained server request collects (starts now) w h v =
    elim (Bool-cases (w.accounting.finished || w.accounting.timing_started)) [
      | inl e ↦
          rw e (record { server_is = v.server_is; request_is = v.request_is; entries = v.entries })
      | inr e ↦
          rw e (record { server_is = v.server_is; request_is = v.request_is; entries = v.entries })
    ]
step-IsExplained server request collects streams w h v =
    elim (Bool-cases (w.accounting.finished || w.accounting.streaming_active)) [
      | inl e ↦
          rw e (record { server_is = v.server_is; request_is = v.request_is; entries = v.entries })
      | inr e ↦
          rw e (record { server_is = v.server_is; request_is = v.request_is; entries = v.entries })
    ]
step-IsExplained server request collects (claims metadata response outcome) w h v =
    elim (Bool-cases w.accounting.finished) [
      | inl e ↦
          rw e (record { server_is = v.server_is; request_is = v.request_is; entries = v.entries })
      | inr e ↦
          rw e (record { server_is = v.server_is; request_is = v.request_is; entries = v.entries })
    ]
step-IsExplained server request collects (settles i collector now) w h v =
    picked-IsExplained server request collects collector now w (pick i w.pending)
      (λ e. let f = h e in ground (arith, f)) v

pub run-IsExplained :
    (server request collects : Bool) (ss : List Step) (w : World)
    → (collects ≡ true → always_collects ss ≡ true)
    → IsExplained server request collects w
    → IsExplained server request collects (run ss w)
unfolding run
run-IsExplained server request collects [] w h v = v
run-IsExplained server request collects (s ∷ ss) w h v =
    run-IsExplained server request collects ss (step s w) (λ e. (always_split s ss (h e)).1)
      (step-IsExplained server request collects s w (λ e. (always_split s ss (h e)).0) v)
  where
    always_split :
        (t : Step) (ts : List Step)
        → always_collects (t ∷ ts) ≡ true
        → (always_collects (t ∷ []) ≡ true) × (always_collects ts ≡ true)
    always_split (starts now) ts e = (refl, e)
    always_split streams ts e = (refl, e)
    always_split (claims metadata response outcome) ts e = (refl, e)
    always_split (settles i collector now) ts e = (ground (arith, e), ground (arith, e))

pub opening-IsExplained :
    (server request collector collects : Bool) (timed : Option ℕ)
    → IsExplained server request collects (opened (opening server request collector timed))
unfolding new_terminal_accounting new_pending_terminal_accounting new_base_terminal_accounting
opening-IsExplained server request collector collects none = record {
  server_is = refl;
  request_is = refl;
  entries = tt;
}
opening-IsExplained server request collector collects (some now) = record {
  server_is = refl;
  request_is = refl;
  entries = tt;
}
