-- ===== src/Tests/Timeout.antt =====
-- internal/handler/adaptive_timeout.go: a few items, and a new tracker.
use icapmock.Prelude.{ℕ, ◌+◌, ◌≡◌, refl, some, arith, ◌==◌, if◌then◌else◌, codes}
use icapmock.Prelude.Int64.{pos}
use icapmock.Handler.Timeout.{partition_from, partition, quickselect}
use icapmock.Handler.Timeout.Selection.{IsSelected, quickselect-Selects}
use icapmock.Handler.Timeout.Tracker.{
  Floats, AdaptiveTimeoutTracker, value_of, record_duration, new_adaptive_timeout_tracker,
  get_timeout,
}
use icapmock.Handler.Timeout.Tracker.Bounds.{IsTracker, record_duration-IsTracker}

-- The items 5, 1, 4 and 2.
abbrev four : ℕ → ℕ
four x = if x == 0 then 5 else if x == 1 then 1 else if x == 2 then 4 else 2

third_of_four : value_of (quickselect 4 four 0 3 2) ≡ some 4
unfolding quickselect partition partition_from
third_of_four = refl

quickselect-Selects_example :
    (v : ℕ) × (arr' : ℕ → ℕ) × (quickselect 4 four 0 3 2 ≡ some (v, arr'))
    × IsSelected 0 3 2 four v arr'
quickselect-Selects_example =
    quickselect-Selects 4 four 0 3 2 (omega arith) (omega arith) (omega arith)

abbrev floats : Floats
floats = record { index95 = λ n. n; scaled = λ p. pos (p + p) }

abbrev tracker : AdaptiveTimeoutTracker
tracker = new_adaptive_timeout_tracker 2 5 1 10 1000 50

fallback_at_first : get_timeout (codes "REQMOD") (codes "/a") tracker ≡ 50
unfolding new_adaptive_timeout_tracker get_timeout
fallback_at_first = refl

tracker_new : IsTracker tracker
unfolding new_adaptive_timeout_tracker
tracker_new = record {
  sampled = omega arith;
  ordered = omega arith;
  rings = λ m p s e. absurd (cc);
  timeouts = λ m p d e. absurd (cc);
}

record_duration-IsTracker_example :
    (t' : AdaptiveTimeoutTracker) × (record_duration floats
        (codes "REQMOD")
        (codes "/a")
        7
        (1, 2, 3)
        tracker
      ≡ some t')
    × IsTracker t'
record_duration-IsTracker_example =
    record_duration-IsTracker floats (codes "REQMOD") (codes "/a") 7 (1, 2, 3) tracker tracker_new
