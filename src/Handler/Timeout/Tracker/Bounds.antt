-- ===== src/Handler/Timeout/Tracker/Bounds.antt =====
-- internal/handler/adaptive_timeout.go: percentiles, and timeouts that stay within their bounds.
use icapmock.Prelude.{
  ℕ, ◌+◌, ◌-◌, ◌<◌, ◌≤◌, ◌≡◌, ◌⊎◌, refl, ap, subst, Bool, true, false, ◌&&◌, Option, none, some,
  arith, leb, ◌==◌, ==_iff, Bytes, ◌=ᵇ◌, inl, inr, Bool-cases,
}
use native.Mathlib.Nat.{mod-lt}
use icapmock.Prelude.Int64.{ℤ, pos, negsuc}
use icapmock.Handler.Timeout.Selection.{IsSelected, quickselect-Selects}
use icapmock.Handler.Timeout.Tracker.{
  EndpointMap, write_entry, Floats, EndpointStats, AdaptiveTimeoutTracker, window, percentile_index,
  value_of, calculate_p95, clamp, set_timeout, adjust_timeout, new_stats, stats_or_new,
  insert_duration, should_adjust, adjusted, record_duration,
}

-- The percentile of at least one item is the item of that rank in the window.
pub calculate_p95-Ranks :
    (floats : Floats) (t : AdaptiveTimeoutTracker) (s : EndpointStats)
    → 0 < s.count
    → (v : ℕ) × (arr' : ℕ → ℕ) × (calculate_p95 floats t s ≡ some v)
      × IsSelected 0 (s.count - 1) (percentile_index floats s.count) (window s) v arr'
unfolding calculate_p95
calculate_p95-Ranks floats t s h =
    let k = percentile_index floats s.count in
    let some_items : (s.count == 0) ≡ false = ground (arith, h, ==_iff s.count 0) in
    let low : k ≤ s.count - 1 = ground (arith, h) in
    let (v, arr', e, r) =
      quickselect-Selects s.count (window s) 0 (s.count - 1) k (omega arith) low
        (omega (arith, h)) in
    (v, arr', rw some_items (ap value_of e), r)

calculate_p95-returns :
    (floats : Floats) (t : AdaptiveTimeoutTracker) (s : EndpointStats)
    → (v : ℕ) × (calculate_p95 floats t s ≡ some v)
unfolding calculate_p95
calculate_p95-returns floats t s = elim (Bool-cases (s.count == 0)) [
  | inl e ↦ rw e (t.fallback_timeout, refl)
  | inr e ↦
      let (v, _, f, _) = calculate_p95-Ranks floats t s (ground (arith, e, ==_iff s.count 0)) in
      (v, f)
]

clamp_bounds :
    (low high : ℕ) (timeout : ℤ)
    → low ≤ high
    → (low ≤ clamp low high timeout) × (clamp low high timeout ≤ high)
unfolding clamp
clamp_bounds low high (pos n) h = (ground arith, ground arith)
clamp_bounds low high (negsuc n) h = (ground arith, ground arith)

write_entry_cases :
    {A : Type 0}
    → (method path : Bytes) (v : A) (entries : EndpointMap A) (m p : Bytes) (d : A)
    → write_entry method path v entries m p ≡ some d
    → (v ≡ d) ⊎ (entries m p ≡ some d)
write_entry_cases method path v entries m p d h = elim (Bool-cases ((m =ᵇ method) && (p =ᵇ path))) [
  | inl e ↦ inl (let f = rw e at h in cc)
  | inr e ↦ inr (rw e at h)
]

-- A ring has as many items as it says.
abbrev IsRing : ℕ → EndpointStats → Type 0
IsRing size s = (s.sample_size ≡ size) × (s.head < s.sample_size) × (s.count ≤ s.sample_size)

-- Each ring has its items, and each timeout that is kept is within the bounds.
pub record IsTracker (t : AdaptiveTimeoutTracker) : Type 0 where
  pub sampled : 0 < t.sample_size
  pub ordered : t.min_timeout ≤ t.max_timeout
  pub rings : (m p : Bytes) (s : EndpointStats) → t.stats m p ≡ some s → IsRing t.sample_size s
  pub timeouts :
      (m p : Bytes) (d : ℕ)
      → t.current_timeout m p ≡ some d
      → (t.min_timeout ≤ d) × (d ≤ t.max_timeout)

stats_or_new-IsRing :
    (size now : ℕ) (o : Option EndpointStats)
    → 0 < size
    → ((s : EndpointStats) → o ≡ some s → IsRing size s)
    → IsRing size (stats_or_new o size now)
unfolding new_stats
stats_or_new-IsRing size now none large h = (refl, large, omega arith)
stats_or_new-IsRing size now (some s) large h = h s refl

insert_duration-IsRing :
    (size duration : ℕ) (s : EndpointStats)
    → IsRing size s
    → IsRing size (insert_duration duration s)
unfolding insert_duration
insert_duration-IsRing size duration s (e, f, g) =
    (e, mod-lt (s.head + 1) (omega (arith, f)), ground (arith, g))

write_stats-IsTracker :
    (method path : Bytes) (s : EndpointStats) (t : AdaptiveTimeoutTracker)
    → IsRing t.sample_size s
    → IsTracker t
    → IsTracker (record t { stats = write_entry method path s t.stats })
write_stats-IsTracker method path s t ring v = record {
  sampled = v.sampled;
  ordered = v.ordered;
  rings = λ m p s' e. elim (write_entry_cases method path s t.stats m p s' e) [
    | inl f ↦ subst (IsRing t.sample_size) f ring
    | inr f ↦ v.rings m p s' f
  ];
  timeouts = v.timeouts;
}

adjust_timeout-IsTracker :
    (floats : Floats) (method path : Bytes) (s : EndpointStats) (t : AdaptiveTimeoutTracker)
    → IsTracker t
    → (t' : AdaptiveTimeoutTracker) × (adjust_timeout floats method path s t ≡ some t')
      × IsTracker t'
unfolding adjust_timeout
adjust_timeout-IsTracker floats method path s t v =
    let (p95, e) = calculate_p95-returns floats t s in
    let d = clamp t.min_timeout t.max_timeout (floats.scaled p95) in
    (
      record t { current_timeout = write_entry method path d t.current_timeout },
      ap (set_timeout floats method path t) e,
      record {
        sampled = v.sampled;
        ordered = v.ordered;
        rings = v.rings;
        timeouts = λ m p x f. elim (write_entry_cases method path d t.current_timeout m p x f) [
          | inl g ↦
              subst (λ (y : ℕ). (t.min_timeout ≤ y) × (y ≤ t.max_timeout)) g
                (clamp_bounds t.min_timeout t.max_timeout (floats.scaled p95) v.ordered)
          | inr g ↦ v.timeouts m p x g
        ];
      },
    )

-- RecordDuration always returns, whatever the arithmetic on floats gives, and keeps each ring of
-- durations within its size and each adapted timeout within the bounds, where these are in order.
pub record_duration-IsTracker :
    (floats : Floats) (method path : Bytes) (duration : ℕ) (clock : ℕ × ℕ × ℕ)
    (t : AdaptiveTimeoutTracker)
    → IsTracker t
    → (t' : AdaptiveTimeoutTracker) × (record_duration floats method path duration clock t
        ≡ some t')
      × IsTracker t'
unfolding record_duration
record_duration-IsTracker floats method path duration (created, tested, done) t v =
    let old = stats_or_new (t.stats method path) t.sample_size created in
    let s = insert_duration duration old in
    let ring = insert_duration-IsRing t.sample_size duration old (
      stats_or_new-IsRing t.sample_size created (t.stats method path) v.sampled
        (v.rings method path)) in
    adjusted-IsTracker floats method path s done t ring v
      (should_adjust t s tested && leb 100 s.count)
  where
    adjusted-IsTracker :
        (floats : Floats) (method path : Bytes) (s : EndpointStats) (done : ℕ)
        (t : AdaptiveTimeoutTracker)
        → IsRing t.sample_size s
        → IsTracker t
        → (b : Bool)
        → (t' : AdaptiveTimeoutTracker) × (adjusted b floats method path s done t ≡ some t')
          × IsTracker t'
    adjusted-IsTracker floats method path s done t ring v false =
        (_, refl, write_stats-IsTracker method path s t ring v)
    adjusted-IsTracker floats method path s done t ring v true =
        let s' = record s { last_adjust = done } in
        adjust_timeout-IsTracker floats method path s' _
          (write_stats-IsTracker method path s' t (ring.0, ring.1, ring.2) v)
