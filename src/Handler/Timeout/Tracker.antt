-- ===== src/Handler/Timeout/Tracker.antt =====
-- internal/handler/adaptive_timeout.go: AdaptiveTimeoutTracker. Durations and times are nanoseconds, and
-- a count of requests does not overflow. The arithmetic on floats is an argument.
pub mod Bounds
use icapmock.Prelude.{
  ℕ, zero, suc, ◌+◌, ◌-◌, ◌*◌, ◌%◌, Bool, true, false, ◌&&◌, ◌||◌, Option, none, some, ltb, leb,
  ◌==◌, if◌then◌else◌, Bytes, ◌=ᵇ◌,
}
use icapmock.Prelude.Int64.{ℤ, pos, pos_part, int_ltb}
use icapmock.Handler.Timeout.{quickselect}

abbrev min_data_points : ℕ
min_data_points = 100

-- A map whose keys are a method and a path.
abbrev pub EndpointMap : Type 0 → Type 0
EndpointMap A = Bytes → Bytes → Option A

abbrev pub write_entry : {A : Type 0} → Bytes → Bytes → A → EndpointMap A → EndpointMap A
write_entry method path value entries m p =
    if (m =ᵇ method) && (p =ᵇ path) then some value else entries m p

-- `index95 n` is the number of n items times 0.95, and `scaled p` a duration times the safety
-- multiplier, both as integers.
pub record Floats : Type 0 where
  pub index95 : ℕ → ℕ
  pub scaled : ℕ → ℤ

-- `durations` is a ring of `sample_size` items.
pub record EndpointStats : Type 0 where
  pub last_adjust : ℕ
  pub durations : ℕ → ℕ
  pub head : ℕ
  pub count : ℕ
  pub total_count : ℕ
  pub sample_size : ℕ

pub record AdaptiveTimeoutTracker : Type 0 where
  pub stats : EndpointMap EndpointStats
  pub current_timeout : EndpointMap ℕ
  pub sample_size : ℕ
  pub adjustment_interval : ℕ
  pub adjustment_freq : ℕ
  pub min_timeout : ℕ
  pub max_timeout : ℕ
  pub fallback_timeout : ℕ

-- The items of the ring, the oldest first where it is full.
unfoldable pub window : EndpointStats → ℕ → ℕ
window s x =
    if ltb s.count s.sample_size
    then s.durations x
    else let n = s.sample_size - s.head in
      if ltb x n then s.durations (s.head + x) else s.durations (x - n)

abbrev pub percentile_index : Floats → ℕ → ℕ
percentile_index floats count =
    let index = floats.index95 count in if leb count index then count - 1 else index

abbrev pub value_of : Option (ℕ × (ℕ → ℕ)) → Option ℕ
value_of none = none
value_of (some (v, arr)) = some v

unfoldable pub calculate_p95 : Floats → AdaptiveTimeoutTracker → EndpointStats → Option ℕ
calculate_p95 floats t s =
    if s.count == 0
    then some t.fallback_timeout
    else value_of (quickselect s.count (window s) 0 (s.count - 1) (percentile_index floats s.count))

unfoldable pub clamp : ℕ → ℕ → ℤ → ℕ
clamp low high timeout =
    let raised = if int_ltb timeout (pos low) then low else pos_part timeout in
    if ltb high raised then high else raised

abbrev pub set_timeout :
    Floats → Bytes → Bytes → AdaptiveTimeoutTracker → Option ℕ → Option AdaptiveTimeoutTracker
set_timeout floats method path t none = none
set_timeout floats method path t (some p95) = some (record t {
  current_timeout =
      write_entry method path (clamp t.min_timeout t.max_timeout (floats.scaled p95))
        t.current_timeout;
})

unfoldable pub adjust_timeout :
    Floats → Bytes → Bytes → EndpointStats → AdaptiveTimeoutTracker → Option AdaptiveTimeoutTracker
adjust_timeout floats method path s t = set_timeout floats method path t (calculate_p95 floats t s)

unfoldable pub new_stats : ℕ → ℕ → EndpointStats
new_stats size now = record {
  last_adjust = now;
  durations = λ x. 0;
  head = 0;
  count = 0;
  total_count = 0;
  sample_size = size;
}

abbrev pub stats_or_new : Option EndpointStats → ℕ → ℕ → EndpointStats
stats_or_new none size now = new_stats size now
stats_or_new (some s) size now = s

unfoldable pub insert_duration : ℕ → EndpointStats → EndpointStats
insert_duration duration s = record s {
  durations = λ x. if x == s.head then duration else s.durations x;
  head = (s.head + 1) % s.sample_size;
  count = if ltb s.count s.sample_size then s.count + 1 else s.count;
  total_count = s.total_count + 1;
}

unfoldable pub should_adjust : AdaptiveTimeoutTracker → EndpointStats → ℕ → Bool
should_adjust t s now =
    (s.total_count % t.adjustment_freq == 0) || leb t.adjustment_interval (now - s.last_adjust)

abbrev pub adjusted :
    Bool
    → Floats
    → Bytes
    → Bytes
    → EndpointStats
    → ℕ
    → AdaptiveTimeoutTracker
    → Option AdaptiveTimeoutTracker
adjusted false floats method path s now t =
    some (record t { stats = write_entry method path s t.stats })
adjusted true floats method path s now t =
    let s' = record s { last_adjust = now } in
    adjust_timeout floats method path s' (record t { stats = write_entry method path s' t.stats })

-- The clock is read where the endpoint is new, for the test and for the time of the adjustment.
unfoldable pub record_duration :
    Floats → Bytes → Bytes → ℕ → ℕ × ℕ × ℕ → AdaptiveTimeoutTracker → Option AdaptiveTimeoutTracker
record_duration floats method path duration (created, tested, done) t =
    let s = insert_duration duration (stats_or_new (t.stats method path) t.sample_size created) in
    adjusted (should_adjust t s tested && leb min_data_points s.count) floats method path s done t

abbrev pub timeout_or : ℕ → Option ℕ → ℕ
timeout_or fallback none = fallback
timeout_or fallback (some timeout) = timeout

unfoldable pub get_timeout : Bytes → Bytes → AdaptiveTimeoutTracker → ℕ
get_timeout method path t = timeout_or t.fallback_timeout (t.current_timeout method path)

-- A setting below 1 takes its default.
abbrev or_default : ℕ → ℕ → ℕ
or_default zero default = default
or_default (suc n) default = suc n

abbrev second : ℕ
second = 1000000000

-- The safety multiplier is with the floats.
unfoldable pub new_adaptive_timeout_tracker : ℕ → ℕ → ℕ → ℕ → ℕ → ℕ → AdaptiveTimeoutTracker
new_adaptive_timeout_tracker size interval freq low high fallback = record {
  stats = λ m p. none;
  current_timeout = λ m p. none;
  sample_size = or_default size 1000;
  adjustment_interval = or_default interval (10 * second);
  adjustment_freq = or_default freq 100;
  min_timeout = or_default low 10000000;
  max_timeout = or_default high (60 * second);
  fallback_timeout = or_default fallback (30 * second);
}
