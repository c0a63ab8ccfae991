-- ===== src/Icap/StreamPlan/Offsets.antt =====
-- pkg/icap/stream_plan.go: when each planned chunk starts.
use native.Mathlib.Nat.{
  le-div_iff_mul-le, div-add-mod, mul-add-div, mul-le-mul_left, mul-le-mul_right, mul_comm,
  mul_assoc, add-mul, div-mul-le_self, mul-div_cancel, div-le_of_le-mul, zero-div,
}
use native.Mathlib.Decide.{dec_le, dec_lt, ℕ_discrete}
use icapmock.Prelude.{
  ℕ, suc, ◌+◌, ◌-◌, ◌*◌, ◌/◌, ◌%◌, ◌≤◌, ◌<◌, ◌≡◌, sym, ap, ◌∙◌, false, none, some, arith, ltb, ◌==◌,
  if◌then◌else◌, Bool-cases, inl, inr,
}
use icapmock.Prelude.Int64.{pos, pos_part, max_int64, wrap64_small}
use icapmock.Icap.StreamPlan.{
  BodyStreamPlanOptions, BodyStreamPlan, planned, plan_body_stream, planned_chunk_count,
  cadence_out_of_range, new_body_stream_plan, with_default_finish, selected_body_bytes,
  duration_chunk_offset, chunk_offset,
}
use icapmock.Icap.StreamPlan.Counts.{plan_body_stream-PlannedFrom, planned_chunk_count_slots}

-- The start of chunk `i` on the real time line: the duration is cut into equal intervals, rounded
-- down to a nanosecond; with no duration the chunks follow at the cadence.
abbrev pub ideal_offset : BodyStreamPlan → ℕ → ℕ
ideal_offset p i =
    if ltb 0 p.duration
    then if p.chunk_count == 1 then p.duration else p.duration * i / (p.chunk_count - 1)
    else i * p.every

-- The fields of a returned plan that its timing depends on.
record IsTimed (p : BodyStreamPlan) : Type 0 where
  duration_fits : p.duration ≤ max_int64
  every_fits : p.every ≤ max_int64
  in_range : cadence_out_of_range p.every p.chunk_count ≡ false
  has_room : 0 < p.duration → 0 < p.every → p.chunk_count ≤ p.duration / p.every + 1

plan-IsTimed :
    (o : BodyStreamPlanOptions) {p : BodyStreamPlan}
    → pos_part o.duration ≤ max_int64
    → pos_part o.every ≤ max_int64
    → plan_body_stream o ≡ planned p
    → IsTimed p
unfolding new_body_stream_plan with_default_finish
plan-IsTimed o {p} hd he h =
    let made = plan_body_stream-PlannedFrom o h in
    let o' = with_default_finish o in
    let body = selected_body_bytes o' in
    let duration : p.duration ≡ pos_part o'.duration = rw made.plan_is in
    let every : p.every ≡ pos_part o'.every = rw made.plan_is in
    let count : p.chunk_count ≡ planned_chunk_count o' body = rw made.plan_is in
    record {
      duration_fits = ground arith;
      every_fits = ground arith;
      in_range = rw (every, count) made.in_range;
      has_room = rw (duration, every, count) (planned_chunk_count_slots o' body);
    }

interval_offset-eq : (d n i : ℕ) → 0 < n → d / n * i + d % n * i / n ≡ d * i / n
interval_offset-eq d n i h = sym (
    ap (λ (x : ℕ). x * i / n) (sym (div-add-mod d n))
    ∙ ap (λ (x : ℕ). x / n) (add-mul (n * (d / n)) (d % n) i)
    ∙ ap (λ (x : ℕ). (x + d % n * i) / n) (mul_assoc n (d / n) i)
    ∙ mul-add-div h (d / n * i) (d % n * i))

interval_offset-le : (d n i : ℕ) → 0 < n → i ≤ n → d * i / n ≤ d
interval_offset-le d n i h k = div-le_of_le-mul n (omega (arith, mul-le-mul_left d k, mul_comm d n))

interval_offset_spaced : (d n i e : ℕ) → 0 < n → e * n ≤ d → d * i / n + e ≤ d * suc i / n
interval_offset_spaced d n i e h k =
    (le-div_iff_mul-le h).1 (omega (arith, div-mul-le_self (d * i) n, add-mul (d * i / n) e n))

duration_chunk_offset-eq :
    (d c i : ℕ)
    → 2 ≤ c
    → i < c
    → d ≤ max_int64
    → duration_chunk_offset d c i ≡ pos (d * i / (c - 1))
unfolding duration_chunk_offset
duration_chunk_offset-eq d c i hc hi hd =
    let exact = interval_offset-eq d (c - 1) i (omega arith) in
    let fits = interval_offset-le d (c - 1) i (omega arith) (omega arith) in
    ground (arith, wrap64_small (d / (c - 1) * i + d % (c - 1) * i / (c - 1)))

duration_chunk_offset_one : (d i : ℕ) → d ≤ max_int64 → duration_chunk_offset d 1 i ≡ pos d
unfolding duration_chunk_offset
duration_chunk_offset_one d i h = wrap64_small d h

cadence_product_fits :
    (e c i : ℕ) → cadence_out_of_range e c ≡ false → e ≤ max_int64 → i < c → i * e ≤ max_int64
unfolding cadence_out_of_range
cadence_product_fits e c i h he hi = elim (dec_le c 1) [
  | yes small ↦ let first : i ≡ 0 = omega arith in rw first (omega arith)
  | no big ↦ elim (ℕ_discrete e 0) [
    | yes e0 ↦ rw e0 (omega arith)
    | no e1 ↦
        let bound : e ≤ max_int64 / (c - 1) = ground arith in
        let product = (le-div_iff_mul-le {k = c - 1} (omega arith)).0 bound in
        let before : i ≤ c - 1 = omega arith in
        omega (arith, mul-le-mul_left e before, mul_comm e i)
  ]
]

chunk_offset-ideal :
    (p : BodyStreamPlan) (i : ℕ)
    → IsTimed p
    → i < p.chunk_count
    → (chunk_offset p i ≡ some (pos (ideal_offset p i))) × (ideal_offset p i ≤ max_int64)
unfolding chunk_offset
chunk_offset-ideal p i t hi = elim (Bool-cases (ltb 0 p.duration)) [
  | inl timed ↦ elim (ℕ_discrete p.chunk_count 1) [
    | yes one ↦ ground (arith, duration_chunk_offset_one p.duration i t.duration_fits)
    | no many ↦ ground (
      arith,
      duration_chunk_offset-eq p.duration p.chunk_count i (omega arith) hi t.duration_fits,
      interval_offset-le p.duration (p.chunk_count - 1) i (omega arith) (omega arith),
      t.duration_fits,
    )
  ]
  | inr steady ↦
      let fits = cadence_product_fits p.every p.chunk_count i t.in_range t.every_fits hi in
      ground (arith, wrap64_small (i * p.every) fits)
]

-- No arithmetic of a schedule wraps around: for options that are int64 values, the start of every
-- planned chunk is the exact one, which fits an int64; a plan has no other chunk.
chunk_offset_exact :
    (o : BodyStreamPlanOptions) {p : BodyStreamPlan} (i : ℕ)
    → pos_part o.duration ≤ max_int64
    → pos_part o.every ≤ max_int64
    → plan_body_stream o ≡ planned p
    → (i < p.chunk_count
        → (chunk_offset p i ≡ some (pos (ideal_offset p i))) × (ideal_offset p i ≤ max_int64))
      × (p.chunk_count ≤ i → chunk_offset p i ≡ none)
unfolding chunk_offset
chunk_offset_exact o {p} i hd he h =
    (chunk_offset-ideal p i (plan-IsTimed o hd he h), λ out. ground arith)

spaced_by_duration :
    (d c e i : ℕ) → suc i < c → c ≤ d / e + 1 → 0 < e → d * i / (c - 1) + e ≤ d * suc i / (c - 1)
spaced_by_duration d c e i hi hc he =
    let room : c - 1 ≤ d / e = omega arith in
    let slots = mul-le-mul_right e room in
    interval_offset_spaced d (c - 1) i e (omega arith)
      (omega (arith, slots, div-mul-le_self d e, mul_comm e (c - 1)))

ideal_offset_spaced :
    (p : BodyStreamPlan) (i : ℕ)
    → IsTimed p
    → suc i < p.chunk_count
    → ideal_offset p i + p.every ≤ ideal_offset p (suc i)
ideal_offset_spaced p i t hi = elim (dec_lt 0 p.duration) [
  | no steady ↦ ground arith
  | yes timed ↦ elim (dec_lt 0 p.every) [
    | yes paced ↦ ground (
      arith,
      spaced_by_duration p.duration p.chunk_count p.every i hi (t.has_room timed paced) paced,
    )
    | no free ↦ ground (
      arith,
      interval_offset_spaced p.duration (p.chunk_count - 1) i 0 (omega arith) (omega arith),
    )
  ]
]

ideal_offset_last :
    (p : BodyStreamPlan)
    → 1 < p.chunk_count
    → 0 < p.duration
    → ideal_offset p (p.chunk_count - 1) ≡ p.duration
ideal_offset_last p h hd =
    ground (arith, mul-div_cancel p.duration {n = p.chunk_count - 1} (omega arith))

ideal_offset_first : (p : BodyStreamPlan) → 1 < p.chunk_count → ideal_offset p 0 ≡ 0
ideal_offset_first p h = ground (arith, zero-div (p.chunk_count - 1))

-- In a plan of two chunks or more the first starts at zero, two chunks in a row start at least the
-- cadence apart, and with a duration the last starts when the duration has passed.
pub chunk_offsets_paced :
    (o : BodyStreamPlanOptions) {p : BodyStreamPlan} (i : ℕ)
    → pos_part o.duration ≤ max_int64
    → pos_part o.every ≤ max_int64
    → plan_body_stream o ≡ planned p
    → suc i < p.chunk_count
    → (chunk_offset p 0 ≡ some (pos 0))
      × ((a : ℕ) × (b : ℕ) × (chunk_offset p i ≡ some (pos a))
          × (chunk_offset p (suc i) ≡ some (pos b))
          × (a + p.every ≤ b))
      × (0 < p.duration → chunk_offset p (p.chunk_count - 1) ≡ some (pos p.duration))
chunk_offsets_paced o {p} i hd he h hi =
    let t = plan-IsTimed o hd he h in
    let at = λ (j : ℕ) (lt : j < p.chunk_count). (chunk_offset-ideal p j t lt).0 in
    (
      at 0 (omega arith) ∙ rw (ideal_offset_first p (omega arith)),
      (
        ideal_offset p i,
        ideal_offset p (suc i),
        at i (omega arith),
        at (suc i) hi,
        ideal_offset_spaced p i t hi,
      ),
      λ timed. at (p.chunk_count - 1) (omega arith) ∙ rw (ideal_offset_last p (omega arith) timed),
    )
