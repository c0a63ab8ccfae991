-- ===== src/Icap/StreamPlan/Counts.antt =====
-- pkg/icap/stream_plan.go: how many chunks `PlanBodyStream` plans.
use icapmock.Prelude.{ℕ, ◌+◌, ◌/◌, ◌≤◌, ◌<◌, ◌≡◌, refl, ◌↔◌, ◌⊎◌, false, none, arith, [], ◌∷◌, max}
use icapmock.Prelude.Int64.{pos_part}
use icapmock.Icap.StreamPlan.{
  BodyStreamPlanOptions, BodyStreamPlan, planned, max_stream_chunks,
  validate_body_stream_plan_options, selected_body_bytes, min_int64, cadence_slots, cadence_limited,
  preferred_chunk_count, planned_chunk_count, cadence_out_of_range, new_body_stream_plan,
  with_default_finish, plan_options, plan_body_stream, max_two,
}

-- What a returned plan tells of the options that it was made from.
pub record PlannedFrom (o : BodyStreamPlanOptions) (p : BodyStreamPlan) : Type 0 where
  pub valid : validate_body_stream_plan_options o ≡ none
  pub in_range :
      cadence_out_of_range (pos_part o.every) (planned_chunk_count o (selected_body_bytes o))
      ≡ false
  pub plan_is :
      p
      ≡ new_body_stream_plan o
          (selected_body_bytes o)
          (planned_chunk_count o (selected_body_bytes o))

plan_options-PlannedFrom :
    (o : BodyStreamPlanOptions) {p : BodyStreamPlan} → plan_options o ≡ planned p → PlannedFrom o p
unfolding plan_options
plan_options-PlannedFrom o h = ground arith

pub plan_body_stream-PlannedFrom :
    (o : BodyStreamPlanOptions) {p : BodyStreamPlan}
    → plan_body_stream o ≡ planned p
    → PlannedFrom (with_default_finish o) p
unfolding plan_body_stream
plan_body_stream-PlannedFrom o h = plan_options-PlannedFrom (with_default_finish o) h

pub planned_chunk_count_zero : (o : BodyStreamPlanOptions) → planned_chunk_count o 0 ≡ 0
unfolding planned_chunk_count
planned_chunk_count_zero o = refl

min_int64_two :
    (v a b : ℕ)
    → let m = min_int64 v (a ∷ b ∷ []) in
      (m ≤ v) × (m ≤ a) × (m ≤ b) × ((m ≡ v) ⊎ (m ≡ a) ⊎ (m ≡ b))
unfolding min_int64
min_int64_two v a b = ground arith

min_int64_one : (v a : ℕ) → let m = min_int64 v (a ∷ []) in (m ≤ v) × (m ≤ a) × ((m ≡ v) ⊎ (m ≡ a))
unfolding min_int64
min_int64_one v a = ground arith

max_two_one : (v : ℕ) → max_two v 1 ≡ max v 1
unfolding max_two
max_two_one v = ground arith

pub cadence_slots_bounds :
    (duration every : ℕ)
    → (1 ≤ cadence_slots duration every)
      × (cadence_slots duration every ≤ max_stream_chunks)
      × (cadence_slots duration every ≤ duration / every + 1)
unfolding cadence_slots
cadence_slots_bounds duration every = ground arith

cadence_limited_bounds :
    (o : BodyStreamPlanOptions) (v : ℕ)
    → (cadence_limited o v ≤ v)
      × (0 < pos_part o.duration
          → 0 < pos_part o.every
          → cadence_limited o v ≤ pos_part o.duration / pos_part o.every + 1)
unfolding cadence_limited
cadence_limited_bounds o v =
    let slots = cadence_slots (pos_part o.duration) (pos_part o.every) in
    let least = min_int64_one v slots in
    let few = cadence_slots_bounds (pos_part o.duration) (pos_part o.every) in
    (ground arith, λ hd he. ground arith)

-- Of a body that is not empty: at least one chunk, at most one for each byte and a thousand in
-- all, no more than is preferred, and no more than the cadence leaves room for.
pub planned_chunk_count_bounds :
    (o : BodyStreamPlanOptions) (b : ℕ)
    → 0 < b
    → (1 ≤ planned_chunk_count o b)
      × (planned_chunk_count o b ≤ b)
      × (planned_chunk_count o b ≤ max_stream_chunks)
      × (planned_chunk_count o b ≤ max (preferred_chunk_count o b) 1)
unfolding planned_chunk_count
planned_chunk_count_bounds o b h =
    let preferred = min_int64 (preferred_chunk_count o b) (b ∷ max_stream_chunks ∷ []) in
    ground (
      arith,
      min_int64_two (preferred_chunk_count o b) b max_stream_chunks,
      (cadence_limited_bounds o preferred).0,
      max_two_one (cadence_limited o preferred),
    )

pub planned_chunk_count_slots :
    (o : BodyStreamPlanOptions) (b : ℕ)
    → 0 < pos_part o.duration
    → 0 < pos_part o.every
    → planned_chunk_count o b ≤ pos_part o.duration / pos_part o.every + 1
unfolding planned_chunk_count
planned_chunk_count_slots o b hd he =
    let preferred = min_int64 (preferred_chunk_count o b) (b ∷ max_stream_chunks ∷ []) in
    ground (
      arith,
      (cadence_limited_bounds o preferred).1 hd he,
      max_two_one (cadence_limited o preferred),
    )

-- A plan has no chunk exactly when the selected body is empty; else it has from one chunk up to
-- one for each byte, and never more than 1000.
pub chunk_count_bounds :
    (o : BodyStreamPlanOptions) {p : BodyStreamPlan}
    → plan_body_stream o ≡ planned p
    → ((p.chunk_count ≡ 0) ↔ (p.body_bytes ≡ 0))
      × (p.chunk_count ≤ p.body_bytes)
      × (p.chunk_count ≤ max_stream_chunks)
unfolding new_body_stream_plan
chunk_count_bounds o h =
    let made = plan_body_stream-PlannedFrom o h in
    let b = selected_body_bytes (with_default_finish o) in
    grind (
      arith,
      made.plan_is,
      planned_chunk_count_zero (with_default_finish o),
      planned_chunk_count_bounds (with_default_finish o) b,
    )
