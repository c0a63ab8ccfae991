-- ===== src/Icap/StreamPlan.antt =====
-- pkg/icap/stream_plan.go: the delivery schedule of a streamed body. int64 and time.Duration
-- options are integers; after validation they are non-negative and are computed with as naturals.
-- The products that can leave the range of int64 are wrapped.
pub mod Counts
pub mod Sizes
pub mod Offsets
pub mod Validation
use icapmock.Prelude.{
  ℕ, zero, suc, ◌+◌, ◌-◌, ◌*◌, ◌/◌, ◌%◌, Bool, true, false, not, ◌&&◌, ◌||◌, Option, none, some,
  List, [], ◌∷◌, ltb, leb, ◌==◌, if◌then◌else◌, Bytes, codes, ◌=ᵇ◌, is_nil,
}
use icapmock.Prelude.Int64.{
  ℤ, pos_part, is_negative, is_positive, int_ltb, int_eq, max_int64, wrap64,
}

-- 100 ms in nanoseconds.
abbrev pub automatic_stream_cadence : ℕ
automatic_stream_cadence = 100_000_000

abbrev pub default_stream_chunk_size : ℕ
default_stream_chunk_size = 16 * 1024

abbrev pub max_stream_chunks : ℕ
max_stream_chunks = 1000

abbrev pub stream_finish_complete : Bytes
stream_finish_complete = codes "complete"

abbrev pub stream_finish_fin : Bytes
stream_finish_fin = codes "fin"

abbrev pub stream_finish_term : Bytes
stream_finish_term = codes "term"

pub record BodyStreamPlanOptions : Type 0 where
  pub finish_mode : Bytes
  pub source_size : ℤ
  pub selected_bytes : ℤ
  pub target_chunk_size : ℤ
  pub duration : ℤ
  pub every : ℤ
  pub target_chunks : ℤ
  pub selected_bytes_set : Bool

pub record BodyStreamPlan : Type 0 where
  pub finish_mode : Bytes
  pub source_size : ℕ
  pub body_bytes : ℕ
  pub target_chunk_size : ℕ
  pub duration : ℕ
  pub every : ℕ
  pub chunk_count : ℕ
  pub target_chunks : ℕ

pub data PlanError : Type 0 where
  negative_source negative_timing negative_target exclusive_targets : PlanError
  unsupported_finish selected_out_of_range complete_mismatch cadence_range : PlanError

pub data PlanResult : Type 0 where
  planned : BodyStreamPlan → PlanResult
  refused : PlanError → PlanResult

unfoldable pub valid_selected_finish_mode : Bytes → Bool
valid_selected_finish_mode mode =
    mode =ᵇ stream_finish_complete || mode =ᵇ stream_finish_fin || mode =ᵇ stream_finish_term

unfoldable pub validate_selected_body_bytes : BodyStreamPlanOptions → Option PlanError
validate_selected_body_bytes o =
    if not (valid_selected_finish_mode o.finish_mode)
    then some unsupported_finish
    else if o.selected_bytes_set
        && (is_negative o.selected_bytes || int_ltb o.source_size o.selected_bytes)
    then some selected_out_of_range
    else if o.finish_mode =ᵇ stream_finish_complete
        && (o.selected_bytes_set && not (int_eq o.selected_bytes o.source_size))
    then some complete_mismatch
    else none

unfoldable pub validate_body_stream_plan_options : BodyStreamPlanOptions → Option PlanError
validate_body_stream_plan_options o =
    if is_negative o.source_size
    then some negative_source
    else if is_negative o.duration || is_negative o.every
    then some negative_timing
    else if is_negative o.target_chunk_size || is_negative o.target_chunks
    then some negative_target
    else if is_positive o.target_chunk_size && is_positive o.target_chunks
    then some exclusive_targets
    else validate_selected_body_bytes o

unfoldable pub selected_body_bytes : BodyStreamPlanOptions → ℕ
selected_body_bytes o = pos_part (if o.selected_bytes_set then o.selected_bytes else o.source_size)

unfoldable pub ceil_positive : ℕ → ℕ → ℕ
ceil_positive value divisor =
    let result = value / divisor in if value % divisor == 0 then result else result + 1

unfoldable pub min_int64 : ℕ → List ℕ → ℕ
min_int64 value [] = value
min_int64 value (other ∷ others) = min_int64 (if ltb other value then other else value) others

unfoldable pub max_two : ℕ → ℕ → ℕ
max_two left right = if ltb right left then left else right

-- `maxStreamChunks` at most, so that the sum cannot overflow.
unfoldable pub cadence_slots : ℕ → ℕ → ℕ
cadence_slots duration every =
    let intervals = duration / every in
    if leb (max_stream_chunks - 1) intervals then max_stream_chunks else intervals + 1

unfoldable pub preferred_chunk_count : BodyStreamPlanOptions → ℕ → ℕ
preferred_chunk_count o body_bytes =
    if is_positive o.target_chunk_size
    then ceil_positive body_bytes (pos_part o.target_chunk_size)
    else if is_positive o.target_chunks
    then pos_part o.target_chunks
    else if is_positive o.duration
    then ceil_positive (pos_part o.duration) automatic_stream_cadence + 1
    else ceil_positive body_bytes default_stream_chunk_size

-- The bound of the cadence, where both a duration and a cadence are set.
unfoldable pub cadence_limited : BodyStreamPlanOptions → ℕ → ℕ
cadence_limited o preferred =
    if is_positive o.duration && is_positive o.every
    then min_int64 preferred (cadence_slots (pos_part o.duration) (pos_part o.every) ∷ [])
    else preferred

unfoldable pub planned_chunk_count : BodyStreamPlanOptions → ℕ → ℕ
planned_chunk_count o body_bytes =
    if body_bytes == 0
    then 0
    else let preferred =
        min_int64 (preferred_chunk_count o body_bytes) (body_bytes ∷ max_stream_chunks ∷ []) in
      max_two (cadence_limited o preferred) 1

-- `true` is the error of `validateCadenceRange`.
unfoldable pub cadence_out_of_range : ℕ → ℕ → Bool
cadence_out_of_range every chunks =
    if every == 0 || leb chunks 1 then false else ltb (max_int64 / (chunks - 1)) every

unfoldable pub new_body_stream_plan : BodyStreamPlanOptions → ℕ → ℕ → BodyStreamPlan
new_body_stream_plan o body_bytes chunks = record {
  finish_mode = o.finish_mode;
  source_size = pos_part o.source_size;
  body_bytes = body_bytes;
  target_chunk_size = pos_part o.target_chunk_size;
  duration = pos_part o.duration;
  every = pos_part o.every;
  chunk_count = chunks;
  target_chunks = pos_part o.target_chunks;
}

unfoldable pub with_default_finish : BodyStreamPlanOptions → BodyStreamPlanOptions
with_default_finish o =
    if is_nil o.finish_mode then record o { finish_mode = stream_finish_complete } else o

unfoldable pub plan_options : BodyStreamPlanOptions → PlanResult
plan_options o = elim (validate_body_stream_plan_options o) [
  | some e ↦ refused e
  | none ↦
      let body_bytes = selected_body_bytes o in
      let chunks = planned_chunk_count o body_bytes in
      if cadence_out_of_range (pos_part o.every) chunks
      then refused cadence_range
      else planned (new_body_stream_plan o body_bytes chunks)
]

unfoldable pub plan_body_stream : BodyStreamPlanOptions → PlanResult
plan_body_stream o = plan_options (with_default_finish o)

unfoldable pub effective_chunk_size : BodyStreamPlan → ℕ
effective_chunk_size p = if p.chunk_count == 0 then 0 else ceil_positive p.body_bytes p.chunk_count

-- `none` is the second result `false`; the index is not negative.
unfoldable pub chunk_size : BodyStreamPlan → ℕ → Option ℕ
chunk_size p index =
    if leb p.chunk_count index
    then none
    else let base = p.body_bytes / p.chunk_count in
      some (if ltb index (p.body_bytes % p.chunk_count) then base + 1 else base)

unfoldable pub duration_chunk_offset : ℕ → ℕ → ℕ → ℤ
duration_chunk_offset duration chunks index =
    if chunks == 1
    then wrap64 duration
    else let intervals = chunks - 1 in
      let whole = duration / intervals in
      let remainder = duration % intervals in wrap64 (whole * index + remainder * index / intervals)

unfoldable pub chunk_offset : BodyStreamPlan → ℕ → Option ℤ
chunk_offset p index =
    if leb p.chunk_count index
    then none
    else if ltb 0 p.duration
    then some (duration_chunk_offset p.duration p.chunk_count index)
    else some (wrap64 (index * p.every))
