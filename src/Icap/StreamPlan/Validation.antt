-- ===== src/Icap/StreamPlan/Validation.antt =====
-- pkg/icap/stream_plan.go: which options `PlanBodyStream` accepts.
use native.Mathlib.Nat.{le-div_iff_mul-le}
use native.Mathlib.Decide.{dec_le, ℕ_discrete}
use icapmock.Prelude.{ℕ, ◌-◌, ◌*◌, ◌≤◌, ◌≡◌, ◌⊎◌, ◌↔◌, true, false, none, arith, Bytes, =ᵇ_iff}
use icapmock.Prelude.Int64.{ℤ, pos, pos_part, max_int64}
use icapmock.Icap.StreamPlan.{
  BodyStreamPlanOptions, BodyStreamPlan, planned, stream_finish_complete, stream_finish_fin,
  stream_finish_term, valid_selected_finish_mode, validate_selected_body_bytes,
  validate_body_stream_plan_options, selected_body_bytes, planned_chunk_count, cadence_out_of_range,
  with_default_finish, plan_options, plan_body_stream, new_body_stream_plan,
}

abbrev pub IsNatural : ℤ → Type 0
IsNatural a = a ≡ pos (pos_part a)

-- What the options of a stream must satisfy, whatever the order of the checks.
pub record IsValidOptions (o : BodyStreamPlanOptions) : Type 0 where
  pub source_size : IsNatural o.source_size
  pub duration : IsNatural o.duration
  pub every : IsNatural o.every
  pub target_chunk_size : IsNatural o.target_chunk_size
  pub target_chunks : IsNatural o.target_chunks
  pub one_target : (pos_part o.target_chunk_size ≡ 0) ⊎ (pos_part o.target_chunks ≡ 0)
  pub finish_mode :
      (o.finish_mode ≡ stream_finish_complete)
      ⊎ (o.finish_mode ≡ stream_finish_fin)
      ⊎ (o.finish_mode ≡ stream_finish_term)
  pub selected :
      o.selected_bytes_set ≡ true
      → IsNatural o.selected_bytes × (pos_part o.selected_bytes ≤ pos_part o.source_size)
  pub complete :
      o.selected_bytes_set ≡ true
      → o.finish_mode ≡ stream_finish_complete
      → o.selected_bytes ≡ o.source_size

finish_mode_iff :
    (m : Bytes)
    → (valid_selected_finish_mode m ≡ true)
      ↔ ((m ≡ stream_finish_complete) ⊎ (m ≡ stream_finish_fin) ⊎ (m ≡ stream_finish_term))
unfolding valid_selected_finish_mode
finish_mode_iff m = (
  λ h. ground (
    arith,
    =ᵇ_iff m stream_finish_complete,
    =ᵇ_iff m stream_finish_fin,
    =ᵇ_iff m stream_finish_term,
  ),
  λ h. ground (
    arith,
    =ᵇ_iff m stream_finish_complete,
    =ᵇ_iff m stream_finish_fin,
    =ᵇ_iff m stream_finish_term,
  ),
)

pub validate-IsValidOptions :
    (o : BodyStreamPlanOptions) → validate_body_stream_plan_options o ≡ none → IsValidOptions o
unfolding validate_body_stream_plan_options validate_selected_body_bytes
validate-IsValidOptions o h =
    let mode = finish_mode_iff o.finish_mode in
    let whole = =ᵇ_iff o.finish_mode stream_finish_complete in
    record {
      source_size = ground arith;
      duration = ground arith;
      every = ground arith;
      target_chunk_size = ground arith;
      target_chunks = ground arith;
      one_target = ground arith;
      finish_mode = mode.0 (ground arith);
      selected = λ e. (ground arith, ground arith);
      complete = λ e f. ground arith;
    }

IsValidOptions-validate :
    (o : BodyStreamPlanOptions) → IsValidOptions o → validate_body_stream_plan_options o ≡ none
unfolding validate_body_stream_plan_options validate_selected_body_bytes
IsValidOptions-validate o v =
    let mode = (finish_mode_iff o.finish_mode).1 v.finish_mode in
    ground (arith, =ᵇ_iff o.finish_mode stream_finish_complete)

cadence_in_range_iff : (e c : ℕ) → (cadence_out_of_range e c ≡ false) ↔ (e * (c - 1) ≤ max_int64)
unfolding cadence_out_of_range
cadence_in_range_iff e c = elim (dec_le c 1) [
  | yes small ↦
      let none_left : c - 1 ≡ 0 = omega arith in
      (λ _. rw none_left (omega arith), λ _. ground arith)
  | no big ↦
      let bound = le-div_iff_mul-le {k = c - 1} {x = e} {y = max_int64} (omega arith) in
      (
        λ h. elim (ℕ_discrete e 0) [
          | yes e0 ↦ rw e0 (omega arith)
          | no e1 ↦ bound.0 (ground arith)
        ],
        λ h. let within = bound.1 h in ground arith,
      )
]

-- `PlanBodyStream` returns a plan exactly for the options that are valid, an empty finish mode
-- standing for `complete`, and whose schedule at the cadence fits an int64.
pub plan_body_stream_accepts :
    (o : BodyStreamPlanOptions)
    → let o' = with_default_finish o in
      ((p : BodyStreamPlan) × (plan_body_stream o ≡ planned p)) ↔ (
        IsValidOptions o'
        × (pos_part o'.every * (planned_chunk_count o' (selected_body_bytes o') - 1) ≤ max_int64))
unfolding plan_body_stream plan_options
plan_body_stream_accepts o =
    let o' = with_default_finish o in
    let range =
      cadence_in_range_iff (pos_part o'.every) (planned_chunk_count o' (selected_body_bytes o')) in
    (
      λ (p, h). (validate-IsValidOptions o' (ground arith), range.0 (ground arith)),
      λ (v, fits). (
        new_body_stream_plan o' (selected_body_bytes o')
            (planned_chunk_count o' (selected_body_bytes o')),
        ground (arith, IsValidOptions-validate o' v, range.1 fits),
      ),
    )
