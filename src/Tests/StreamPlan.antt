-- ===== src/Tests/StreamPlan.antt =====
-- Tests of pkg/icap/stream_plan.go, and its theorems at a schedule of eleven chunks in a second.
use icapmock.Prelude.{
  ℕ, ◌+◌, ◌-◌, ◌*◌, ◌≤◌, ◌<◌, ◌≡◌, ◌↔◌, refl, false, none, some, arith, codes, ◌=ᵇ◌,
}
use icapmock.Prelude.Int64.{pos, negsuc, pos_part, max_int64, wrap64}
use icapmock.Icap.StreamPlan.{
  BodyStreamPlanOptions, BodyStreamPlan, planned, refused, negative_source, exclusive_targets,
  cadence_range, stream_finish_complete, valid_selected_finish_mode, validate_selected_body_bytes,
  validate_body_stream_plan_options, selected_body_bytes, ceil_positive, min_int64, max_two,
  cadence_slots, preferred_chunk_count, cadence_limited, planned_chunk_count, cadence_out_of_range,
  new_body_stream_plan, with_default_finish, plan_options, plan_body_stream, effective_chunk_size,
  chunk_size, duration_chunk_offset, chunk_offset,
}
use icapmock.Icap.StreamPlan.Offsets.{chunk_offsets_paced}
use icapmock.Icap.StreamPlan.Sizes.{delivered, delivered_all}
use icapmock.Icap.StreamPlan.Validation.{IsValidOptions, plan_body_stream_accepts}

-- What a run of `PlanBodyStream` computes with.
program : Unit {0}
unfolding ◌=ᵇ◌ valid_selected_finish_mode validate_selected_body_bytes
    validate_body_stream_plan_options selected_body_bytes ceil_positive min_int64 max_two
    cadence_slots preferred_chunk_count cadence_limited planned_chunk_count cadence_out_of_range
    new_body_stream_plan with_default_finish plan_options plan_body_stream effective_chunk_size
    chunk_size duration_chunk_offset chunk_offset wrap64
program = tt

abbrev one_second : BodyStreamPlanOptions
one_second = record {
  finish_mode = codes "";
  source_size = pos 100;
  selected_bytes = pos 0;
  target_chunk_size = pos 0;
  duration = pos 1_000_000_000;
  every = pos 100_000_000;
  target_chunks = pos 0;
  selected_bytes_set = false;
}

abbrev eleven_chunks : BodyStreamPlan
eleven_chunks = record {
  finish_mode = stream_finish_complete;
  source_size = 100;
  body_bytes = 100;
  target_chunk_size = 0;
  duration = 1_000_000_000;
  every = 100_000_000;
  chunk_count = 11;
  target_chunks = 0;
}

one_second-planned : plan_body_stream one_second ≡ planned eleven_chunks
unfolding program
one_second-planned = refl

schedule :
    (chunk_size eleven_chunks 0 ≡ some 10)
    × (chunk_size eleven_chunks 10 ≡ some 9)
    × (chunk_size eleven_chunks 11 ≡ none)
    × (chunk_offset eleven_chunks 3 ≡ some (pos 300_000_000))
    × (effective_chunk_size eleven_chunks ≡ 10)
unfolding program
schedule = (refl, refl, refl, refl, refl)

errors :
    (plan_body_stream (record one_second { source_size = negsuc 0 }) ≡ refused negative_source)
    × (plan_body_stream (record one_second { target_chunks = pos 2; target_chunk_size = pos 2 })
        ≡ refused exclusive_targets)
    × (plan_body_stream
          (record one_second { duration = pos 0; target_chunks = pos 3; every = pos max_int64 })
        ≡ refused cadence_range)
unfolding program
errors = (refl, refl, refl)

abbrev in_blocks : BodyStreamPlanOptions
in_blocks = record one_second { target_chunk_size = pos 32; duration = pos 0; every = pos 0 }

abbrev four_blocks : BodyStreamPlan
four_blocks = record eleven_chunks {
  target_chunk_size = 32;
  duration = 0;
  every = 0;
  chunk_count = 4;
}

in_blocks-planned : plan_body_stream in_blocks ≡ planned four_blocks
unfolding program
in_blocks-planned = refl

delivered_all_example : pos (delivered eleven_chunks 11) ≡ pos 100
delivered_all_example = delivered_all one_second {p = eleven_chunks} one_second-planned

chunk_offsets_paced_example :
    (chunk_offset eleven_chunks 0 ≡ some (pos 0))
    × ((a : ℕ) × (b : ℕ) × (chunk_offset eleven_chunks 4 ≡ some (pos a))
        × (chunk_offset eleven_chunks 5 ≡ some (pos b))
        × (a + 100_000_000 ≤ b))
    × (0 < 1_000_000_000 → chunk_offset eleven_chunks 10 ≡ some (pos 1_000_000_000))
chunk_offsets_paced_example =
    chunk_offsets_paced one_second {p = eleven_chunks} 4 (omega arith) (omega arith)
      one_second-planned (omega arith)

plan_body_stream_accepts_example :
    let o' = with_default_finish one_second in
    ((p : BodyStreamPlan) × (plan_body_stream one_second ≡ planned p)) ↔ (
      IsValidOptions o'
      × (pos_part o'.every * (planned_chunk_count o' (selected_body_bytes o') - 1) ≤ max_int64))
plan_body_stream_accepts_example = plan_body_stream_accepts one_second
