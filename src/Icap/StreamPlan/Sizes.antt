-- ===== src/Icap/StreamPlan/Sizes.antt =====
-- pkg/icap/stream_plan.go: the sizes of the planned chunks.
use mathlib.Core.Option.{get_or}
use native.Mathlib.Nat.{
  le-div_iff_mul-le, div-add-mod, mul-le-mul_left, le-mul_of_pos_right, mul_comm, mul-suc,
}
use native.Mathlib.Decide.{dec_le, ℕ_discrete}
use icapmock.Prelude.{
  ℕ, zero, suc, ◌+◌, ◌*◌, ◌/◌, ◌%◌, ◌≤◌, ◌<◌, ◌≡◌, none, some, arith, ltb, ◌==◌, if◌then◌else◌, min,
  ap, [], ◌∷◌, ◌∙◌, sym, refl, Bool-cases, inl, inr, is_nil,
}
use icapmock.Prelude.Int64.{ℤ, pos, pos_part}
use icapmock.Icap.StreamPlan.{
  BodyStreamPlanOptions, BodyStreamPlan, planned, ceil_positive, plan_body_stream,
  effective_chunk_size, chunk_size, preferred_chunk_count, planned_chunk_count,
  new_body_stream_plan, with_default_finish, max_stream_chunks, cadence_limited, min_int64, max_two,
  selected_body_bytes,
}
use icapmock.Icap.StreamPlan.Validation.{IsValidOptions, validate-IsValidOptions}
use icapmock.Icap.StreamPlan.Counts.{chunk_count_bounds, plan_body_stream-PlannedFrom}

-- The bytes of the first `n` chunks.
pub delivered : BodyStreamPlan → ℕ → ℕ
delivered p zero = 0
delivered p (suc n) = delivered p n + get_or (chunk_size p n) 0

chunk_size-eq :
    (p : BodyStreamPlan) (i : ℕ)
    → i < p.chunk_count
    → chunk_size p i
      ≡ some
          (p.body_bytes / p.chunk_count + (if ltb i (p.body_bytes % p.chunk_count) then 1 else 0))
unfolding chunk_size
chunk_size-eq p i h = ground arith

delivered-eq :
    (p : BodyStreamPlan) (n : ℕ)
    → n ≤ p.chunk_count
    → delivered p n ≡ n * (p.body_bytes / p.chunk_count) + min n (p.body_bytes % p.chunk_count)
unfolding delivered
delivered-eq p zero h = omega arith
delivered-eq p (suc n) h = rw (chunk_size-eq p n h, delivered-eq p n (omega arith)) (ground arith)

chunks_hold_body :
    (o : BodyStreamPlanOptions) {p : BodyStreamPlan}
    → plan_body_stream o ≡ planned p
    → delivered p p.chunk_count ≡ p.body_bytes
chunks_hold_body o {p} h =
    let bounds = chunk_count_bounds o h in
    let total = delivered-eq p p.chunk_count (omega arith) in ground arith

-- What the options of a valid plan select.
abbrev wanted_bytes : BodyStreamPlanOptions → ℤ
wanted_bytes o = if o.selected_bytes_set then o.selected_bytes else o.source_size

selected_natural :
    (o : BodyStreamPlanOptions) → IsValidOptions o → pos (selected_body_bytes o) ≡ wanted_bytes o
unfolding selected_body_bytes
selected_natural o v = elim (Bool-cases o.selected_bytes_set) [
  | inl e ↦ rw e (sym (v.selected e).0)
  | inr e ↦ rw e (sym v.source_size)
]

default_finish_selects :
    (o : BodyStreamPlanOptions) → wanted_bytes (with_default_finish o) ≡ wanted_bytes o
unfolding with_default_finish
default_finish_selects o = elim (Bool-cases (is_nil o.finish_mode)) [
  | inl e ↦ rw e refl
  | inr e ↦ rw e refl
]

-- The chunks of a plan that `PlanBodyStream` returned hold as many bytes as were selected, or as the
-- source has where none were selected, no byte more or less.
pub delivered_all :
    (o : BodyStreamPlanOptions) {p : BodyStreamPlan}
    → plan_body_stream o ≡ planned p
    → pos (delivered p p.chunk_count)
      ≡ (if o.selected_bytes_set then o.selected_bytes else o.source_size)
unfolding new_body_stream_plan
delivered_all o {p} h =
    let made = plan_body_stream-PlannedFrom o h in
    let body : p.body_bytes ≡ selected_body_bytes (with_default_finish o) = rw made.plan_is in
    ap pos (chunks_hold_body o h ∙ body)
    ∙ selected_natural (with_default_finish o)
        (validate-IsValidOptions (with_default_finish o) made.valid)
    ∙ default_finish_selects o

one-le-div : (b c : ℕ) → 0 < c → c ≤ b → 1 ≤ b / c
one-le-div b c h k = (le-div_iff_mul-le h).1 (omega arith)

effective_chunk_size-eq :
    (p : BodyStreamPlan)
    → 0 < p.chunk_count
    → effective_chunk_size p
      ≡ p.body_bytes / p.chunk_count + (if p.body_bytes % p.chunk_count == 0 then 0 else 1)
unfolding effective_chunk_size ceil_positive
effective_chunk_size-eq p h = ground arith

chunk_size-none : (p : BodyStreamPlan) (i : ℕ) → p.chunk_count ≤ i → chunk_size p i ≡ none
unfolding chunk_size
chunk_size-none p i h = ground arith

-- Every planned chunk has a size, from 1 up to the effective chunk size, and the sizes of two
-- chunks differ by one at most; a plan has no other chunk.
chunk_size_balanced :
    (o : BodyStreamPlanOptions) {p : BodyStreamPlan} (i : ℕ)
    → plan_body_stream o ≡ planned p
    → (p.chunk_count ≤ i → chunk_size p i ≡ none)
      × (i < p.chunk_count
          → (s : ℕ) × (chunk_size p i ≡ some s)
            × (1 ≤ s)
            × (s ≤ effective_chunk_size p)
            × (effective_chunk_size p ≤ s + 1))
chunk_size_balanced o {p} i h =
    let bounds = chunk_count_bounds o h in
    (
      chunk_size-none p i,
      λ lt.
          let whole = one-le-div p.body_bytes p.chunk_count (omega arith) bounds.1 in
          let widest = effective_chunk_size-eq p (omega arith) in
          (
            p.body_bytes / p.chunk_count + (if ltb i (p.body_bytes % p.chunk_count) then 1 else 0),
            chunk_size-eq p i lt,
            omega arith,
            ground arith,
            ground arith,
          ),
    )

ceil_positive-le : (b c t : ℕ) → 0 < c → b ≤ t * c → ceil_positive b c ≤ t
unfolding ceil_positive
ceil_positive-le b c t hc h =
    let whole = div-add-mod b c in
    elim (dec_le (t + 1) (b / c)) [
      | yes big ↦ absurd (omega (arith, mul-le-mul_left c big, mul_comm c t, mul-suc c t, whole))
      | no small ↦ elim (ℕ_discrete (b / c) t) [
        | yes e ↦ ground (arith, whole, e, ap (λ (x : ℕ). c * x) e, mul_comm c t)
        | no ne ↦ ground arith
      ]
    ]

le-mul-ceil_positive : (b t : ℕ) → 0 < t → b ≤ t * ceil_positive b t
unfolding ceil_positive
le-mul-ceil_positive b t h = grind arith

ceil_positive-pos : (b t : ℕ) → 0 < b → 0 < t → 1 ≤ ceil_positive b t
unfolding ceil_positive
ceil_positive-pos b t hb ht = grind (arith, div-add-mod b t)

min_int64_fits : (v a b : ℕ) → v ≤ a → v ≤ b → min_int64 v (a ∷ b ∷ []) ≡ v
unfolding min_int64
min_int64_fits v a b h k = ground arith

planned_chunk_count_target :
    (o : BodyStreamPlanOptions) (b : ℕ)
    → 0 < b
    → 0 < pos_part o.target_chunk_size
    → pos_part o.every ≡ 0
    → b ≤ max_stream_chunks * pos_part o.target_chunk_size
    → planned_chunk_count o b ≡ ceil_positive b (pos_part o.target_chunk_size)
unfolding planned_chunk_count preferred_chunk_count cadence_limited max_two
planned_chunk_count_target o b hb ht he few =
    let t = pos_part o.target_chunk_size in
    let c = ceil_positive b t in
    let within_body = ceil_positive-le b t b ht (le-mul_of_pos_right b ht) in
    let within_limit = ceil_positive-le b t max_stream_chunks ht few in
    ground (
      arith,
      min_int64_fits c b max_stream_chunks within_body within_limit,
      ceil_positive-pos b t hb ht,
    )

effective_chunk_size-le :
    (p : BodyStreamPlan) (t : ℕ) → p.body_bytes ≤ t * p.chunk_count → effective_chunk_size p ≤ t
unfolding effective_chunk_size
effective_chunk_size-le p t h = elim (ℕ_discrete p.chunk_count 0) [
  | yes e ↦ ground arith
  | no ne ↦ ground (arith, ceil_positive-le p.body_bytes p.chunk_count t (omega arith) h)
]

-- The chunks planned for a target size can hold the body.
planned_chunk_count_covers :
    (o : BodyStreamPlanOptions) (b : ℕ)
    → 0 < pos_part o.target_chunk_size
    → pos_part o.every ≡ 0
    → b ≤ max_stream_chunks * pos_part o.target_chunk_size
    → b ≤ pos_part o.target_chunk_size * planned_chunk_count o b
planned_chunk_count_covers o b ht he few = elim (ℕ_discrete b 0) [
  | yes e ↦ omega arith
  | no ne ↦
      rw (planned_chunk_count_target o b (omega arith) ht he few)
        (le-mul-ceil_positive b (pos_part o.target_chunk_size) ht)
]

-- A preferred chunk size is kept to: where the body needs no more than 1000 chunks of that size
-- and no cadence is set, no chunk is larger.
target_chunk_size_kept :
    (o : BodyStreamPlanOptions) {p : BodyStreamPlan}
    → plan_body_stream o ≡ planned p
    → 0 < p.target_chunk_size
    → p.every ≡ 0
    → p.body_bytes ≤ max_stream_chunks * p.target_chunk_size
    → effective_chunk_size p ≤ p.target_chunk_size
unfolding new_body_stream_plan
target_chunk_size_kept o {p} h ht he few =
    let made = plan_body_stream-PlannedFrom o h in
    let o' = with_default_finish o in
    let size : p.target_chunk_size ≡ pos_part o'.target_chunk_size = rw made.plan_is in
    let every : p.every ≡ pos_part o'.every = rw made.plan_is in
    let body : p.body_bytes ≡ selected_body_bytes o' = rw made.plan_is in
    let count : p.chunk_count ≡ planned_chunk_count o' (selected_body_bytes o') = rw made.plan_is in
    effective_chunk_size-le p p.target_chunk_size (
      rw (body, size, count)
        (planned_chunk_count_covers o' (selected_body_bytes o') (rw size at ht) (rw every at he)
          (rw (body, size) at few)))
