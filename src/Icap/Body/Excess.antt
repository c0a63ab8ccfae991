-- ===== src/Icap/Body/Excess.antt =====
-- pkg/icap/body_read.go: how far a body is read that turns out to be above its limit.
use icapmock.Prelude.{
  ℕ, suc, ◌+◌, ◌≤◌, ◌<◌, ◌≡◌, ap, ◌∙◌, true, some, [], ◌∷◌, ◌++◌, arith, Bytes, length, take, drop,
  length-append, length-take, length-drop, min, max,
}
use icapmock.Icap.Chunked.Source.{Error}
use icapmock.Icap.Body.{
  Runtime, not_loaded, body_too_large, exceeds, read_with_capacity, spare, next_capacity,
  read_all_limited_with_capacity, initial_read_capacity, read_capacity_within_limit,
  max_initial_body_read_capacity, stack_read_buffer_size,
}
use icapmock.Icap.Body.Whole.{source_of, drop_of_more}
use icapmock.Icap.Body.Limit.{round-on, round-over}

-- The round that fills the slice.
fill_round :
    (rounds : ℕ) (rt : Runtime) (m : ℕ) (bytes : Bytes) (stop : Error)
    → 0 < m
    → m < length bytes
    → m ≤ rt.given rounds
    → read_with_capacity (suc rounds) rt (some m) [] m (source_of bytes stop)
      ≡ read_with_capacity rounds rt (some m) (take m bytes) m (source_of (drop m bytes) stop)
fill_round rounds rt m [] stop pos long given = absurd (omega arith)
fill_round rounds rt m (b ∷ s) stop pos long given =
    let size = length-take m (b ∷ s) in
    let same : next_capacity rt [] (take m (b ∷ s)) m ≡ m = ground arith in
    round-on rounds rt (some m) [] m m b s stop (ground arith) pos (ground (arith, size))
      (ground (arith, drop_of_more m (b ∷ s) long))
    ∙ ap
        (λ (cap : ℕ).
          read_with_capacity rounds rt (some m) (take m (b ∷ s)) cap
            (source_of (drop m (b ∷ s)) stop))
        same

exceeds-full :
    (m n : ℕ) (content bytes : Bytes)
    → length content ≡ m
    → 0 < n
    → n ≤ length bytes
    → exceeds (some m) (content ++ take n bytes) ≡ true
exceeds-full m n content bytes full pos le =
    ground (arith, length-take n bytes, length-append content (take n bytes))

spare-full :
    (m given : ℕ) (content : Bytes)
    → length content ≡ m
    → stack_read_buffer_size ≤ given
    → stack_read_buffer_size ≡ min (spare content m) (max 1 given)
spare-full m given content full le = ground arith

excess_round :
    (rounds : ℕ) (rt : Runtime) (m n : ℕ) (content bytes : Bytes) (stop : Error)
    → length content ≡ m
    → n ≡ min (spare content m) (max 1 (rt.given rounds))
    → 0 < n
    → n ≤ length bytes
    → read_with_capacity (suc rounds) rt (some m) content m (source_of bytes stop)
      ≡ some (record { result = not_loaded body_too_large; left = source_of (drop n bytes) stop })
excess_round rounds rt m n content [] stop full e pos long = absurd (omega arith)
excess_round rounds rt m n content (b ∷ s) stop full e pos long =
    round-over rounds rt (some m) content m n b s stop e pos
      (exceeds-full m n content (b ∷ s) full pos long)

-- A body with a Content-Length at the limit is read further than a byte over the limit: where the
-- reader gives all that is asked for, the whole buffer of 512 bytes is read behind the limit.
read_all_limited-excess :
    (rounds : ℕ) (rt : Runtime) (m : ℕ) (bytes : Bytes) (stop : Error)
    → 0 < m
    → m ≤ max_initial_body_read_capacity
    → m + stack_read_buffer_size ≤ length bytes
    → m ≤ rt.given (suc rounds)
    → stack_read_buffer_size ≤ rt.given rounds
    → read_all_limited_with_capacity (suc (suc rounds)) rt (some m) (some m) (source_of bytes stop)
      ≡ some (record {
        result = not_loaded body_too_large;
        left = source_of (drop stack_read_buffer_size (drop m bytes)) stop;
      })
unfolding read_all_limited_with_capacity initial_read_capacity read_capacity_within_limit
read_all_limited-excess rounds rt m bytes stop pos small long given given' =
    let cap : initial_read_capacity (some m) (some m) ≡ m = ground arith in
    let size = length-take m bytes in
    let left = length-drop m bytes in
    let full : length (take m bytes) ≡ m = omega (arith, size) in
    let two =
      fill_round (suc rounds) rt m bytes stop pos (omega arith) given
      ∙ excess_round rounds rt m stack_read_buffer_size (take m bytes) (drop m bytes) stop full
          (spare-full m (rt.given rounds) (take m bytes) full given') (omega arith)
          (omega (arith, left)) in
    rw cap (ground (arith, two))
