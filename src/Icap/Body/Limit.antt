-- ===== src/Icap/Body/Limit.antt =====
-- pkg/icap/body_read.go: the two ways to read a body within a limit have one result.
use icapmock.Prelude.{
  ℕ, zero, suc, ◌≤◌, ◌<◌, ◌≡◌, refl, sym, ap, subst, ◌∙◌, true, false, ◌&&◌, Option, none, some, [],
  ◌∷◌, ◌++◌, arith, ◌==◌, if◌then◌else◌, Bytes, length, take, drop, length-append, length-take,
  length-drop, take-append-drop, append_assoc, append-nil, is_nil, min, max, Bool-cases, inl, inr,
}
use icapmock.Icap.Chunked.Source.{Error}
use icapmock.Icap.Body.Whole.{
  verdict, outcome, IsBelowMax, source_of, take-not_nil, drop_ended, default-outcome,
}
use icapmock.Icap.Body.{
  Runtime, not_loaded, body_too_large, exceeds, read_some, spare, next_capacity, Taken,
  normalize_read_all_error, read_with_capacity, read_all_limited_with_capacity,
  initial_read_capacity,
}

-- A `grow` that leaves room for what is appended.
abbrev pub Grows : Runtime → Type 0
Grows rt = (cap n : ℕ) → n ≤ rt.grow cap n

exceeds-append :
    (limit : Option ℕ) (s t : Bytes) → exceeds limit s ≡ true → exceeds limit (s ++ t) ≡ true
exceeds-append none s t h = absurd (cc)
exceeds-append (some m) s t h = ground (arith, length-append s t)

-- A round that ends the loop: the stream is at its end, or the limit is exceeded.
round-end :
    (rounds : ℕ) (rt : Runtime) (limit : Option ℕ) (content : Bytes) (cap : ℕ) (stop : Error)
    → read_with_capacity (suc rounds) rt limit content cap (source_of [] stop)
      ≡ some (record {
        result = normalize_read_all_error (content ++ []) stop;
        left = source_of [] stop;
      })
unfolding read_with_capacity read_some
round-end rounds rt limit content cap stop = refl

-- What a round comes to that reads `n` bytes.
abbrev Round : ℕ → Runtime → Option ℕ → Bytes → ℕ → Bytes → Error → ℕ → Type 0
Round rounds rt limit content cap bytes stop n =
    read_with_capacity (suc rounds) rt limit content cap (source_of bytes stop) ≡ (
      if exceeds limit (content ++ take n bytes)
      then some
          (record { result = not_loaded body_too_large; left = source_of (drop n bytes) stop })
      else if rt.with_last && is_nil (drop n bytes)
      then some (record {
        result = normalize_read_all_error (content ++ take n bytes) stop;
        left = source_of (drop n bytes) stop;
      })
      else read_with_capacity rounds rt limit (content ++ take n bytes)
          (next_capacity rt content (content ++ take n bytes) cap) (source_of (drop n bytes) stop))

read_with_capacity-Round :
    (rounds : ℕ) (rt : Runtime) (limit : Option ℕ) (content : Bytes) (cap b : ℕ) (s : Bytes)
    (stop : Error)
    → 0 < min (spare content cap) (max 1 (rt.given rounds))
    → Round rounds rt limit content cap
        (b ∷ s)
        stop
        (min (spare content cap) (max 1 (rt.given rounds)))
unfolding read_with_capacity read_some
read_with_capacity-Round rounds rt limit content cap b s stop pos =
    let n = min (spare content cap) (max 1 (rt.given rounds)) in
    let some_bytes = take-not_nil n b s pos in
    elim (Bool-cases (exceeds limit (content ++ take n (b ∷ s)))) [
      | inl over ↦ rw (some_bytes, over) refl
      | inr small ↦ elim (Bool-cases (rt.with_last && is_nil (drop n (b ∷ s)))) [
        | inl last ↦ rw (some_bytes, small, last) refl
        | inr going ↦ rw (some_bytes, small, going) refl
      ]
    ]

round_of :
    (rounds : ℕ) (rt : Runtime) (limit : Option ℕ) (content : Bytes) (cap n b : ℕ) (s : Bytes)
    (stop : Error)
    → n ≡ min (spare content cap) (max 1 (rt.given rounds))
    → 0 < n
    → Round rounds rt limit content cap (b ∷ s) stop n
round_of rounds rt limit content cap n b s stop e pos =
    subst (Round rounds rt limit content cap (b ∷ s) stop) (sym e) (
      read_with_capacity-Round rounds rt limit content cap b s stop
        (subst (λ (m : ℕ). 0 < m) e pos))

pub round-over :
    (rounds : ℕ) (rt : Runtime) (limit : Option ℕ) (content : Bytes) (cap n b : ℕ) (s : Bytes)
    (stop : Error)
    → n ≡ min (spare content cap) (max 1 (rt.given rounds))
    → 0 < n
    → exceeds limit (content ++ take n (b ∷ s)) ≡ true
    → read_with_capacity (suc rounds) rt limit content cap (source_of (b ∷ s) stop)
      ≡ some (record { result = not_loaded body_too_large; left = source_of (drop n (b ∷ s)) stop })
round-over rounds rt limit content cap n b s stop e pos over =
    round_of rounds rt limit content cap n b s stop e pos ∙ rw over refl

pub round-on :
    (rounds : ℕ) (rt : Runtime) (limit : Option ℕ) (content : Bytes) (cap n b : ℕ) (s : Bytes)
    (stop : Error)
    → n ≡ min (spare content cap) (max 1 (rt.given rounds))
    → 0 < n
    → exceeds limit (content ++ take n (b ∷ s)) ≡ false
    → (rt.with_last && is_nil (drop n (b ∷ s))) ≡ false
    → read_with_capacity (suc rounds) rt limit content cap (source_of (b ∷ s) stop)
      ≡ read_with_capacity rounds rt limit
          (content ++ take n (b ∷ s))
          (next_capacity rt content (content ++ take n (b ∷ s)) cap)
          (source_of (drop n (b ∷ s)) stop)
round-on rounds rt limit content cap n b s stop e pos small going =
    round_of rounds rt limit content cap n b s stop e pos ∙ rw (small, going) refl

-- A round that gives the last byte and the error behind it.
round-last :
    (rounds : ℕ) (rt : Runtime) (limit : Option ℕ) (content : Bytes) (cap n b : ℕ) (s : Bytes)
    (stop : Error)
    → n ≡ min (spare content cap) (max 1 (rt.given rounds))
    → 0 < n
    → exceeds limit (content ++ take n (b ∷ s)) ≡ false
    → (rt.with_last && is_nil (drop n (b ∷ s))) ≡ true
    → read_with_capacity (suc rounds) rt limit content cap (source_of (b ∷ s) stop)
      ≡ some (record {
        result = normalize_read_all_error (content ++ take n (b ∷ s)) stop;
        left = source_of (drop n (b ∷ s)) stop;
      })
round-last rounds rt limit content cap n b s stop e pos small last =
    round_of rounds rt limit content cap n b s stop e pos ∙ rw (small, last) refl

next_capacity-le :
    (rt : Runtime) (content : Bytes) (cap n b : ℕ) (s : Bytes)
    → Grows rt
    → length content ≤ cap
    → n ≤ spare content cap
    → length (content ++ take n (b ∷ s)) ≤ next_capacity rt content (content ++ take n (b ∷ s)) cap
next_capacity-le rt content cap n b s grows room le =
    let sum = length-append content (take n (b ∷ s)) in
    let size = length-take n (b ∷ s) in
    let g = grows cap (length (content ++ take n (b ∷ s))) in ground (arith, sum, size, g)

read_with_capacity-verdict :
    (rounds : ℕ) (rt : Runtime) (limit : Option ℕ) (content : Bytes) (cap : ℕ) (bytes : Bytes)
    (stop : Error)
    → Grows rt
    → length bytes < rounds
    → length content ≤ cap
    → exceeds limit content ≡ false
    → (t : Taken) × (read_with_capacity rounds rt limit content cap (source_of bytes stop) ≡ some t)
      × (t.result ≡ verdict limit (content ++ bytes) stop)
read_with_capacity-verdict zero rt limit content cap bytes stop grows fuel room small =
    absurd (omega arith)
read_with_capacity-verdict (suc rounds) rt limit content cap [] stop grows fuel room small = (
  record { result = normalize_read_all_error (content ++ []) stop; left = source_of [] stop },
  round-end rounds rt limit content cap stop,
  rw (append-nil content, small) (unfold normalize_read_all_error in refl),
)
read_with_capacity-verdict (suc rounds) rt limit content cap (b ∷ s) stop grows fuel room small =
    let n = min (spare content cap) (max 1 (rt.given rounds)) in
    let pos : 0 < n = ground arith in
    let le : n ≤ spare content cap = ground arith in
    let content' = content ++ take n (b ∷ s) in
    let whole : content' ++ drop n (b ∷ s) ≡ content ++ (b ∷ s) =
      append_assoc content (take n (b ∷ s)) (drop n (b ∷ s))
      ∙ ap (λ (r : Bytes). content ++ r) (take-append-drop n (b ∷ s)) in
    let less = length-drop n (b ∷ s) in
    elim (Bool-cases (exceeds limit content')) [
      | inl over ↦
          let over' = exceeds-append limit content' (drop n (b ∷ s)) over in
          (
            record { result = not_loaded body_too_large; left = source_of (drop n (b ∷ s)) stop },
            round-over rounds rt limit content cap n b s stop refl pos over,
            rw (rw whole at over') refl,
          )
      | inr small' ↦ elim (Bool-cases (rt.with_last && is_nil (drop n (b ∷ s)))) [
        | inl last ↦
            let (_, all) = drop_ended n (b ∷ s) (ground (arith, last)) in
            let same = ap (λ (r : Bytes). content ++ r) all in
            let within = sym (ap (exceeds limit) same) ∙ small' in
            (
              _,
              round-last rounds rt limit content cap n b s stop refl pos small' last,
              ap (λ (r : Bytes). normalize_read_all_error r stop) same
                  ∙ rw within (unfold normalize_read_all_error in refl),
            )
        | inr going ↦
            let (t, run, result) =
              read_with_capacity-verdict rounds rt limit content'
                (next_capacity rt content content' cap) (drop n (b ∷ s)) stop grows
                (omega (arith, less)) (next_capacity-le rt content cap n b s grows room le)
                small' in
            (
              t,
              round-on rounds rt limit content cap n b s stop refl pos small' going ∙ run,
              result ∙ ap (λ (r : Bytes). verdict limit r stop) whole,
            )
      ]
    ]

-- A body within the limit is read whole, a longer one is refused, and the error of a reader that
-- fails is passed on, for a limit below the greatest int64. The hint for the capacity, how the slice
-- grows and what each Read gives make no difference, as long as the slice grows to hold what is
-- appended, and one round more than there are bytes is enough; but where the reader gives an error
-- other than io.EOF with the last byte, and that is the byte behind the limit, that error is
-- returned if there is no hint to use.
pub read_all_limited-verdict :
    (rounds : ℕ) (rt : Runtime) (limit capacity : Option ℕ) (bytes : Bytes) (stop : Error)
    → Grows rt
    → IsBelowMax limit
    → length bytes < rounds
    → (t : Taken) × (read_all_limited_with_capacity rounds rt limit capacity (source_of bytes stop)
        ≡ some t)
      × (t.result
          ≡ outcome (initial_read_capacity limit capacity == 0) rt.with_last limit bytes stop)
unfolding read_all_limited_with_capacity
read_all_limited-verdict rounds rt limit capacity bytes stop grows low fuel =
    let cap = initial_read_capacity limit capacity in
    let none_yet : exceeds limit [] ≡ false = exceeds-empty limit in
    elim (Bool-cases (cap == 0)) [
      | inl e ↦ rw e (default-outcome rounds rt limit bytes stop low fuel)
      | inr e ↦ rw e (
          read_with_capacity-verdict rounds rt limit [] cap bytes stop grows fuel (omega arith)
            none_yet)
    ]
  where
    exceeds-empty : (l : Option ℕ) → exceeds l [] ≡ false
    exceeds-empty none = refl
    exceeds-empty (some m) = ground arith
