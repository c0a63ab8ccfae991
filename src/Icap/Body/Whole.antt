-- ===== src/Icap/Body/Whole.antt =====
-- pkg/icap/body_read.go: what io.ReadAll makes of a body, whole or behind a limit.
use icapmock.Prelude.{
  ℕ, zero, suc, ◌+◌, ◌-◌, ◌≤◌, ◌<◌, ◌≡◌, refl, sym, ap, ◌∙◌, Bool, true, false, not, ◌&&◌, ◌||◌,
  Option, none, some, [], ◌∷◌, ◌++◌, arith, ltb, ◌==◌, if◌then◌else◌, Bytes, length, take, drop,
  length-take, length-drop, take-append-drop, append_assoc, append-nil, is_nil, min, max,
  Bool-cases, inl, inr,
}
use icapmock.Prelude.Int64.{max_int64, pos_part, wrap64_small}
use icapmock.Icap.Chunked.Source.{Error, eof, is_eof, Source}
use icapmock.Icap.Body.{
  Runtime, Loaded, loaded, not_loaded, body_too_large, read_failed, exceeds, Chunk, read_some,
  read_limited, left_after, continue_read, Taken, normalize_read_all_error, read_all, bounded,
  bounded_take, body_within_limit, read_all_limited_default,
}

-- What a body of this content comes to, by its limit and the error behind it.
abbrev pub verdict : Option ℕ → Bytes → Error → Loaded
verdict limit content stop =
    if exceeds limit content
    then not_loaded body_too_large
    else if is_eof stop
    then loaded content
    else not_loaded (read_failed stop)

pub take-not_nil : (n b : ℕ) (s : Bytes) → 0 < n → is_nil (take n (b ∷ s)) ≡ false
take-not_nil zero b s h = absurd (omega arith)
take-not_nil (suc n) b s h = refl

abbrev pub source_of : Bytes → Error → Source
source_of s stop = record { bytes = s; stop = stop }

is_nil-length : (s : Bytes) → is_nil s ≡ (length s == 0)
is_nil-length [] = refl
is_nil-length (b ∷ s) = ground arith

-- Behind the last byte.
pub drop_ended : (n : ℕ) (s : Bytes) → is_nil (drop n s) ≡ true → (length s ≤ n) × (take n s ≡ s)
drop_ended n s h =
    let size = length-drop n s in
    let none_left : drop n s ≡ [] = nil_of (drop n s) h in
    (
      ground (arith, size, sym (is_nil-length (drop n s)) ∙ h),
      sym (append-nil (take n s))
          ∙ ap (λ (t : Bytes). take n s ++ t) (sym none_left)
          ∙ take-append-drop n s,
    )
  where
    nil_of : (t : Bytes) → is_nil t ≡ true → t ≡ []
    nil_of [] e = refl
    nil_of (c ∷ t) e = absurd (cc)

pub drop_of_more : (n : ℕ) (s : Bytes) → n < length s → is_nil (drop n s) ≡ false
drop_of_more n s h = is_nil-length (drop n s) ∙ ground (arith, length-drop n s, h)

-- A round of `io.ReadAll` that ends it, and one that goes on, by what the Read gives.
read_all-stops :
    (rounds : ℕ) (rt : Runtime) (left : Option ℕ) (content : Bytes) (s : Source) (x : Chunk)
    (e : Error)
    → read_limited left (rt.given rounds) rt.with_last s ≡ x
    → x.failure ≡ some e
    → read_all (suc rounds) rt left content s
      ≡ some (record { result = normalize_read_all_error (content ++ x.got) e; left = x.source })
unfolding read_all
read_all-stops rounds rt left content s x e h k =
    ap (continue_read (read_all rounds rt) left content) h ∙ rw k refl

read_all-goes_on :
    (rounds : ℕ) (rt : Runtime) (left : Option ℕ) (content : Bytes) (s : Source) (x : Chunk)
    → read_limited left (rt.given rounds) rt.with_last s ≡ x
    → x.failure ≡ none
    → read_all (suc rounds) rt left content s
      ≡ read_all rounds rt (left_after left x.got) (content ++ x.got) x.source
unfolding read_all
read_all-goes_on rounds rt left content s x h k =
    ap (continue_read (read_all rounds rt) left content) h ∙ rw k refl

-- What a Read of at most `n` bytes gives while there are any.
abbrev pub part_of : ℕ → Bool → Bytes → Error → Chunk
part_of n with_last s stop = record {
  got = take n s;
  failure = if with_last && is_nil (drop n s) then some stop else none;
  source = source_of (drop n s) stop;
}

read_some-part :
    (k given : ℕ) (with_last : Bool) (b : ℕ) (s : Bytes) (stop : Error)
    → read_some k given with_last (source_of (b ∷ s) stop)
      ≡ part_of (min k (max 1 given)) with_last (b ∷ s) stop
unfolding read_some
read_some-part k given with_last b s stop = refl

-- What reading on gives behind a limit of `n` bytes.
abbrev cut_off : ℕ → Bool → Bytes → Bytes → Error → Loaded
cut_off n with_last content bytes stop =
    if ltb (length bytes) n || (with_last && (length bytes == n && ltb 0 n))
    then normalize_read_all_error (content ++ bytes) stop
    else loaded (content ++ take n bytes)

abbrev no_part : Error → Chunk
no_part stop = record { got = []; failure = some stop; source = source_of [] stop }

abbrev Reads : ℕ → Runtime → Option ℕ → Bytes → Bytes → Error → Loaded → Type 0
Reads rounds rt left content bytes stop r =
    (t : Taken) × (read_all rounds rt left content (source_of bytes stop) ≡ some t) × (t.result ≡ r)

read_all-empty :
    (rounds : ℕ) (rt : Runtime) (n : ℕ) (content : Bytes) (stop : Error)
    → Reads (suc rounds) rt (some n) content [] stop (cut_off n rt.with_last content [] stop)
unfolding read_limited read_some normalize_read_all_error
read_all-empty rounds rt zero content stop =
    (_, read_all-stops rounds rt (some 0) content (source_of [] stop) _ eof refl refl, ground arith)
read_all-empty rounds rt (suc n) content stop = (
  _,
  read_all-stops rounds rt (some (suc n)) content (source_of [] stop) _ stop refl refl,
  ground arith,
)

cut_off-stopped :
    (k n : ℕ) (content s : Bytes) (stop : Error)
    → length s ≤ k
    → take k s ≡ s
    → k ≤ n
    → 0 < n
    → normalize_read_all_error (content ++ take k s) stop ≡ cut_off n true content s stop
cut_off-stopped k n content s stop short whole le pos =
    let ended : (ltb (length s) n || (true && (length s == n && ltb 0 n))) ≡ true =
      ground (arith, short, le, pos) in
    rw (whole, ended) refl

take-nil : (n : ℕ) → take {A = ℕ} n [] ≡ []
take-nil zero = refl
take-nil (suc n) = refl

take-take :
    (k n : ℕ) (s : Bytes) → k ≤ n → take k s ++ take (n - length (take k s)) (drop k s) ≡ take n s
take-take zero n s le = let e : n - 0 ≡ n = omega arith in ap (λ (m : ℕ). take m s) e
take-take (suc k) zero s le = absurd (omega arith)
take-take (suc k) (suc n) [] le = take-nil (suc n - 0)
take-take (suc k) (suc n) (b ∷ s) le =
    let e : suc n - suc (length (take k s)) ≡ n - length (take k s) = omega arith in
    ap (λ (m : ℕ). b ∷ (take k s ++ take m (drop k s))) e
    ∙ ap (λ (t : Bytes). b ∷ t) (take-take k n s (omega arith))

cut_off-on :
    (k n : ℕ) (last : Bool) (content s : Bytes) (stop : Error)
    → 0 < k
    → k ≤ n
    → (last && is_nil (drop k s)) ≡ false
    → cut_off (n - length (take k s)) last (content ++ take k s) (drop k s) stop
      ≡ cut_off n last content s stop
cut_off-on k n last content s stop pos le h =
    let less = length-drop k s in
    let taken = length-take k s in
    let nils = is_nil-length (drop k s) in
    let n' = n - length (take k s) in
    let same : (ltb (length (drop k s)) n' || (last && (length (drop k s) == n' && ltb 0 n')))
        ≡ (ltb (length s) n || (last && (length s == n && ltb 0 n))) =
      ground (arith, less, taken, nils, h, pos, le) in
    let whole =
      append_assoc content (take k s) (drop k s)
      ∙ ap (λ (t : Bytes). content ++ t) (take-append-drop k s) in
    let part =
      append_assoc content (take k s) (take n' (drop k s))
      ∙ ap (λ (t : Bytes). content ++ t) (take-take k n s le) in
    rw (same, whole, part) refl

read_all-cut_off :
    (rounds : ℕ) (rt : Runtime) (n : ℕ) (content bytes : Bytes) (stop : Error)
    → length bytes < rounds
    → Reads rounds rt (some n) content bytes stop (cut_off n rt.with_last content bytes stop)
unfolding read_limited normalize_read_all_error
read_all-cut_off zero rt n content bytes stop fuel = absurd (omega arith)
read_all-cut_off (suc rounds) rt n content [] stop fuel = read_all-empty rounds rt n content stop
read_all-cut_off (suc rounds) rt zero content (b ∷ s) stop fuel = (
  _,
  read_all-stops rounds rt (some 0) content (source_of (b ∷ s) stop) _ eof refl refl,
  ground arith,
)
read_all-cut_off (suc rounds) rt (suc m) content (b ∷ s) stop fuel =
    let n = suc m in
    let k = min n (max 1 (rt.given rounds)) in
    let pos : 0 < k = ground arith in
    let le : k ≤ n = ground arith in
    let x = part_of k rt.with_last (b ∷ s) stop in
    let part = read_some-part n (rt.given rounds) rt.with_last b s stop in
    elim (Bool-cases (rt.with_last && is_nil (drop k (b ∷ s)))) [
      | inl h ↦
          let (short, whole) = drop_ended k (b ∷ s) (ground (arith, h)) in
          let given : rt.with_last ≡ true = ground (arith, h) in
          (
            _,
            read_all-stops rounds rt (some n) content (source_of (b ∷ s) stop) x stop part
                (rw h refl),
            cut_off-stopped k n content (b ∷ s) stop short whole le (omega arith)
                ∙ ap (λ (l : Bool). cut_off n l content (b ∷ s) stop) (sym given),
          )
      | inr h ↦
          let content' = content ++ take k (b ∷ s) in
          let less = length-drop k (b ∷ s) in
          let (t, run, result) =
            read_all-cut_off rounds rt (n - length (take k (b ∷ s))) content' (drop k (b ∷ s)) stop
              (omega (arith, less, pos, fuel)) in
          (
            t,
            read_all-goes_on rounds rt (some n) content (source_of (b ∷ s) stop) x part (rw h refl)
                ∙ run,
            result ∙ cut_off-on k n rt.with_last content (b ∷ s) stop pos le h,
          )
    ]

-- The body is one byte above the limit.
abbrev pub one_above : Option ℕ → Bytes → Bool
one_above none bytes = false
one_above (some m) bytes = length bytes == m + 1

-- What reading a body comes to: without a hint, the error that comes with the byte behind the limit is
-- returned rather than the excess.
abbrev pub outcome : Bool → Bool → Option ℕ → Bytes → Error → Loaded
outcome unhinted with_last limit bytes stop =
    if unhinted && (with_last && (one_above limit bytes && not (is_eof stop)))
    then not_loaded (read_failed stop)
    else verdict limit bytes stop

bounded-if :
    (limit : Option ℕ) (c : Bool) (r r' : Loaded)
    → bounded limit (if c then r else r') ≡ (if c then bounded limit r else bounded limit r')
bounded-if limit true r r' = refl
bounded-if limit false r r' = refl

bounded-cut_off :
    (m : ℕ) (last : Bool) (bytes : Bytes) (stop : Error)
    → bounded (some m) (cut_off (m + 1) last [] bytes stop) ≡ outcome true last (some m) bytes stop
unfolding normalize_read_all_error body_within_limit
bounded-cut_off m last bytes stop =
    bounded-if (some m)
      (ltb (length bytes) (m + 1) || (last && (length bytes == m + 1 && ltb 0 (m + 1))))
      (normalize_read_all_error bytes stop) (loaded (take (m + 1) bytes))
    ∙ elim (Bool-cases (is_eof stop)) [
      | inl e ↦ rw e (ground (arith, length-take (m + 1) bytes))
      | inr e ↦ rw e (ground (arith, length-take (m + 1) bytes))
    ]

read_all-whole :
    (rounds : ℕ) (rt : Runtime) (content bytes : Bytes) (stop : Error)
    → length bytes < rounds
    → Reads rounds rt none content bytes stop (normalize_read_all_error (content ++ bytes) stop)
unfolding read_limited
read_all-whole zero rt content bytes stop fuel = absurd (omega arith)
read_all-whole (suc rounds) rt content [] stop fuel = (
  _,
  read_all-stops rounds rt none content (source_of [] stop) (no_part stop) stop
      (unfold read_some in refl) refl,
  refl,
)
read_all-whole (suc rounds) rt content (b ∷ s) stop fuel =
    let k = min (max 1 (rt.given rounds)) (max 1 (rt.given rounds)) in
    let pos : 0 < k = ground arith in
    let x = part_of k rt.with_last (b ∷ s) stop in
    let part = read_some-part (max 1 (rt.given rounds)) (rt.given rounds) rt.with_last b s stop in
    elim (Bool-cases (rt.with_last && is_nil (drop k (b ∷ s)))) [
      | inl h ↦
          let (_, whole) = drop_ended k (b ∷ s) (ground (arith, h)) in
          (
            _,
            read_all-stops rounds rt none content (source_of (b ∷ s) stop) x stop part (rw h refl),
            ap (λ (r : Bytes). normalize_read_all_error (content ++ r) stop) whole,
          )
      | inr h ↦
          let less = length-drop k (b ∷ s) in
          let (t, run, result) =
            read_all-whole rounds rt (content ++ take k (b ∷ s)) (drop k (b ∷ s)) stop
              (omega (arith, less, pos, fuel)) in
          (
            t,
            read_all-goes_on rounds rt none content (source_of (b ∷ s) stop) x part (rw h refl)
                ∙ run,
            result
                ∙ ap (λ (r : Bytes). normalize_read_all_error r stop)
                    (append_assoc content (take k (b ∷ s)) (drop k (b ∷ s))
                      ∙ ap (λ (r : Bytes). content ++ r) (take-append-drop k (b ∷ s))),
          )
    ]

-- A limit whose successor is an int64.
abbrev pub IsBelowMax : Option ℕ → Type 0
IsBelowMax none = Unit
IsBelowMax (some m) = m < max_int64

pub default-outcome :
    (rounds : ℕ) (rt : Runtime) (limit : Option ℕ) (bytes : Bytes) (stop : Error)
    → IsBelowMax limit
    → length bytes < rounds
    → (t : Taken) × (read_all_limited_default rounds rt limit (source_of bytes stop) ≡ some t)
      × (t.result ≡ outcome true rt.with_last limit bytes stop)
unfolding read_all_limited_default normalize_read_all_error body_within_limit
default-outcome rounds rt none bytes stop low fuel =
    let (t, run, result) = read_all-whole rounds rt [] bytes stop fuel in
    (t, run, result ∙ ground arith)
default-outcome rounds rt (some m) bytes stop low fuel =
    let (t, run, result) = read_all-cut_off rounds rt (m + 1) [] bytes stop fuel in
    let n = ap pos_part (wrap64_small (m + 1) (omega (arith, low))) in
    (
      record t { result = bounded (some m) t.result },
      ap
            (λ (left : ℕ).
              bounded_take (some m) (read_all rounds rt (some left) [] (source_of bytes stop)))
            n
          ∙ ap (bounded_take (some m)) run,
      ap (bounded (some m)) result ∙ bounded-cut_off m rt.with_last bytes stop,
    )
