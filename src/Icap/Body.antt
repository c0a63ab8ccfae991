-- ===== src/Icap/Body.antt =====
-- pkg/icap/body_read.go and the lazy loading of pkg/icap/request.go: reading a body within a limit.
-- A limit or a hint that is negative is `none`. What a Read gives is up to the body's reader: at
-- least a byte while there are any, and with the last one its error, or not yet. How far `append`
-- grows a slice is up to the runtime.
pub mod Whole
pub mod Limit
pub mod Excess
pub mod Lazy
use icapmock.Prelude.{
  ℕ, zero, suc, ◌+◌, ◌-◌, ◌*◌, Bool, true, false, not, ◌&&◌, ◌||◌, Option, none, some, List, [],
  ◌++◌, ltb, leb, ◌==◌, if◌then◌else◌, Bytes, length, take, drop, is_nil, min, max,
}
use icapmock.Prelude.Int64.{pos_part, wrap64}
use icapmock.Icap.Chunked.Source.{Error, eof, is_eof, Source}

abbrev pub stack_read_buffer_size : ℕ
stack_read_buffer_size = 512

abbrev pub max_initial_body_read_capacity : ℕ
max_initial_body_read_capacity = 1024 * 1024

pub data BodyError : Type 0 where
  body_too_large : BodyError
  read_failed : Error → BodyError

pub data Loaded : Type 0 where
  loaded : Bytes → Loaded
  not_loaded : BodyError → Loaded

abbrev pub exceeds : Option ℕ → Bytes → Bool
exceeds none content = false
exceeds (some m) content = ltb m (length content)

unfoldable pub read_capacity_within_limit : Option ℕ → ℕ → Bool
read_capacity_within_limit none capacity = true
read_capacity_within_limit (some m) capacity = leb capacity m

unfoldable pub initial_read_capacity : Option ℕ → Option ℕ → ℕ
initial_read_capacity limit none = 0
initial_read_capacity limit (some capacity) =
    if capacity == 0 || not (read_capacity_within_limit limit capacity)
    then 0
    else if ltb max_initial_body_read_capacity capacity
    then 0
    else capacity

-- What the environment decides: how many bytes the Read of a round gives, whether the Read that gives
-- the last byte returns the error too, and the new capacity of a slice that is appended to, by its
-- old one and its new length.
pub record Runtime : Type 0 where
  pub given : ℕ → ℕ
  pub with_last : Bool
  pub grow : ℕ → ℕ → ℕ

-- One Read into a buffer of `k` bytes.
pub record Chunk : Type 0 where
  pub got : Bytes
  pub failure : Option Error
  pub source : Source

unfoldable pub read_some : ℕ → ℕ → Bool → Source → Chunk
read_some k given with_last s =
    let n = min k (max 1 given) in
    if is_nil s.bytes then record { got = []; failure = some s.stop; source = s } else record {
      got = take n s.bytes;
      failure = if with_last && is_nil (drop n s.bytes) then some s.stop else none;
      source = record s { bytes = drop n s.bytes };
    }

abbrev pub spare : Bytes → ℕ → ℕ
spare content cap = if length content == cap then stack_read_buffer_size else cap - length content

-- The capacity after `readNextBodyBytes`: a full slice is appended to.
abbrev pub next_capacity : Runtime → Bytes → Bytes → ℕ → ℕ
next_capacity rt content content' cap =
    if length content == cap && ltb cap (length content')
    then rt.grow cap (length content')
    else cap

-- The result, and what is left in the reader.
pub record Taken : Type 0 where
  pub result : Loaded
  pub left : Source

unfoldable pub normalize_read_all_error : Bytes → Error → Loaded
normalize_read_all_error content e = if is_eof e then loaded content else not_loaded (read_failed e)

-- The loop of `readAllLimitedWithCapacity`; `none`: the rounds were used up.
unfoldable pub read_with_capacity : ℕ → Runtime → Option ℕ → Bytes → ℕ → Source → Option Taken
read_with_capacity zero rt limit content cap s = none
read_with_capacity (suc rounds) rt limit content cap s =
    let x = read_some (spare content cap) (rt.given rounds) rt.with_last s in
    let content' = content ++ x.got in
    let rest =
      read_with_capacity rounds rt limit content' (next_capacity rt content content' cap)
        x.source in
    if not (is_nil x.got) && exceeds limit content'
    then some (record { result = not_loaded body_too_large; left = x.source })
    else elim x.failure [
      | some e ↦ some (record { result = normalize_read_all_error content' e; left = x.source })
      | none ↦ rest
    ]

unfoldable pub body_within_limit : Bytes → Option ℕ → Loaded
body_within_limit content limit =
    if exceeds limit content then not_loaded body_too_large else loaded content

-- One Read by `io.ReadAll`, of the reader, or of an io.LimitedReader with some bytes left of it.
unfoldable pub read_limited : Option ℕ → ℕ → Bool → Source → Chunk
read_limited none given with_last s = read_some (max 1 given) given with_last s
read_limited (some zero) given with_last s = record { got = []; failure = some eof; source = s }
read_limited (some (suc n)) given with_last s = read_some (suc n) given with_last s

abbrev pub left_after : Option ℕ → Bytes → Option ℕ
left_after none got = none
left_after (some n) got = some (n - length got)

-- The result where the Read failed, and reading on where it did not.
abbrev pub continue_read :
    (Option ℕ → Bytes → Source → Option Taken) → Option ℕ → Bytes → Chunk → Option Taken
continue_read next left content x = elim x.failure [
  | some e ↦
      some (record { result = normalize_read_all_error (content ++ x.got) e; left = x.source })
  | none ↦ next (left_after left x.got) (content ++ x.got) x.source
]

-- `io.ReadAll`; `none`: the rounds were used up.
unfoldable pub read_all : ℕ → Runtime → Option ℕ → Bytes → Source → Option Taken
read_all zero rt left content s = none
read_all (suc rounds) rt left content s =
    continue_read (read_all rounds rt) left content
      (read_limited left (rt.given rounds) rt.with_last s)

abbrev pub bounded : Option ℕ → Loaded → Loaded
bounded limit (loaded content) = body_within_limit content limit
bounded limit (not_loaded e) = not_loaded e

abbrev pub bounded_take : Option ℕ → Option Taken → Option Taken
bounded_take limit none = none
bounded_take limit (some t) = some (record t { result = bounded limit t.result })

-- The LimitedReader has `maxBytes + 1` bytes left, an int64.
unfoldable pub read_all_limited_default : ℕ → Runtime → Option ℕ → Source → Option Taken
read_all_limited_default rounds rt none s = read_all rounds rt none [] s
read_all_limited_default rounds rt (some m) s =
    bounded_take (some m) (read_all rounds rt (some (pos_part (wrap64 (m + 1)))) [] s)

unfoldable pub read_all_limited_with_capacity :
    ℕ → Runtime → Option ℕ → Option ℕ → Source → Option Taken
read_all_limited_with_capacity rounds rt limit capacity s =
    if initial_read_capacity limit capacity == 0
    then read_all_limited_default rounds rt limit s
    else read_with_capacity rounds rt limit [] (initial_read_capacity limit capacity) s

-- The fields of an HTTPMessage that its body is loaded into; `once` is its sync.Once.
pub record LazyBody : Type 0 where
  pub body_reader : Option Source
  pub body : Bytes
  pub body_loaded : Bool
  pub body_err : Option BodyError
  pub once : Bool

abbrev pub store : Option Taken → LazyBody → Option LazyBody
store none b = none
store (some t) b = some (elim t.result [
  | loaded content ↦ record b {
    body_reader = some t.left;
    body = content;
    body_loaded = true;
    once = true;
  }
  | not_loaded e ↦ record b { body_reader = some t.left; body = []; body_err = some e; once = true }
])

unfoldable pub load_once : ℕ → Runtime → Option ℕ → Option ℕ → LazyBody → Option LazyBody
load_once rounds rt limit capacity b = if b.once then some b else elim b.body_reader [
  | none ↦ some (record b { once = true })
  | some s ↦ store (read_all_limited_with_capacity rounds rt limit capacity s) b
]

unfoldable pub loaded_body : Option ℕ → LazyBody → Loaded
loaded_body limit b = elim b.body_err [
  | some e ↦ not_loaded e
  | none ↦ body_within_limit b.body limit
]

abbrev pub with_result : Option ℕ → Option LazyBody → Option (Loaded × LazyBody)
with_result limit none = none
with_result limit (some b) = some (loaded_body limit b, b)

-- `GetBodyLimited`, and `GetBody` without a limit; the hint is the Content-Length.
unfoldable pub get_body_limited :
    ℕ → Runtime → Option ℕ → Option ℕ → LazyBody → Option (Loaded × LazyBody)
get_body_limited rounds rt limit hint b = with_result limit (load_once rounds rt limit hint b)
