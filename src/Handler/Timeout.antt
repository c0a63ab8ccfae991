-- ===== src/Handler/Timeout.antt =====
-- internal/handler/adaptive_timeout.go: the latency of an endpoint that most requests keep within.
pub mod Exchanges
pub mod Partition
pub mod Selection
pub mod Tracker
use icapmock.Prelude.{
  ℕ, zero, suc, ◌+◌, ◌-◌, Bool, true, false, Option, none, some, ltb, leb, ◌==◌, if◌then◌else◌,
}

-- An array is a function of the index.
abbrev pub swap : ℕ → ℕ → (ℕ → ℕ) → ℕ → ℕ
swap i j arr x = if x == i then arr j else if x == j then arr i else arr x

-- An item that is not above the pivot goes to the left part.
abbrev pub sifted : Bool → ℕ → ℕ → (ℕ → ℕ) → ℕ × (ℕ → ℕ)
sifted true j i arr = (i + 1, swap i j arr)
sifted false j i arr = (i, arr)

-- The loop of `partition`, for the next `n` indices from `j` on.
unfoldable pub partition_from : ℕ → ℕ → ℕ → ℕ → (ℕ → ℕ) → ℕ × (ℕ → ℕ)
partition_from zero pivot j i arr = (i, arr)
partition_from (suc n) pivot j i arr =
    let (i', arr') = sifted (leb (arr j) pivot) j i arr in partition_from n pivot (j + 1) i' arr'

unfoldable pub partition : (ℕ → ℕ) → ℕ → ℕ → ℕ × (ℕ → ℕ)
partition arr left right =
    let (i, arr') = partition_from (right - left) (arr right) left left arr in
    (i, swap i right arr')

-- The part of the array that is searched on.
abbrev pub side : Bool → ℕ → ℕ → ℕ → ℕ × ℕ
side true left right p = (left, p - 1)
side false left right p = (p + 1, right)

abbrev pub selected :
    Bool → Bool → ℕ → ℕ → (ℕ → ℕ) → (ℕ → ℕ) → Option (ℕ × (ℕ → ℕ)) → Option (ℕ × (ℕ → ℕ))
selected true at_pivot left k arr arr' rest = some (arr left, arr)
selected false true left k arr arr' rest = some (arr' k, arr')
selected false false left k arr arr' rest = rest

-- The value and the array, which is rearranged; `none` when there are more calls than the fuel.
unfoldable pub quickselect : ℕ → (ℕ → ℕ) → ℕ → ℕ → ℕ → Option (ℕ × (ℕ → ℕ))
quickselect zero arr left right k = none
quickselect (suc fuel) arr left right k =
    let (p, arr') = partition arr left right in
    let (left', right') = side (ltb k p) left right p in
    selected (left == right) (k == p) left k arr arr' (quickselect fuel arr' left' right' k)
