-- ===== src/Prelude/Strings/Text.antt =====
-- Byte strings: literals, equality, prefixes, searching and splitting at a byte.
use Prim.Native.Nat.{ℕ, suc, ◌+◌}
use Prim.Native.Char.{code}
use Prim.Native.String.{String}
use mathlib.Core.Path.{◌≡◌, refl}
use mathlib.Core.Logic.{◌↔◌, inl, inr}
use mathlib.Core.Bool.{Bool, true, false, not, ◌&&◌}
use mathlib.Core.Option
use mathlib.Core.Option.{Option, none, some}
use mathlib.Core.List.{List, [], ◌∷◌, ◌++◌, reverse}
use native.Mathlib.Omega.{arith}
use icapmock.Prelude.Tests.{leb, ◌==◌, if◌then◌else◌, Bool-cases}
use icapmock.Prelude.Lists.{length, drop, All}

abbrev pub Bytes : Type 0
Bytes = List ℕ

-- The bytes of an ASCII literal.
abbrev pub codes : String → Bytes
codes String.[] = []
codes (String.◌∷◌ c s) = code c ∷ codes s

infix 50 ◌=ᵇ◌
unfoldable pub ◌=ᵇ◌ : Bytes → Bytes → Bool
[] =ᵇ [] = true
[] =ᵇ (y ∷ ys) = false
(x ∷ xs) =ᵇ [] = false
(x ∷ xs) =ᵇ (y ∷ ys) = x == y && xs =ᵇ ys

pub =ᵇ_iff : (s t : Bytes) → ((s =ᵇ t) ≡ true) ↔ (s ≡ t)
unfolding ◌=ᵇ◌
=ᵇ_iff [] [] = (λ _. refl, λ _. refl)
=ᵇ_iff [] (y ∷ ys) = (λ h. cc, λ h. cc)
=ᵇ_iff (x ∷ xs) [] = (λ h. cc, λ h. cc)
=ᵇ_iff (x ∷ xs) (y ∷ ys) = ground (arith, =ᵇ_iff xs ys)

pub =ᵇ_refl : (s : Bytes) → (s =ᵇ s) ≡ true
=ᵇ_refl s = (=ᵇ_iff s s).1 refl

-- `strings.HasPrefix`.
unfoldable pub has_prefix : Bytes → Bytes → Bool
has_prefix s [] = true
has_prefix [] (p ∷ ps) = false
has_prefix (c ∷ s) (p ∷ ps) = c == p && has_prefix s ps

-- `strings.IndexByte`; `none` is -1.
unfoldable pub index_byte : Bytes → ℕ → Option ℕ
index_byte [] b = none
index_byte (c ∷ s) b = if c == b then some 0 else Option.map suc (index_byte s b)

-- `strings.Index`; `none` is -1.
unfoldable pub index : Bytes → Bytes → Option ℕ
unfolding has_prefix
index [] p = if has_prefix [] p then some 0 else none
index (c ∷ s) p = if has_prefix (c ∷ s) p then some 0 else Option.map suc (index s p)

-- `strings.Split` at a one-byte separator: the text before the first separator, and the others.
unfoldable pub split_byte : ℕ → Bytes → Bytes × List Bytes
split_byte b [] = ([], [])
split_byte b (c ∷ s) =
    let (first, others) = split_byte b s in
    if c == b then ([], first ∷ others) else (c ∷ first, others)

-- `strings.TrimSuffix`, by the reversed text.
unfoldable pub trim_suffix : Bytes → Bytes → Bytes
unfolding has_prefix
trim_suffix s t =
    if has_prefix (reverse s) (reverse t) then reverse (drop (length t) (reverse s)) else s

-- `c | 0x20` for an upper-case letter.
unfoldable pub lower_ascii : ℕ → ℕ
lower_ascii c = if leb b'A' c && leb c b'Z' then c + 32 else c

-- Every byte of `s` differs from `b`.
abbrev pub lacks : ℕ → Bytes → Bool
lacks b [] = true
lacks b (c ∷ s) = not (c == b) && lacks b s

pub lacks-append :
    (b : ℕ) (s t : Bytes) → lacks b s ≡ true → lacks b t ≡ true → lacks b (s ++ t) ≡ true
lacks-append b [] t h k = k
lacks-append b (c ∷ s) t h k = ground (arith, lacks-append b s t)

pub split_byte-lacks : (b : ℕ) (s : Bytes) → lacks b s ≡ true → split_byte b s ≡ (s, [])
unfolding split_byte
split_byte-lacks b [] h = refl
split_byte-lacks b (c ∷ s) h = ground (arith, split_byte-lacks b s)

pub split_byte_at :
    (b : ℕ) (s t : Bytes)
    → lacks b s ≡ true
    → split_byte b (s ++ b ∷ t) ≡ (s, (split_byte b t).0 ∷ (split_byte b t).1)
unfolding split_byte
split_byte_at b [] t h = ground arith
split_byte_at b (c ∷ s) t h = ground (arith, split_byte_at b s t)

-- `strings.Join` of the first text and the others.
abbrev pub join_byte : ℕ → Bytes → List Bytes → Bytes
join_byte b first [] = first
join_byte b first (s ∷ others) = first ++ b ∷ join_byte b s others

join_byte-cons :
    (b c : ℕ) (s : Bytes) (others : List Bytes)
    → join_byte b (c ∷ s) others ≡ c ∷ join_byte b s others
join_byte-cons b c s [] = refl
join_byte-cons b c s (t ∷ others) = refl

-- Splitting loses nothing, and leaves no separator in a piece.
pub join_byte-split_byte :
    (b : ℕ) (s : Bytes) → join_byte b (split_byte b s).0 (split_byte b s).1 ≡ s
unfolding split_byte
join_byte-split_byte b [] = refl
join_byte-split_byte b (c ∷ s) =
    let e = join_byte-cons b c (split_byte b s).0 (split_byte b s).1 in
    ground (arith, join_byte-split_byte b s, e)

pub split_byte-pieces_lack :
    (b : ℕ) (s : Bytes)
    → (lacks b (split_byte b s).0 ≡ true) × All (λ p. lacks b p ≡ true) (split_byte b s).1
unfolding split_byte
split_byte-pieces_lack b [] = (refl, tt)
split_byte-pieces_lack b (c ∷ s) =
    let (first, others) = split_byte-pieces_lack b s in
    elim (Bool-cases (c == b)) [
      | inl e ↦ rw e (refl, (first, others))
      | inr e ↦ rw e (ground arith, others)
    ]

pub index_byte_at :
    (b : ℕ) (s t : Bytes) → lacks b s ≡ true → index_byte (s ++ b ∷ t) b ≡ some (length s)
unfolding index_byte
index_byte_at b [] t h = ground arith
index_byte_at b (c ∷ s) t h =
    let ih = index_byte_at b s t (ground arith) in
    let e : (c == b) ≡ false = ground arith in rw (e, ih) refl
