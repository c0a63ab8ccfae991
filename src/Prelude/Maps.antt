-- ===== src/Prelude/Maps.antt =====
-- A Go map with string keys, as an association list in which a key stands once.
use mathlib.Core.Path.{◌≡◌, refl}
use mathlib.Core.Option.{Option, none, some}
use mathlib.Core.List.{List, [], ◌∷◌}
use native.Mathlib.Omega.{arith}
use icapmock.Prelude.Tests.{if◌then◌else◌}
use icapmock.Prelude.Strings.{Bytes, ◌=ᵇ◌, =ᵇ_iff}

module _ {ℓ} {V : Type ℓ} where
  unfoldable pub lookup : Bytes → List (Bytes × V) → Option V
  lookup name [] = none
  lookup name ((other, value) ∷ rest) = if other =ᵇ name then some value else lookup name rest

  -- `m[name] = value`.
  unfoldable pub insert : Bytes → V → List (Bytes × V) → List (Bytes × V)
  insert name value [] = (name, value) ∷ []
  insert name value ((other, old) ∷ rest) =
      let rest' = insert name value rest in
      if other =ᵇ name then (name, value) ∷ rest else (other, old) ∷ rest'

  -- `delete(m, name)`.
  unfoldable pub delete : Bytes → List (Bytes × V) → List (Bytes × V)
  delete name [] = []
  delete name ((other, old) ∷ rest) =
      let rest' = delete name rest in if other =ᵇ name then rest' else (other, old) ∷ rest'

  unfoldable pub keys : List (Bytes × V) → List Bytes
  keys [] = []
  keys ((name, _) ∷ rest) = name ∷ keys rest

  pub lookup-insert :
      (name asked : Bytes) (value : V) (entries : List (Bytes × V))
      → lookup asked (insert name value entries)
        ≡ (if name =ᵇ asked then some value else lookup asked entries)
  unfolding lookup insert
  lookup-insert name asked value [] = refl
  lookup-insert name asked value ((other, old) ∷ rest) =
      let ih = lookup-insert name asked value rest in
      let other_name = =ᵇ_iff other name in
      let other_asked = =ᵇ_iff other asked in
      ground (arith, ih, other_name, other_asked, =ᵇ_iff name asked)

  pub lookup-delete :
      (name asked : Bytes) (entries : List (Bytes × V))
      → lookup asked (delete name entries) ≡ (if name =ᵇ asked then none else lookup asked entries)
  unfolding lookup delete
  lookup-delete name asked [] = ground arith
  lookup-delete name asked ((other, old) ∷ rest) =
      let ih = lookup-delete name asked rest in
      let other_name = =ᵇ_iff other name in
      let other_asked = =ᵇ_iff other asked in
      ground (arith, ih, other_name, other_asked, =ᵇ_iff name asked)
