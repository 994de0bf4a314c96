-- ===== src/Prelude/Maps.antt =====
-- `Map<string, V>` as an association list in insertion order.
use Prim.Native.String.{String}
use mathlib.Core.Path.{◌≡◌, refl}
use mathlib.Core.Option.{Option, none, some}
use mathlib.Core.List.{List, [], ◌∷◌}
use native.Mathlib.Omega.{arith}
use text.Mathlib.TextEquality.{eq_iff}
use pairfob.Prelude.Tests.{◌===◌, if◌then◌else◌}

abbrev pub Entries {ℓ} : Type ℓ → Type ℓ
Entries V = List (String × V)

module _ {ℓ} {V : Type ℓ} where
  -- map.get(key)
  unfoldable pub lookup : String → Entries V → Option V
  lookup key [] = none
  lookup key ((held, value) ∷ rest) = if held === key then some value else lookup key rest

  -- map.set(key, value): an old entry keeps its place
  unfoldable pub insert : String → V → Entries V → Entries V
  insert key value [] = (key, value) ∷ []
  insert key value ((held, old) ∷ rest) =
      if held === key then (key, value) ∷ rest else (held, old) ∷ insert key value rest

  -- map.delete(key)
  unfoldable pub delete : String → Entries V → Entries V
  delete key [] = []
  delete key ((held, old) ∷ rest) =
      if held === key then delete key rest else (held, old) ∷ delete key rest

  pub lookup-insert :
      (key asked : String) (value : V) (rows : Entries V)
      → lookup asked (insert key value rows)
        ≡ (if key === asked then some value else lookup asked rows)
  unfolding lookup insert
  lookup-insert key asked value [] = refl
  lookup-insert key asked value ((held, old) ∷ rest) = ground (
    arith,
    eq_iff key asked,
    eq_iff held key,
    eq_iff held asked,
    lookup-insert key asked value rest,
  )

  pub lookup-delete :
      (key asked : String) (rows : Entries V)
      → lookup asked (delete key rows) ≡ (if key === asked then none else lookup asked rows)
  unfolding lookup delete
  lookup-delete key asked [] = ground arith
  lookup-delete key asked ((held, old) ∷ rest) =
      ground
        (arith, eq_iff key asked, eq_iff held key, eq_iff held asked, lookup-delete key asked rest)
