-- ===== src/Prelude/Keys.antt =====
-- The keys of an association list: none stands twice, and what holds of every entry.
use Prim.Native.String.{String}
use mathlib.Core.Path.{◌≡◌, refl, ap, subst}
use mathlib.Core.Logic.{inl, inr}
use mathlib.Core.Bool.{false}
use mathlib.Core.Option.{some, none, some-injective}
use mathlib.Core.List.{[], ◌∷◌, ◌++◌}
use native.Mathlib.Omega.{arith}
use text.Mathlib.TextEquality.{eq_iff}
use pairfob.Prelude.Tests.{◌===◌, if_rule, Bool-cases}
use pairfob.Prelude.Maps.{Entries, lookup, insert, delete}

pub ne_sym : (s t : String) → (s === t) ≡ false → (t === s) ≡ false
ne_sym s t h = ground (arith, eq_iff s t, eq_iff t s)

module _ {ℓ} {V : Type ℓ} where
  abbrev pub IsNew : String → Entries V → Type 0
  IsNew key [] = Unit {0}
  IsNew key ((held, value) ∷ rest) = ((held === key) ≡ false) × IsNew key rest

  abbrev pub Distinct : Entries V → Type 0
  Distinct [] = Unit {0}
  Distinct ((key, value) ∷ rest) = IsNew key rest × Distinct rest

  IsNew-insert :
      (asked key : String) (value : V) (rows : Entries V)
      → (key === asked) ≡ false
      → IsNew asked rows
      → IsNew asked (insert key value rows)
  unfolding insert
  IsNew-insert asked key value [] h new = (h, tt)
  IsNew-insert asked key value ((held, old) ∷ rest) h new =
      if_rule (IsNew asked) (held === key) ((key, value) ∷ rest)
        ((held, old) ∷ insert key value rest) (λ e. (h, new.1))
        (λ e. (new.0, IsNew-insert asked key value rest h new.1))

  pub Distinct-insert :
      (key : String) (value : V) (rows : Entries V)
      → Distinct rows
      → Distinct (insert key value rows)
  unfolding insert
  Distinct-insert key value [] h = (tt, tt)
  Distinct-insert key value ((held, old) ∷ rest) h =
      if_rule Distinct (held === key) ((key, value) ∷ rest) ((held, old) ∷ insert key value rest)
        (λ e. (subst (λ k. IsNew k rest) ((eq_iff held key).0 e) h.0, h.1))
        (λ e. (
          IsNew-insert held key value rest (ne_sym held key e) h.0,
          Distinct-insert key value rest h.1,
        ))

  IsNew-delete :
      (asked key : String) (rows : Entries V) → IsNew asked rows → IsNew asked (delete key rows)
  unfolding delete
  IsNew-delete asked key [] h = h
  IsNew-delete asked key ((held, old) ∷ rest) h =
      if_rule (IsNew asked) (held === key) (delete key rest) ((held, old) ∷ delete key rest)
        (λ e. IsNew-delete asked key rest h.1) (λ e. (h.0, IsNew-delete asked key rest h.1))

  pub Distinct-delete :
      (key : String) (rows : Entries V) → Distinct rows → Distinct (delete key rows)
  unfolding delete
  Distinct-delete key [] h = h
  Distinct-delete key ((held, old) ∷ rest) h =
      if_rule Distinct (held === key) (delete key rest) ((held, old) ∷ delete key rest)
        (λ e. Distinct-delete key rest h.1)
        (λ e. (IsNew-delete held key rest h.0, Distinct-delete key rest h.1))

  -- A new key is put at the end.
  pub insert_new :
      (key : String) (value : V) (rows : Entries V)
      → IsNew key rows
      → insert key value rows ≡ rows ++ (key, value) ∷ []
  unfolding insert
  insert_new key value [] h = refl
  insert_new key value ((held, old) ∷ rest) h =
      rw h.0 (ap (◌∷◌ (held, old)) (insert_new key value rest h.1))

  pub lookup_new : (key : String) (rows : Entries V) → IsNew key rows → lookup key rows ≡ none
  unfolding lookup
  lookup_new key [] h = refl
  lookup_new key ((held, old) ∷ rest) h = rw h.0 (lookup_new key rest h.1)

module _ {ℓ κ} {V : Type ℓ} (P : String → V → Type κ) where
  abbrev pub AllEntries : Entries V → Type κ
  AllEntries [] = Unit
  AllEntries ((key, value) ∷ rest) = P key value × AllEntries rest

  pub AllEntries-insert :
      (key : String) (value : V) (rows : Entries V)
      → P key value
      → AllEntries rows
      → AllEntries (insert key value rows)
  unfolding insert
  AllEntries-insert key value [] p h = (p, tt)
  AllEntries-insert key value ((held, old) ∷ rest) p h =
      if_rule AllEntries (held === key) ((key, value) ∷ rest) ((held, old) ∷ insert key value rest)
        (λ e. (p, h.1)) (λ e. (h.0, AllEntries-insert key value rest p h.1))

  pub AllEntries-delete :
      (key : String) (rows : Entries V) → AllEntries rows → AllEntries (delete key rows)
  unfolding delete
  AllEntries-delete key [] h = h
  AllEntries-delete key ((held, old) ∷ rest) h =
      if_rule AllEntries (held === key) (delete key rest) ((held, old) ∷ delete key rest)
        (λ e. AllEntries-delete key rest h.1) (λ e. (h.0, AllEntries-delete key rest h.1))

  pub AllEntries-lookup :
      (key : String) (rows : Entries V) (value : V)
      → AllEntries rows
      → lookup key rows ≡ some value
      → P key value
  unfolding lookup
  AllEntries-lookup key [] value h e = absurd (ground arith)
  AllEntries-lookup key ((held, old) ∷ rest) value h e = elim (Bool-cases (held === key)) [
    | inl same ↦
        let found : some old ≡ some value = rw same at e in
        subst (P key) (some-injective old value found)
          (subst (λ k. P k old) ((eq_iff held key).0 same) h.0)
    | inr other ↦ AllEntries-lookup key rest value h.1 (rw other at e)
  ]
