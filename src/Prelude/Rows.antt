-- ===== src/Prelude/Rows.antt =====
-- The values that a Map holds, under whatever key.
use Prim.Native.String.{String}
use mathlib.Core.Path.{◌≡◌, refl, sym}
use mathlib.Core.Logic.{◌⊎◌, inl, inr}
use mathlib.Core.Bool.{Bool, true, false}
use mathlib.Core.Option.{some}
use mathlib.Core.List.{[], ◌∷◌}
use native.Mathlib.Omega.{arith}
use text.Mathlib.Text.{◌==◌ as str_eq}
use nexus_infra.Prelude.Tests.{if◌then◌else◌, Bool-cases}
use nexus_infra.Prelude.Lists.{any}
use nexus_infra.Prelude.Assoc.{Assoc, lookup, insert, values, drop_where, map_where}

module _ {V : Type 0} where
  abbrev pub IsRow : V → Assoc V → Type 0
  IsRow a [] = ⊥
  IsRow a ((this, found) ∷ rest) = (found ≡ a) ⊎ IsRow a rest

  pub IsRow-lookup : (key : String) (a : V) (m : Assoc V) → lookup key m ≡ some a → IsRow a m
  unfolding lookup
  IsRow-lookup key a [] e = absurd (ground (arith, e))
  IsRow-lookup key a ((this, found) ∷ rest) e = elim (Bool-cases (str_eq this key)) [
    | inl same ↦ inl (ground (arith, e, same))
    | inr other ↦ inr (IsRow-lookup key a rest (ground (arith, e, other)))
  ]

  pub IsRow-drop_where :
      (p : V → Bool) (a : V) (m : Assoc V) → IsRow a (drop_where p m) → IsRow a m × (p a ≡ false)
  unfolding drop_where
  IsRow-drop_where p a [] h = absurd h
  IsRow-drop_where p a ((this, found) ∷ rest) h = elim (Bool-cases (p found)) [
    | inl gone ↦
        let same : drop_where p ((this, found) ∷ rest) ≡ drop_where p rest = ground (arith, gone) in
        let (row, kept) = IsRow-drop_where p a rest (rw same at h) in (inr row, kept)
    | inr kept ↦
        let same : drop_where p ((this, found) ∷ rest) ≡ (this, found) ∷ drop_where p rest =
          ground (arith, kept) in
        let either : (found ≡ a) ⊎ IsRow a (drop_where p rest) = rw same at h in
        elim either [
          | inl e ↦ (inl e, ground (arith, e, kept))
          | inr later ↦ let (row, out) = IsRow-drop_where p a rest later in (inr row, out)
        ]
  ]

  pub IsRow-insert :
      (key : String) (v a : V) (m : Assoc V) → IsRow a (insert key v m) → (v ≡ a) ⊎ IsRow a m
  unfolding insert
  IsRow-insert key v a [] h = h
  IsRow-insert key v a ((this, found) ∷ rest) h = elim (Bool-cases (str_eq this key)) [
    | inl same ↦
        let now : insert key v ((this, found) ∷ rest) ≡ (key, v) ∷ rest = ground (arith, same) in
        let either : (v ≡ a) ⊎ IsRow a rest = rw now at h in
        elim either [ inl e ↦ inl e | inr row ↦ inr (inr row) ]
    | inr other ↦
        let now : insert key v ((this, found) ∷ rest) ≡ (this, found) ∷ insert key v rest =
          ground (arith, other) in
        let either : (found ≡ a) ⊎ IsRow a (insert key v rest) = rw now at h in
        elim either [
          | inl e ↦ inr (inl e)
          | inr later ↦ elim (IsRow-insert key v a rest later) [
            | inl e ↦ inl e
            | inr row ↦ inr (inr row)
          ]
        ]
  ]

  pub IsRow-any :
      (p : V → Bool) (a : V) (m : Assoc V) → any p (values m) ≡ false → IsRow a m → p a ≡ false
  IsRow-any p a [] h r = absurd r
  IsRow-any p a ((this, found) ∷ rest) h (inl e) = ground (arith, h, e)
  IsRow-any p a ((this, found) ∷ rest) h (inr r) = IsRow-any p a rest (ground (arith, h)) r

  pub IsRow-map_where :
      (p : V → Bool) (f : V → V) (a : V) (m : Assoc V)
      → IsRow a (map_where p f m)
      → (u : V) × IsRow u m × (a ≡ (if p u then f u else u))
  unfolding map_where
  IsRow-map_where p f a [] h = absurd h
  IsRow-map_where p f a ((this, found) ∷ rest) h =
      let now : map_where p f ((this, found) ∷ rest)
          ≡ (this, if p found then f found else found) ∷ map_where p f rest =
        ground arith in
      let either : ((if p found then f found else found) ≡ a) ⊎ IsRow a (map_where p f rest) =
        rw now at h in
      elim either [
        | inl e ↦ (found, inl refl, sym e)
        | inr later ↦ let (u, row, e) = IsRow-map_where p f a rest later in (u, inr row, e)
      ]

  pub any-IsRow :
      (p : V → Bool) (m : Assoc V) → any p (values m) ≡ true → (a : V) × IsRow a m × (p a ≡ true)
  any-IsRow p [] h = absurd (ground (arith, h))
  any-IsRow p ((this, found) ∷ rest) h = elim (Bool-cases (p found)) [
    | inl here ↦ (found, inl refl, here)
    | inr not_here ↦
        let (a, row, holds) = any-IsRow p rest (ground (arith, h, not_here)) in (a, inr row, holds)
  ]
