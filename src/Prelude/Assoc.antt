-- ===== src/Prelude/Assoc.antt =====
-- A JavaScript Map with string keys, in insertion order: a key that is set again keeps its place.
use Prim.Native.String.{String}
use mathlib.Core.Logic.{inl, inr}
use mathlib.Core.Path.{◌≡◌, refl}
use mathlib.Core.Bool.{Bool, false}
use mathlib.Core.Option.{Option, none, some}
use mathlib.Core.List.{List, [], ◌∷◌}
use native.Mathlib.Omega.{arith}
use text.Mathlib.Text.{◌==◌ as str_eq}
use text.Mathlib.TextEquality.{eq_iff}
use nexus_infra.Prelude.Tests.{if◌then◌else◌, Bool-cases}

abbrev pub Assoc {ℓ} : Type ℓ → Type ℓ
Assoc V = List (String × V)

module _ {ℓ} {V : Type ℓ} where
  -- `m.get(key)`
  unfoldable pub lookup : String → Assoc V → Option V
  lookup key [] = none
  lookup key ((this, found) ∷ rest) = if str_eq this key then some found else lookup key rest

  -- `m.delete(key)`
  unfoldable pub erase : String → Assoc V → Assoc V
  erase key [] = []
  erase key ((this, found) ∷ rest) =
      let shorter = erase key rest in if str_eq this key then shorter else (this, found) ∷ shorter

  abbrev pub keys : Assoc V → List String
  keys [] = []
  keys ((this, found) ∷ rest) = this ∷ keys rest

  abbrev pub values : Assoc V → List V
  values [] = []
  values ((this, found) ∷ rest) = found ∷ values rest

  -- `m.set(key, value)`
  unfoldable pub insert : String → V → Assoc V → Assoc V
  insert key value [] = (key, value) ∷ []
  insert key value ((this, found) ∷ rest) =
      if str_eq this key then (key, value) ∷ rest else (this, found) ∷ insert key value rest

  pub lookup-erase :
      (gone key : String) (m : Assoc V)
      → lookup key (erase gone m) ≡ (if str_eq gone key then none else lookup key m)
  unfolding erase lookup
  lookup-erase gone key [] = ground arith
  lookup-erase gone key ((this, found) ∷ rest) =
      ground (arith, lookup-erase gone key rest, eq_iff this gone, eq_iff this key, eq_iff gone key)

  pub lookup-insert :
      (set key : String) (value : V) (m : Assoc V)
      → lookup key (insert set value m) ≡ (if str_eq set key then some value else lookup key m)
  unfolding insert lookup
  lookup-insert set key value [] = refl
  lookup-insert set key value ((this, found) ∷ rest) =
      ground
        (arith, lookup-insert set key value rest, eq_iff this set, eq_iff this key, eq_iff set key)

  -- `for (const [key, v] of m) if (p(v)) m.delete(key)`
  unfoldable pub drop_where : (V → Bool) → Assoc V → Assoc V
  drop_where p [] = []
  drop_where p ((this, found) ∷ rest) =
      let shorter = drop_where p rest in if p found then shorter else (this, found) ∷ shorter

  -- `for (const [key, v] of m) if (p(v)) m.set(key, f(v))`
  unfoldable pub map_where : (V → Bool) → (V → V) → Assoc V → Assoc V
  map_where p f [] = []
  map_where p f ((this, found) ∷ rest) =
      let later = map_where p f rest in
      if p found then (this, f found) ∷ later else (this, found) ∷ later

  pub lookup-drop_where :
      (p : V → Bool) (key : String) (v : V) (m : Assoc V)
      → lookup key (drop_where p m) ≡ some v
      → p v ≡ false
  unfolding lookup drop_where
  lookup-drop_where p key v [] h = ground (arith, h)
  lookup-drop_where p key v ((this, found) ∷ rest) h =
      ground (arith, h, lookup-drop_where p key v rest)

  pub lookup-drop_where_kept :
      (p : V → Bool) (key : String) (v : V) (m : Assoc V)
      → lookup key m ≡ some v
      → p v ≡ false
      → lookup key (drop_where p m) ≡ some v
  unfolding lookup drop_where
  lookup-drop_where_kept p key v [] h kept = ground (arith, h)
  lookup-drop_where_kept p key v ((this, found) ∷ rest) h kept =
      ground (arith, h, kept, lookup-drop_where_kept p key v rest)

  pub lookup-map_where :
      (p : V → Bool) (f : V → V) (key : String) (v : V) (m : Assoc V)
      → lookup key (map_where p f m) ≡ some v
      → (u : V) × (lookup key m ≡ some u) × (v ≡ (if p u then f u else u))
  unfolding lookup map_where
  lookup-map_where p f key v [] h = absurd (ground (arith, h))
  lookup-map_where p f key v ((this, found) ∷ rest) h = elim (Bool-cases (str_eq this key)) [
    | inl same ↦ (found, ground (arith, same), ground (arith, h, same))
    | inr other ↦
        let (u, e, changed) = lookup-map_where p f key v rest (ground (arith, h, other)) in
        (u, ground (arith, other, e), changed)
  ]
