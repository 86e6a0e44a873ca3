-- ===== src/Prelude/Table.antt =====
-- A JavaScript Map with numbers as keys, in insertion order, and objects that are reached by a handle.
use Prim.Native.Nat.{ℕ}
use mathlib.Core.Path.{◌≡◌, refl}
use mathlib.Core.Bool.{Bool, true, false}
use mathlib.Core.Option.{Option, none, some}
use mathlib.Core.List.{List, [], ◌∷◌}
use native.Mathlib.Omega.{arith}
use nexus_infra.Prelude.Tests.{◌==◌, if◌then◌else◌}

abbrev pub Table {ℓ} : Type ℓ → Type ℓ
Table V = List (ℕ × V)

module _ {ℓ} {V : Type ℓ} where
  -- `m.get(key)`
  unfoldable pub get : ℕ → Table V → Option V
  get key [] = none
  get key ((this, found) ∷ rest) = if this == key then some found else get key rest

  -- `m.has(key)`
  unfoldable pub has : ℕ → Table V → Bool
  has key [] = false
  has key ((this, found) ∷ rest) = if this == key then true else has key rest

  -- `m.delete(key)`
  unfoldable pub remove : ℕ → Table V → Table V
  remove key [] = []
  remove key ((this, found) ∷ rest) =
      let shorter = remove key rest in if this == key then shorter else (this, found) ∷ shorter

  -- `m.set(key, value)`
  unfoldable pub put : ℕ → V → Table V → Table V
  put key value [] = (key, value) ∷ []
  put key value ((this, found) ∷ rest) =
      if this == key then (key, value) ∷ rest else (this, found) ∷ put key value rest

  pub get-remove :
      (gone key : ℕ) (m : Table V)
      → get key (remove gone m) ≡ (if gone == key then none else get key m)
  unfolding get remove
  get-remove gone key [] = ground arith
  get-remove gone key ((this, found) ∷ rest) = ground (arith, get-remove gone key rest)

  pub get-put :
      (set key : ℕ) (value : V) (m : Table V)
      → get key (put set value m) ≡ (if set == key then some value else get key m)
  unfolding get put
  get-put set key value [] = refl
  get-put set key value ((this, found) ∷ rest) = ground (arith, get-put set key value rest)

  pub has-get : (key : ℕ) (m : Table V) → has key m ≡ false → get key m ≡ none
  unfolding get has
  has-get key [] h = refl
  has-get key ((this, found) ∷ rest) h = ground (arith, has-get key rest)

  -- The object at a handle is replaced.
  unfoldable pub set_at : ℕ → V → (ℕ → V) → ℕ → V
  set_at handle value objects k = if k == handle then value else objects k
