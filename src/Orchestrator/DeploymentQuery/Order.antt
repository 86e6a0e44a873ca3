-- ===== src/Orchestrator/DeploymentQuery/Order.antt =====
-- The order of the server list (services/orchestrator/src/deploymentQuery.ts).
use mathlib.Core.List.{Permᴰ}
use nexus_infra.Prelude.{
  ℕ, ◌<◌, String, ◌≡◌, refl, sym, ap, ◌∙◌, Bool, true, false, List, [], ◌∷◌, ◌⊎◌, inl, inr, arith,
  filter, ltb, Bool-cases, zero, suc,
}
use nexus_infra.Orchestrator.DeploymentQuery.{
  FilterableDeployment, comes_after, insert_row, sort_rows, take, drop,
}

-- What `localeCompare` documents of ids: a strict total order.
pub record IsOrder (after : String → String → Bool) : Type 0 where
  pub asym : (x y : String) → after x y ≡ true → after y x ≡ false
  pub trans : (x y z : String) → after x y ≡ true → after y z ≡ true → after x z ≡ true
  pub total : (x y : String) → after x y ≡ false → after y x ≡ false → x ≡ y

abbrev pub IsIn : FilterableDeployment → List FilterableDeployment → Type 0
IsIn row [] = ⊥
IsIn row (x ∷ xs) = (row ≡ x) ⊎ IsIn row xs

-- Rows with one id are one row.
abbrev pub OneEach : List FilterableDeployment → Type 0
OneEach rows = (a b : FilterableDeployment) → IsIn a rows → IsIn b rows → a.id ≡ b.id → a ≡ b

perm-IsIn :
    (row : FilterableDeployment) {l r : List FilterableDeployment}
    → Permᴰ l r
    → IsIn row r
    → IsIn row l
perm-IsIn row Permᴰ.nil here = here
perm-IsIn row (Permᴰ.cons e d) (inl here) = inl (here ∙ sym e)
perm-IsIn row (Permᴰ.cons e d) (inr there) = inr (perm-IsIn row d there)
perm-IsIn row (Permᴰ.swap e f) (inl here) = inr (inl (here ∙ sym f))
perm-IsIn row (Permᴰ.swap e f) (inr (inl here)) = inl (here ∙ sym e)
perm-IsIn row (Permᴰ.swap e f) (inr (inr there)) = inr (inr there)
perm-IsIn row (Permᴰ.trans d d') here = perm-IsIn row d (perm-IsIn row d' here)

module _ (fold : String → String) (after : String → String → Bool) (order : IsOrder after) where
  comes_after-asym :
      (a b : FilterableDeployment)
      → comes_after fold after a b ≡ true
      → comes_after fold after b a ≡ false
  unfolding comes_after
  comes_after-asym a b h = ground (arith, h, order.asym a.id b.id)

  comes_after_trans :
      (a b c : FilterableDeployment)
      → comes_after fold after a b ≡ true
      → comes_after fold after b c ≡ true
      → comes_after fold after a c ≡ true
  unfolding comes_after
  comes_after_trans a b c h k = ground (arith, h, k, order.trans a.id b.id c.id)

  comes_after-total :
      (a b : FilterableDeployment)
      → comes_after fold after a b ≡ false
      → comes_after fold after b a ≡ false
      → a.id ≡ b.id
  unfolding comes_after
  comes_after-total a b h k = order.total a.id b.id (ground (arith, h, k)) (ground (arith, h, k))

  abbrev placed : FilterableDeployment → List FilterableDeployment → List FilterableDeployment
  placed row rows = insert_row fold after row rows

  insert_row-later :
      (a b : FilterableDeployment) (rows : List FilterableDeployment)
      → comes_after fold after a b ≡ true
      → placed a (placed b rows) ≡ placed b (placed a rows)
  unfolding insert_row
  insert_row-later a b [] h = ground (arith, h, comes_after-asym a b h)
  insert_row-later a b (r ∷ rows) h =
      let back = comes_after-asym a b h in
      elim (Bool-cases (comes_after fold after b r)) [
        | inl past ↦
            let far = comes_after_trans a b r h past in
            ground (arith, past, far, insert_row-later a b rows h)
        | inr here ↦ elim (Bool-cases (comes_after fold after a r)) [
          | inl far ↦ ground (arith, h, here, far)
          | inr near ↦ ground (arith, h, back, here, near)
        ]
      ]

  insert_row-swap :
      (a b : FilterableDeployment) (rows : List FilterableDeployment)
      → (a.id ≡ b.id → a ≡ b)
      → placed a (placed b rows) ≡ placed b (placed a rows)
  insert_row-swap a b rows one = elim (Bool-cases (comes_after fold after a b)) [
    | inl h ↦ insert_row-later a b rows h
    | inr h ↦ elim (Bool-cases (comes_after fold after b a)) [
      | inl k ↦ sym (insert_row-later b a rows k)
      | inr k ↦ let same = one (comes_after-total a b h k) in rw same refl
    ]
  ]

  abbrev sorted :
      (FilterableDeployment → Bool) → List FilterableDeployment → List FilterableDeployment
  sorted p rows = sort_rows fold after (filter p rows)

  sorted-cons :
      (p : FilterableDeployment → Bool) (row : FilterableDeployment)
      (l r : List FilterableDeployment)
      → sorted p l ≡ sorted p r
      → sorted p (row ∷ l) ≡ sorted p (row ∷ r)
  unfolding sort_rows
  sorted-cons p row l r same = elim (Bool-cases (p row)) [
    | inl met ↦ rw met (ap (placed row) same)
    | inr unmet ↦ rw unmet same
  ]

  sorted-swap :
      (p : FilterableDeployment → Bool) (a b : FilterableDeployment) (l : List FilterableDeployment)
      → (a.id ≡ b.id → a ≡ b)
      → sorted p (a ∷ b ∷ l) ≡ sorted p (b ∷ a ∷ l)
  unfolding sort_rows
  sorted-swap p a b l one = elim (Bool-cases (p a)) [
    | inr unmet ↦ rw unmet refl
    | inl met ↦ elim (Bool-cases (p b)) [
      | inr out ↦ rw (met, out) refl
      | inl also ↦ rw (met, also) (insert_row-swap a b (sorted p l) one)
    ]
  ]

  -- The rows that match, sorted, do not go by the order in which the rows were given.
  pub sorted-perm :
      (p : FilterableDeployment → Bool) {l r : List FilterableDeployment}
      → Permᴰ l r
      → OneEach l
      → sorted p l ≡ sorted p r
  sorted-perm p Permᴰ.nil one = refl
  sorted-perm p (Permᴰ.cons {a = a} {b = b} {l₁ = l} {l₂ = r} e d) one =
      sorted-cons p a l r (sorted-perm p d (λ x y ix iy. one x y (inr ix) (inr iy)))
      ∙ ap (λ x. sorted p (x ∷ r)) e
  sorted-perm p (Permᴰ.swap {a = a} {b = b} {a' = a'} {b' = b'} {l = l} e f) one =
      sorted-swap p a b l (one a b (inl refl) (inr (inl refl)))
      ∙ ap (λ x. sorted p (x ∷ a ∷ l)) f
      ∙ ap (λ x. sorted p (a' ∷ x ∷ l)) e
  sorted-perm p (Permᴰ.trans d d') one =
      sorted-perm p d one
      ∙ sorted-perm p d' (λ x y ix iy. one x y (perm-IsIn x d ix) (perm-IsIn y d iy))

  -- The first is the newer, or of the same time and not later by its id.
  abbrev pub IsNewer : FilterableDeployment → FilterableDeployment → Type 0
  IsNewer x y =
      (y.created_at < x.created_at) ⊎ ((x.created_at ≡ y.created_at) × (after x.id y.id ≡ false))

  abbrev pub NewestFirst : List FilterableDeployment → Type 0
  NewestFirst [] = Unit
  NewestFirst (x ∷ []) = Unit
  NewestFirst (x ∷ y ∷ rows) = IsNewer x y × NewestFirst (y ∷ rows)

  not_after-IsNewer :
      (x y : FilterableDeployment) → comes_after fold after x y ≡ false → IsNewer x y
  unfolding comes_after
  not_after-IsNewer x y h = elim (Bool-cases (ltb y.created_at x.created_at)) [
    | inl newer ↦ inl (ground (arith, newer))
    | inr older ↦ inr (ground (arith, h, older), ground (arith, h, older))
  ]

  placed-NewestFirst :
      (r row : FilterableDeployment) (rows : List FilterableDeployment)
      → comes_after fold after row r ≡ true
      → NewestFirst (r ∷ rows)
      → NewestFirst (r ∷ placed row rows)
  unfolding insert_row
  placed-NewestFirst r row [] h s = (not_after-IsNewer r row (comes_after-asym row r h), tt)
  placed-NewestFirst r row (q ∷ rows) h (near, s) =
      elim (Bool-cases (comes_after fold after row q)) [
        | inl past ↦ rw past (near, placed-NewestFirst q row rows past s)
        | inr here ↦
            rw here (
              not_after-IsNewer r row (comes_after-asym row r h),
              (not_after-IsNewer row q here, s),
            )
      ]

  insert_row-NewestFirst :
      (row : FilterableDeployment) (rows : List FilterableDeployment)
      → NewestFirst rows
      → NewestFirst (placed row rows)
  unfolding insert_row
  insert_row-NewestFirst row [] s = tt
  insert_row-NewestFirst row (r ∷ rows) s = elim (Bool-cases (comes_after fold after row r)) [
    | inl past ↦ rw past (placed-NewestFirst r row rows past s)
    | inr here ↦ rw here (not_after-IsNewer row r here, s)
  ]

  pub sort_rows-NewestFirst :
      (rows : List FilterableDeployment) → NewestFirst (sort_rows fold after rows)
  unfolding sort_rows
  sort_rows-NewestFirst [] = tt
  sort_rows-NewestFirst (row ∷ rows) =
      insert_row-NewestFirst row (sort_rows fold after rows) (sort_rows-NewestFirst rows)

  NewestFirst-tail :
      (x : FilterableDeployment) (rows : List FilterableDeployment)
      → NewestFirst (x ∷ rows)
      → NewestFirst rows
  NewestFirst-tail x [] s = tt
  NewestFirst-tail x (y ∷ rows) (near, s) = s

  pub drop-NewestFirst :
      (n : ℕ) (rows : List FilterableDeployment) → NewestFirst rows → NewestFirst (drop n rows)
  unfolding drop
  drop-NewestFirst zero rows s = s
  drop-NewestFirst (suc n) [] s = tt
  drop-NewestFirst (suc n) (x ∷ rows) s = drop-NewestFirst n rows (NewestFirst-tail x rows s)

  pub take-NewestFirst :
      (n : ℕ) (rows : List FilterableDeployment) → NewestFirst rows → NewestFirst (take n rows)
  unfolding take
  take-NewestFirst zero rows s = tt
  take-NewestFirst (suc n) [] s = tt
  take-NewestFirst (suc zero) (x ∷ []) s = tt
  take-NewestFirst (suc zero) (x ∷ y ∷ rows) s = tt
  take-NewestFirst (suc (suc n)) (x ∷ []) s = tt
  take-NewestFirst (suc (suc n)) (x ∷ y ∷ rows) (near, s) =
      (near, take-NewestFirst (suc n) (y ∷ rows) s)
