-- ===== src/Orchestrator/Access/Roles.antt =====
-- What the roles promise: each includes the ones below it, and sharing never hands out ownership
-- (services/orchestrator/src/access.ts).
use nexus_infra.Prelude.{
  ℕ, suc, ◌≤◌, max, String, ◌≡◌, refl, ◌⊎◌, Bool, true, false, Option, none, some, inl, inr, List,
  [], ◌∷◌, ◌++◌, arith, str_eq, eq_iff, Bool-cases, any,
}
use nexus_infra.Orchestrator.Access.{
  Role, Permission, server_delete, role_name, rank, can, role_permissions, viewer_permissions,
  operator_permissions, admin_permissions, owner_permissions, same_permission, grantable_role,
  stronger, strongest_from, strongest_role, AccessInput, administers, resolve_role, permission_name,
}

any-append :
    {A : Type 0} (p : A → Bool) (xs ys : List A) → any p xs ≡ true → any p (xs ++ ys) ≡ true
any-append p [] ys h = ground (arith, h)
any-append p (x ∷ xs) ys h = ground (arith, any-append p xs ys)

abbrev Tier : Role → Role → Type 0
Tier a b = (p : Permission) → can (some a) p ≡ true → can (some b) p ≡ true

viewer_operator : Tier Role.viewer Role.operator
unfolding can role_permissions operator_permissions
viewer_operator p = any-append (same_permission p) viewer_permissions _

operator_admin : Tier Role.operator Role.admin
unfolding can role_permissions admin_permissions
operator_admin p = any-append (same_permission p) operator_permissions _

admin_owner : Tier Role.admin Role.owner
unfolding can role_permissions owner_permissions
admin_owner p = any-append (same_permission p) admin_permissions _

-- A role may do everything that a role of no higher rank may do.
pub can_monotone :
    (weak strong : Role) (p : Permission)
    → rank weak ≤ rank strong
    → can (some weak) p ≡ true
    → can (some strong) p ≡ true
unfolding rank
can_monotone Role.viewer Role.viewer p le h = h
can_monotone Role.viewer Role.operator p le h = viewer_operator p h
can_monotone Role.viewer Role.admin p le h = operator_admin p (viewer_operator p h)
can_monotone Role.viewer Role.owner p le h = admin_owner p (operator_admin p (viewer_operator p h))
can_monotone Role.operator Role.operator p le h = h
can_monotone Role.operator Role.admin p le h = operator_admin p h
can_monotone Role.operator Role.owner p le h = admin_owner p (operator_admin p h)
can_monotone Role.admin Role.admin p le h = h
can_monotone Role.admin Role.owner p le h = admin_owner p h
can_monotone Role.owner Role.owner p le h = h
can_monotone a b p le h = ground (arith, le)

-- The rank of the best role, where no role at all is below every role.
abbrev pub height : Option Role → ℕ
height none = 0
height (some r) = suc (rank r)

stronger-max :
    (best role : Option Role) → height (stronger best role) ≡ max (height best) (height role)
unfolding stronger
stronger-max none none = refl
stronger-max none (some r) = ground arith
stronger-max (some b) none = ground arith
stronger-max (some b) (some r) = ground arith

pub grantable-below : (value : Option String) → height (grantable_role value) ≤ 3
unfolding grantable_role rank role_name
grantable-below none = ground arith
grantable-below (some v) = ground arith

-- The greatest of the ranks of several grants.
abbrev pub highest : List (Option Role) → ℕ
highest [] = 0
highest (role ∷ rest) = max (height role) (highest rest)

strongest_from-height :
    (best : Option Role) (given : List (Option Role))
    → height (strongest_from best given) ≡ max (height best) (highest given)
unfolding strongest_from
strongest_from-height best [] = omega arith
strongest_from-height best (role ∷ rest) =
    omega (arith, strongest_from-height (stronger best role) rest, stronger-max best role)

-- Of several grants the strongest role wins: its rank is the greatest of theirs, in any order.
pub strongest_role-height :
    (given : List (Option Role)) → height (strongest_role given) ≡ highest given
unfolding strongest_role
strongest_role-height given = omega (arith, strongest_from-height none given)

pub cannot_delete : (role : Option Role) → height role ≤ 3 → can role server_delete ≡ false
unfolding can role_permissions viewer_permissions operator_permissions admin_permissions
    owner_permissions same_permission permission_name rank
cannot_delete none h = refl
cannot_delete (some Role.viewer) h = refl
cannot_delete (some Role.operator) h = refl
cannot_delete (some Role.admin) h = refl
cannot_delete (some Role.owner) h = ground (arith, h)

shared_cannot_delete :
    (grant membership : Option String)
    → can (strongest_role (grantable_role grant ∷ grantable_role membership ∷ [])) server_delete
      ≡ false
shared_cannot_delete grant membership = cannot_delete _ (
    omega (
      arith,
      strongest_role-height (grantable_role grant ∷ grantable_role membership ∷ []),
      grantable-below grant,
      grantable-below membership,
    ))

-- Who may delete a server administers the installation or owns the server: no share and no
-- membership grants it, whatever role is stored with them.
pub delete_is_not_shared :
    (input : AccessInput)
    → can (resolve_role input) server_delete ≡ true
    → (administers input.platform_role ≡ true) ⊎ (input.principal_id ≡ input.owner_id)
unfolding resolve_role
delete_is_not_shared input h = elim (Bool-cases (administers input.platform_role)) [
  | inl a ↦ inl a
  | inr a ↦ elim (Bool-cases (str_eq input.principal_id input.owner_id)) [
    | inl o ↦ inr (ground (arith, o, eq_iff input.principal_id input.owner_id))
    | inr o ↦ ground (arith, a, o, h, shared_cannot_delete input.grant input.membership)
  ]
]
