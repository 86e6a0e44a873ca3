-- ===== src/Orchestrator/Transfer/Handover.antt =====
-- The role that a transfer leaves the previous owner (services/orchestrator/src/transfer.ts).
use nexus_infra.Prelude.{
  ◌≡◌, refl, Bool, true, false, some, List, [], ◌∷◌, find, arith, eq_iff, str_eq, Bool-cases, inl,
  inr,
}
use nexus_infra.Orchestrator.Access.{
  Role, role_name, grantable_roles, server_delete, can, grantable_role,
}
use nexus_infra.Orchestrator.Access.Roles.{grantable-below, cannot_delete}
use nexus_infra.Orchestrator.Transfer.{RetainRole, absent, text, other, kept_role, role_given}

pub kept_role-cannot : (wanted : RetainRole) → can (kept_role wanted) server_delete ≡ false
unfolding kept_role can
kept_role-cannot absent = refl
kept_role-cannot (text value) =
    cannot_delete (grantable_role (some value)) (grantable-below (some value))
kept_role-cannot other = refl

find-holds :
    (p : Role → Bool) (roles : List Role) (role : Role) → find p roles ≡ some role → p role ≡ true
find-holds p [] role h = absurd (ground (arith, h))
find-holds p (r ∷ roles) role h = elim (Bool-cases (p r)) [
  | inl met ↦ ground (arith, h, met)
  | inr unmet ↦ find-holds p roles role (ground (arith, h, unmet))
]

pub kept_role-role_given :
    (wanted : RetainRole) (role : Role)
    → kept_role wanted ≡ some role
    → role_given wanted ≡ role_name role
unfolding kept_role role_given grantable_role
kept_role-role_given absent role h = absurd (ground (arith, h))
kept_role-role_given other role h = absurd (ground (arith, h))
kept_role-role_given (text value) role h =
    let same = find-holds (λ r. str_eq (role_name r) value) grantable_roles role h in
    ground (arith, same, eq_iff (role_name role) value)
