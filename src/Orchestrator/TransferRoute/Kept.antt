-- ===== src/Orchestrator/TransferRoute/Kept.antt =====
-- The share that a transfer leaves to the previous owner (services/orchestrator/src/transfer.ts and
-- repository.ts).
use nexus_infra.Prelude.{
  ℕ, String, ◌≡◌, refl, true, false, Option, none, some, arith, Bool-cases, Option-cases, inl, inr,
}
use nexus_infra.Orchestrator.Access.{Role, role_name}
use nexus_infra.Orchestrator.Transfer.{
  Account, TransferPlan, planned, TransferInput, keeps, kept_role, already_owns, retained,
  plan_transfer,
}
use nexus_infra.Orchestrator.Transfer.Handover.{kept_role-role_given}
use nexus_infra.Orchestrator.Store.Rows.{
  UserRecord, CreateServerSubuserInput, ServerSubuserRecord, Store,
}
use nexus_infra.Orchestrator.Store.Shares.{get_subuser_for, share_row, create_subuser, retain_share}
use nexus_infra.Orchestrator.Store.Shares.Handed.{IsKeyed, get_subuser_for-create_subuser}

-- The account's share of the server is active and has the role.
abbrev pub HoldsRole : String → UserRecord → Role → Store → Type 0
HoldsRole deployment_id user role s =
    (row : ServerSubuserRecord) × (get_subuser_for deployment_id user.email s ≡ some row)
    × (row.user_id ≡ some user.id)
    × (row.status ≡ "active")
    × (row.role ≡ role_name role)

share_row-given :
    (id : String) (now : ℕ) (input : CreateServerSubuserInput) (found : Option ServerSubuserRecord)
    (user_id : String)
    → input.user_id ≡ some user_id
    → input.status ≡ some "active"
    → ((share_row id now input found).user_id ≡ some user_id)
      × ((share_row id now input found).status ≡ "active")
      × ((share_row id now input found).role ≡ input.role)
unfolding share_row
share_row-given id now input none user_id u t = (u, ground (arith, t), refl)
share_row-given id now input (some existing) user_id u t =
    (ground (arith, u), ground (arith, t), refl)

pub retain_share-HoldsRole :
    (id : String) (now : ℕ) (deployment_id : String) (user : UserRecord) (role : Role) (s : Store)
    → IsKeyed s.subusers
    → HoldsRole deployment_id user role (
        retain_share id now deployment_id
          (some (record { email = user.email; user_id = user.id; role = role_name role }))
          s)
unfolding retain_share create_subuser
retain_share-HoldsRole id now deployment_id user role s keyed =
    let input : CreateServerSubuserInput = record {
      deployment_id = deployment_id;
      email = user.email;
      role = role_name role;
      user_id = some user.id;
      status = some "active";
    } in
    let (u, t, r) =
      share_row-given id now input (get_subuser_for deployment_id user.email s) user.id refl refl in
    (
      (create_subuser id now input s).1,
      get_subuser_for-create_subuser id now input s keyed,
      u,
      t,
      r,
    )

-- A plan that keeps a role for the previous owner.
pub record KeepsRole (input : TransferInput) (plan : TransferPlan) : Type 0 where
  pub owner : Account
  pub role : Role
  pub owned : input.current_owner ≡ some owner
  pub asked : kept_role input.retain_role ≡ some role
  pub share :
      plan.retained_share
      ≡ some (record { email = owner.email; user_id = owner.id; role = role_name role })
  pub moved : plan.new_owner_id ≡ input.new_owner.id

pub plan_transfer-KeepsRole :
    (input : TransferInput) (plan : TransferPlan)
    → plan_transfer input ≡ planned plan
    → keeps input.retain_role ≡ true
    → KeepsRole input plan
unfolding plan_transfer retained
plan_transfer-KeepsRole input plan h kept =
    let fresh : already_owns input.current_owner input.new_owner ≡ false =
      elim (Bool-cases (already_owns input.current_owner input.new_owner)) [
        | inr other ↦ other
        | inl own ↦ absurd (ground (arith, h, own))
      ] in
    elim (Option-cases (kept_role input.retain_role)) [
      | inl bad ↦ absurd (ground (arith, h, fresh, kept, bad))
      | inr (role, asked) ↦
          let named = kept_role-role_given input.retain_role role asked in
          elim (Option-cases input.current_owner) [
            | inl gone ↦ absurd (ground (arith, h, fresh, kept, asked, gone))
            | inr (owner, owned) ↦ record {
              owner = owner;
              role = role;
              owned = owned;
              asked = asked;
              share = ground (arith, h, fresh, kept, asked, owned, named);
              moved = ground (arith, h, fresh, kept, asked, owned);
            }
          ]
    ]
