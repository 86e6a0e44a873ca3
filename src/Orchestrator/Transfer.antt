-- ===== src/Orchestrator/Transfer.antt =====
-- Handing a server to another account (services/orchestrator/src/transfer.ts).
pub mod Handover
use nexus_infra.Prelude.{
  ℕ, String, Bool, true, false, Option, none, some, [], ◌∷◌, ◌&&◌, not, str_eq, if◌then◌else◌,
  concat, is_none,
}
use nexus_infra.Orchestrator.Access.{Role, grantable_role}

pub record Account : Type 0 where
  pub id : String
  pub email : String

pub record RetainedShare : Type 0 where
  pub email : String
  pub user_id : String
  pub role : String

pub record TransferPlan : Type 0 where
  pub new_owner_id : String
  pub retained_share : Option RetainedShare
  pub drop_share_id : Option String
  pub audit_message : String

pub data TransferResult : Type 0 where
  planned : (plan : TransferPlan) → TransferResult
  refused : (status : ℕ) (error : String) → TransferResult

-- What the request body asks to keep: nothing, a text, or a value of another type.
pub data RetainRole : Type 0 where
  absent : RetainRole
  text : String → RetainRole
  other : RetainRole

pub record TransferInput : Type 0 where
  pub current_owner : Option Account
  pub new_owner : Account
  pub retain_role : RetainRole
  pub existing_share_for_new_owner : Option String

unfoldable pub keeps : RetainRole → Bool
keeps absent = false
keeps (text value) = not (str_eq value "")
keeps other = true

-- The role the body asks to keep, when it is one that can be granted.
unfoldable pub kept_role : RetainRole → Option Role
kept_role absent = none
kept_role (text value) = grantable_role (some value)
kept_role other = none

unfoldable pub already_owns : Option Account → Account → Bool
already_owns none new_owner = false
already_owns (some owner) new_owner = str_eq owner.id new_owner.id

unfoldable pub owner_text : Option Account → String
owner_text none = "an account that no longer exists"
owner_text (some owner) = owner.email

unfoldable pub kept_text : Option RetainedShare → String
kept_text none = "previous owner lost access"
kept_text (some share) = concat ("previous owner kept " ∷ share.role ∷ [])

-- `retainRole as GrantableRole`; a value that is no text does not get that far.
unfoldable pub role_given : RetainRole → String
role_given absent = ""
role_given (text value) = value
role_given other = ""

unfoldable pub retained : Bool → Option Account → RetainRole → Option RetainedShare
retained true (some owner) wanted =
    some (record { email = owner.email; user_id = owner.id; role = role_given wanted })
retained true none wanted = none
retained false owner wanted = none

unfoldable pub plan_transfer : TransferInput → TransferResult
plan_transfer input =
    let kept = keeps input.retain_role in
    let role = kept_role input.retain_role in
    let share = retained kept input.current_owner input.retain_role in
    if already_owns input.current_owner input.new_owner
    then refused 400 "that account already owns this server"
    else if kept && is_none role
    then refused 400 "retainRole must be admin, operator, viewer or null"
    else if kept && is_none input.current_owner
    then refused 409 "the previous owner no longer has an account to keep a role on"
    else planned (record {
      new_owner_id = input.new_owner.id;
      retained_share = share;
      drop_share_id = input.existing_share_for_new_owner;
      audit_message = concat (
          "ownership transferred from "
          ∷ owner_text input.current_owner
          ∷ " to "
          ∷ input.new_owner.email
          ∷ "; "
          ∷ kept_text share
          ∷ []);
    })
