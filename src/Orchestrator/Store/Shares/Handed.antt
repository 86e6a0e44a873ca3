-- ===== src/Orchestrator/Store/Shares/Handed.antt =====
-- A share that is written is the one that is found (services/orchestrator/src/repository.ts).
use nexus_infra.Prelude.{
  ℕ, String, ◌≡◌, refl, Bool, true, false, Option, none, some, [], ◌∷◌, str_eq, eq_iff, find, arith,
  Bool-cases, inl, inr,
}
use nexus_infra.Prelude.Assoc.{Assoc, insert, erase, values}
use nexus_infra.Orchestrator.Store.Rows.{ServerSubuserRecord, CreateServerSubuserInput, Store}
use nexus_infra.Orchestrator.Store.Shares.{
  is_share, get_subuser_for, share_row, create_subuser, delete_subuser, drop_share,
}

-- Each share stands under its own id.
abbrev pub IsKeyed : Assoc ServerSubuserRecord → Type 0
IsKeyed [] = Unit
IsKeyed ((key, x) ∷ m) = (x.id ≡ key) × IsKeyed m

find-insert_new :
    (p : ServerSubuserRecord → Bool) (key : String) (v : ServerSubuserRecord)
    (m : Assoc ServerSubuserRecord)
    → p v ≡ true
    → find p (values m) ≡ none
    → find p (values (insert key v m)) ≡ some v
unfolding insert
find-insert_new p key v [] holds h = ground (arith, holds)
find-insert_new p key v ((this, x) ∷ m) holds h =
    ground (arith, holds, h, find-insert_new p key v m)

find-insert_found :
    (p : ServerSubuserRecord → Bool) (v e : ServerSubuserRecord) (m : Assoc ServerSubuserRecord)
    → p v ≡ true
    → IsKeyed m
    → find p (values m) ≡ some e
    → find p (values (insert e.id v m)) ≡ some v
unfolding insert
find-insert_found p v e [] holds keyed h = absurd (ground (arith, h))
find-insert_found p v e ((this, x) ∷ m) holds (own, keyed) h =
    elim (Bool-cases (str_eq this e.id)) [
      | inl same ↦ ground (arith, holds, same)
      | inr other ↦
          let apart : p x ≡ false = elim (Bool-cases (p x)) [
            | inr no_match ↦ no_match
            | inl match ↦
                let it : x ≡ e = ground (arith, h, match) in
                absurd (ground (arith, other, own, it, eq_iff this e.id))
          ] in
          ground (arith, other, apart, h, find-insert_found p v e m holds keyed)
    ]

share_row-is_share :
    (id : String) (now : ℕ) (input : CreateServerSubuserInput) (found : Option ServerSubuserRecord)
    → is_share input.deployment_id input.email (share_row id now input found) ≡ true
unfolding is_share share_row
share_row-is_share id now input none =
    ground (arith, eq_iff input.deployment_id input.deployment_id, eq_iff input.email input.email)
share_row-is_share id now input (some existing) =
    ground (arith, eq_iff input.deployment_id input.deployment_id, eq_iff input.email input.email)

find-share_row :
    (id : String) (now : ℕ) (input : CreateServerSubuserInput) (found : Option ServerSubuserRecord)
    (m : Assoc ServerSubuserRecord)
    → IsKeyed m
    → find (is_share input.deployment_id input.email) (values m) ≡ found
    → find
        (is_share input.deployment_id input.email)
        (values (insert (share_row id now input found).id (share_row id now input found) m))
      ≡ some (share_row id now input found)
find-share_row id now input none m keyed e =
    find-insert_new (is_share input.deployment_id input.email) (share_row id now input none).id
      (share_row id now input none) m (share_row-is_share id now input none) e
find-share_row id now input (some existing) m keyed e =
    unfold share_row in
    find-insert_found (is_share input.deployment_id input.email)
      (share_row id now input (some existing)) existing m
      (share_row-is_share id now input (some existing)) keyed e

-- The share that an invitation or a transfer writes is the one that is found for the server and the
-- address.
pub get_subuser_for-create_subuser :
    (id : String) (now : ℕ) (input : CreateServerSubuserInput) (s : Store)
    → IsKeyed s.subusers
    → get_subuser_for input.deployment_id input.email (create_subuser id now input s).0
      ≡ some (create_subuser id now input s).1
unfolding get_subuser_for create_subuser
get_subuser_for-create_subuser id now input s keyed =
    find-share_row id now input
      (find (is_share input.deployment_id input.email) (values s.subusers)) s.subusers keyed refl

IsKeyed-erase : (gone : String) (m : Assoc ServerSubuserRecord) → IsKeyed m → IsKeyed (erase gone m)
unfolding erase
IsKeyed-erase gone [] keyed = tt
IsKeyed-erase gone ((key, x) ∷ m) (own, keyed) = elim (Bool-cases (str_eq key gone)) [
  | inl this ↦ rw (this, erase) (IsKeyed-erase gone m keyed)
  | inr other ↦ rw (other, erase) (own, IsKeyed-erase gone m keyed)
]

pub drop_share-IsKeyed :
    (dropped : Option String) (s : Store)
    → IsKeyed s.subusers
    → IsKeyed (drop_share dropped s).subusers
unfolding drop_share delete_subuser
drop_share-IsKeyed none s keyed = keyed
drop_share-IsKeyed (some id) s keyed = elim (Bool-cases (str_eq id "")) [
  | inl absent ↦ rw (absent, drop_share) keyed
  | inr given ↦ rw (given, drop_share) (IsKeyed-erase id s.subusers keyed)
]
