-- ===== src/Billing/Repository/Ledger.antt =====
-- The ledger of billing: entries are only appended and moved, and final ones stay as they are
-- (services/billing-bridge/src/repository.ts).
use mathlib.Core.Option
use nexus_infra.Prelude.{
  ℕ, String, ◌≡◌, refl, ◌∙◌, ◌⊎◌, inl, inr, Bool, true, false, Option, none, some, List, [], ◌∷◌,
  ◌++◌, arith, str_eq, eq_iff, if◌then◌else◌, Bool-cases, find, any,
}
use nexus_infra.Billing.Types.{
  CreditLedgerEntry, CreateLedgerInput, LedgerStatus, pending, confirmed, failed, expired,
  same_status,
}
use nexus_infra.Billing.Repository.{
  Repo, update_first, has_id, moved, may_move, create_ledger_entry, get_ledger_by_reference,
  transition_ledger_status,
}

abbrev pub is_final : LedgerStatus → Bool
is_final confirmed = true
is_final failed = true
is_final _ = false

pub find-append {ℓ} :
    {A : Type ℓ} (p : A → Bool) (xs ys : List A) (a : A)
    → find p xs ≡ some a
    → find p (xs ++ ys) ≡ some a
find-append p [] ys a h = cc
find-append p (x ∷ xs) ys a h = ground (arith, find-append p xs ys a)

module _ {Num : Type 0} where
  pub find_id-update_first :
      (id j : String) (to : LedgerStatus) (reason : Option String)
      (l : List (CreditLedgerEntry Num))
      → find (has_id id) (update_first (has_id j) (moved to reason) l) ≡ (
          if str_eq j id
          then Option.map (moved to reason) (find (has_id id) l)
          else find (has_id id) l)
  unfolding update_first
  find_id-update_first id j to reason [] = ground arith
  find_id-update_first id j to none (e ∷ l) =
      ground
        (arith, eq_iff e.id j, eq_iff e.id id, eq_iff j id, find_id-update_first id j to none l)
  find_id-update_first id j to (some why) (e ∷ l) =
      ground (
        arith,
        eq_iff e.id j,
        eq_iff e.id id,
        eq_iff j id,
        find_id-update_first id j to (some why) l,
      )

  -- Every entry that is confirmed or failed is found as it was.
  pub record KeepsFinal (r r' : Repo Num) : Type 0 where
    pub found :
        (id : String) (e : CreditLedgerEntry Num)
        → find (has_id id) r.ledger ≡ some e
        → is_final e.status ≡ true
        → find (has_id id) r'.ledger ≡ some e

  pub KeepsFinal-of_eq : {r r' : Repo Num} → r'.ledger ≡ r.ledger → KeepsFinal r r'
  KeepsFinal-of_eq same = record { found = λ id e h final. rw same h }

  pub KeepsFinal-trans : (a b c : Repo Num) → KeepsFinal a b → KeepsFinal b c → KeepsFinal a c
  KeepsFinal-trans a b c h k = record {
    found = λ id e here final. k.found id e (h.found id e here final) final;
  }

  pub create_ledger_entry-KeepsFinal :
      (id : String) (now : ℕ) (input : CreateLedgerInput Num) (r : Repo Num)
      → KeepsFinal r (create_ledger_entry id now input r)
  unfolding create_ledger_entry
  create_ledger_entry-KeepsFinal id now input r = record {
    found = λ j e here final. find-append (has_id j) r.ledger _ e here;
  }

  -- A list of statuses without the final ones lets no final entry move.
  may_move_final :
      (from : List LedgerStatus) (e : CreditLedgerEntry Num)
      → any (λ s. same_status s confirmed) from ≡ false
      → any (λ s. same_status s failed) from ≡ false
      → is_final e.status ≡ true
      → may_move from (some e) ≡ false
  may_move_final from e c f final = by_status e.status final c f
    where
      by_status :
          (s : LedgerStatus)
          → is_final s ≡ true
          → any (λ t. same_status t confirmed) from ≡ false
          → any (λ t. same_status t failed) from ≡ false
          → any (λ t. same_status t s) from ≡ false
      by_status pending h c f = cc
      by_status confirmed h c f = c
      by_status failed h c f = f
      by_status expired h c f = cc

  pub transition-KeepsFinal :
      (id : String) (from : List LedgerStatus) (to : LedgerStatus) (reason : Option String)
      (r : Repo Num)
      → any (λ s. same_status s confirmed) from ≡ false
      → any (λ s. same_status s failed) from ≡ false
      → KeepsFinal r (transition_ledger_status id from to reason r).1
  unfolding transition_ledger_status
  transition-KeepsFinal id from to reason r c f = record {
    found = λ j e here final. ground (
      arith,
      may_move_final from e c f final,
      find_id-update_first j id to reason r.ledger,
      eq_iff id j,
    );
  }

  -- What identifies an entry and says what it is worth never changes.
  pub record SameTopUp (e e' : CreditLedgerEntry Num) : Type 0 where
    pub same_id : e'.id ≡ e.id
    pub same_user : e'.user_id ≡ e.user_id
    pub same_kind : e'.kind ≡ e.kind
    pub same_amount : e'.amount ≡ e.amount

  pub record KeepsReferences (r r' : Repo Num) : Type 0 where
    pub found :
        (reference : String) (e : CreditLedgerEntry Num)
        → get_ledger_by_reference reference r ≡ some e
        → (e' : CreditLedgerEntry Num) × (get_ledger_by_reference reference r' ≡ some e')
          × SameTopUp e e'

  pub KeepsReferences-of_eq : {r r' : Repo Num} → r'.ledger ≡ r.ledger → KeepsReferences r r'
  unfolding get_ledger_by_reference
  KeepsReferences-of_eq same = record {
    found = λ reference e h. (
      e,
      rw same h,
      record { same_id = refl; same_user = refl; same_kind = refl; same_amount = refl },
    );
  }

  pub KeepsReferences-trans :
      (a b c : Repo Num) → KeepsReferences a b → KeepsReferences b c → KeepsReferences a c
  KeepsReferences-trans a b c h k = record {
    found = λ reference e here.
        let (e1, at_b, s1) = h.found reference e here in
        let (e2, at_c, s2) = k.found reference e1 at_b in
        (
          e2,
          at_c,
          record {
            same_id = s2.same_id ∙ s1.same_id;
            same_user = s2.same_user ∙ s1.same_user;
            same_kind = s2.same_kind ∙ s1.same_kind;
            same_amount = s2.same_amount ∙ s1.same_amount;
          },
        );
  }

  pub create_ledger_entry-KeepsReferences :
      (id : String) (now : ℕ) (input : CreateLedgerInput Num) (r : Repo Num)
      → KeepsReferences r (create_ledger_entry id now input r)
  unfolding create_ledger_entry get_ledger_by_reference
  create_ledger_entry-KeepsReferences id now input r = record {
    found = λ reference e here. (
      e,
      find-append _ r.ledger _ e here,
      record { same_id = refl; same_user = refl; same_kind = refl; same_amount = refl },
    );
  }

  find_reference-update_first :
      (reference j : String) (to : LedgerStatus) (reason : Option String)
      (l : List (CreditLedgerEntry Num)) (e : CreditLedgerEntry Num)
      → find (λ x. str_eq x.reference reference) l ≡ some e
      → (find (λ x. str_eq x.reference reference) (update_first (has_id j) (moved to reason) l)
          ≡ some e)
        ⊎ (find (λ x. str_eq x.reference reference) (update_first (has_id j) (moved to reason) l)
            ≡ some (moved to reason e))
  unfolding update_first
  find_reference-update_first reference j to reason [] e h = cc
  find_reference-update_first reference j to none (x ∷ l) e h =
      ground (arith, find_reference-update_first reference j to none l e)
  find_reference-update_first reference j to (some why) (x ∷ l) e h =
      ground (arith, find_reference-update_first reference j to (some why) l e)

  moved-SameTopUp :
      (to : LedgerStatus) (reason : Option String) (e : CreditLedgerEntry Num)
      → SameTopUp e (moved to reason e)
  moved-SameTopUp to none e = record {
    same_id = refl;
    same_user = refl;
    same_kind = refl;
    same_amount = refl;
  }
  moved-SameTopUp to (some why) e = record {
    same_id = refl;
    same_user = refl;
    same_kind = refl;
    same_amount = refl;
  }

  pub transition-KeepsReferences :
      (id : String) (from : List LedgerStatus) (to : LedgerStatus) (reason : Option String)
      (r : Repo Num)
      → KeepsReferences r (transition_ledger_status id from to reason r).1
  unfolding transition_ledger_status get_ledger_by_reference
  transition-KeepsReferences id from to reason r =
      elim (Bool-cases (may_move from (find (has_id id) r.ledger))) [
        | inr stays ↦ rw (stays, transition_ledger_status) (KeepsReferences-of_eq refl)
        | inl moves ↦
            rw (moves, transition_ledger_status)
              (record {
                found = λ reference e here.
                    elim (find_reference-update_first reference id to reason r.ledger e here) [
                      | inl same ↦ (
                        e,
                        same,
                        record {
                          same_id = refl;
                          same_user = refl;
                          same_kind = refl;
                          same_amount = refl;
                        },
                      )
                      | inr changed ↦ (moved to reason e, changed, moved-SameTopUp to reason e)
                    ];
              })
      ]
