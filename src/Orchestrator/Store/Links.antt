-- ===== src/Orchestrator/Store/Links.antt =====
-- Password-reset and verification links work once (services/orchestrator/src/repository.ts).
use nexus_infra.Prelude.{
  ℕ, ◌+◌, ◌≤◌, String, ◌≡◌, ◌≢◌, false, none, some, List, [], ◌∷◌, if◌then◌else◌, str_eq, eq_iff,
  arith, All, Option-cases, inl, inr,
}
use nexus_infra.Prelude.Assoc.{Assoc, lookup, insert, drop_where}
use nexus_infra.Orchestrator.Store.Rows.{LinkRecord}
use nexus_infra.Orchestrator.Store.Accounts.{is_outstanding, issue_link, consume_link}

-- How many links of an account may still be used.
unfoldable pub outstanding : String → Assoc LinkRecord → ℕ
outstanding user_id [] = 0
outstanding user_id ((hash, link) ∷ links) =
    (if is_outstanding user_id link then 1 else 0) + outstanding user_id links

-- What happens to the links of one kind.
pub data LinkUse : Type 0 where
  issues : (user_id token_hash : String) (expires_at : ℕ) → LinkUse
  consumes : (token_hash : String) (now : ℕ) → LinkUse

unfoldable pub after_use : LinkUse → Assoc LinkRecord → Assoc LinkRecord
after_use (issues user_id token_hash expires_at) links =
    issue_link user_id token_hash expires_at links
after_use (consumes token_hash now) links = (consume_link token_hash now links).0

unfoldable pub after_uses : List LinkUse → Assoc LinkRecord → Assoc LinkRecord
after_uses [] links = links
after_uses (one ∷ uses) links = after_uses uses (after_use one links)

outstanding-drop :
    (u user_id : String) (links : Assoc LinkRecord)
    → outstanding u (drop_where (is_outstanding user_id) links)
      ≡ (if str_eq user_id u then 0 else outstanding u links)
unfolding outstanding drop_where is_outstanding
outstanding-drop u user_id [] = ground arith
outstanding-drop u user_id ((hash, link) ∷ links) = ground (
  arith,
  outstanding-drop u user_id links,
  eq_iff link.user_id user_id,
  eq_iff link.user_id u,
  eq_iff user_id u,
)

outstanding-insert :
    (u key : String) (link : LinkRecord) (links : Assoc LinkRecord)
    → outstanding u (insert key link links)
      ≤ outstanding u links + (if is_outstanding u link then 1 else 0)
unfolding outstanding insert
outstanding-insert u key link [] = ground arith
outstanding-insert u key link ((hash, x) ∷ links) =
    ground (arith, outstanding-insert u key link links)

-- Using up a link that is there takes it off the count.
outstanding-spend :
    (u key : String) (at : ℕ) (link : LinkRecord) (links : Assoc LinkRecord)
    → lookup key links ≡ some link
    → outstanding u (insert key (record link { used_at = some at }) links)
        + (if is_outstanding u link then 1 else 0)
      ≡ outstanding u links
unfolding outstanding insert lookup is_outstanding
outstanding-spend u key at link [] e = absurd (ground (arith, e))
outstanding-spend u key at link ((hash, x) ∷ links) e =
    ground (arith, e, outstanding-spend u key at link links)

outstanding-issue :
    (u user_id token_hash : String) (expires_at : ℕ) (links : Assoc LinkRecord)
    → outstanding u links ≤ 1
    → outstanding u (issue_link user_id token_hash expires_at links) ≤ 1
unfolding issue_link is_outstanding
outstanding-issue u user_id token_hash expires_at links single =
    let link : LinkRecord = record { user_id = user_id; expires_at = expires_at; used_at = none } in
    ground (
      arith,
      outstanding-drop u user_id links,
      outstanding-insert u token_hash link (drop_where (is_outstanding user_id) links),
      single,
    )

outstanding-consume :
    (u token_hash : String) (now : ℕ) (links : Assoc LinkRecord)
    → outstanding u (consume_link token_hash now links).0 ≤ outstanding u links
unfolding consume_link
outstanding-consume u token_hash now links = elim (Option-cases (lookup token_hash links)) [
  | inl unknown ↦ ground (arith, unknown)
  | inr (link, found) ↦ ground (arith, found, outstanding-spend u token_hash now link links found)
]

-- A link that works is the one outstanding link of its account, and is used up by that.
outstanding-works :
    (u token_hash : String) (now : ℕ) (links : Assoc LinkRecord)
    → (consume_link token_hash now links).1 ≡ some u
    → outstanding u (consume_link token_hash now links).0 + 1 ≡ outstanding u links
unfolding consume_link is_outstanding
outstanding-works u token_hash now links works = elim (Option-cases (lookup token_hash links)) [
  | inl unknown ↦ absurd (ground (arith, works, unknown))
  | inr (link, found) ↦
      let mine : link.user_id ≡ u = ground (arith, works, found) in
      ground (
        arith,
        works,
        found,
        mine,
        eq_iff link.user_id u,
        outstanding-spend u token_hash now link links found,
      )
]

after_uses-single :
    (u : String) (uses : List LinkUse) (links : Assoc LinkRecord)
    → outstanding u links ≤ 1
    → outstanding u (after_uses uses links) ≤ 1
unfolding after_uses after_use
after_uses-single u [] links single = single
after_uses-single u (issues user_id token_hash expires_at ∷ uses) links single =
    after_uses-single u uses (issue_link user_id token_hash expires_at links)
      (outstanding-issue u user_id token_hash expires_at links single)
after_uses-single u (consumes token_hash now ∷ uses) links single =
    after_uses-single u uses (consume_link token_hash now links).0
      (omega (arith, outstanding-consume u token_hash now links, single))

-- Nothing is issued to the account.
abbrev pub NotIssued : String → LinkUse → Type 0
NotIssued u (issues user_id token_hash expires_at) = str_eq user_id u ≡ false
NotIssued u (consumes token_hash now) = Unit

after_uses-spent :
    (u : String) (uses : List LinkUse) (links : Assoc LinkRecord)
    → All (NotIssued u) uses
    → outstanding u links ≡ 0
    → outstanding u (after_uses uses links) ≡ 0
unfolding after_uses after_use issue_link is_outstanding
after_uses-spent u [] links all spent = spent
after_uses-spent u (issues user_id token_hash expires_at ∷ uses) links (other, all) spent =
    let link : LinkRecord = record { user_id = user_id; expires_at = expires_at; used_at = none } in
    after_uses-spent u uses (issue_link user_id token_hash expires_at links) all (
      ground (
        arith,
        outstanding-drop u user_id links,
        outstanding-insert u token_hash link (drop_where (is_outstanding user_id) links),
        other,
        spent,
      ))
after_uses-spent u (consumes token_hash now ∷ uses) links (_, all) spent =
    after_uses-spent u uses (consume_link token_hash now links).0 all
      (omega (arith, outstanding-consume u token_hash now links, spent))

-- Once a reset or verification link has worked for an account, whatever links had been issued to
-- whomever before: no link, that one and older ones included, works for the account again until
-- another is issued to it, whatever else is issued and tried in between.
pub works_once :
    (before later : List LinkUse) (hash again u : String) (now again_at : ℕ)
    → (consume_link hash now (after_uses before [])).1 ≡ some u
    → All (NotIssued u) later
    → (consume_link again again_at
        (after_uses later (consume_link hash now (after_uses before [])).0)).1
      ≢ some u
unfolding outstanding
works_once before later hash again u now again_at works all twice =
    let links = after_uses before [] in
    let used = (consume_link hash now links).0 in
    let single = after_uses-single u before [] (omega arith) in
    let spent : outstanding u used ≡ 0 =
      omega (arith, outstanding-works u hash now links works, single) in
    absurd (
      omega (
        arith,
        outstanding-works u again again_at (after_uses later used) twice,
        after_uses-spent u later used all spent,
      ))
