-- ===== src/Dispatch/Writes.antt =====
-- The writes to the store that end_of_line/dispatch.py makes under a claim that holds.
use end_of_line.Shared.{
  ℕ, String, none, some, List, [], ◌∷◌, Bool, true, ◌≡◌, ap, ◌∙◌, refl, arith, inl, inr, ok, lookup,
  string_eq, Result-cases,
}
use end_of_line.State.{Claim, Event, paused, option_text_eq}
use end_of_line.State.Slug.{validate_slug}
use end_of_line.Store.{Row, Db}
use end_of_line.Store.Fields.{ClaimField, write_fields, write_field}
use end_of_line.Store.Transaction.Isolation.{plan_txn-ok}
use end_of_line.Store.Transaction.{plan_txn, match_claim, release_in_txn, finish, insert_events}
use end_of_line.Store.ClaimOps.{op_stamp_claim_fields, stamp_body}
use end_of_line.Store.PlanOps.{op_set_status, set_status_body, release_if_asked}

-- The plan's row has no claim.
abbrev pub IsFree : String → Db → Type 0
IsFree slug db = (row : Row) × ((lookup slug db.plans ≡ some row) × (row.plan.current_claim ≡ none))

-- The plan's claim is this worker's, with a process.
abbrev pub IsManned : String → Db → Type 0
IsManned slug db =
    (row : Row) × ((c : Claim) × ((pid : ℕ) × ((lookup slug db.plans ≡ some row)
          × (row.plan.current_claim ≡ some c)
          × (c.pid ≡ some pid)
          × (c.pgid ≡ some pid))))

abbrev pid_fields : ℕ → String → List ClaimField
pid_fields pid path =
    ClaimField.pid (some pid) ∷ ClaimField.pgid (some pid) ∷ ClaimField.log_path (some path) ∷ []

-- A status that is set under the claim releases it.
pub op_set_status-ok :
    (slug token phase : String) (evt : Event) (db : Db) (row : Row) (c : Claim)
    → validate_slug slug ≡ true
    → lookup slug db.plans ≡ some row
    → match_claim row.plan.current_claim token (some phase) ≡ ok c
    → (u : Unit {0}) × ((db' : Db) × ((op_set_status slug paused
              (evt ∷ [])
              (some token)
              (some phase)
              db
            ≡ ok (u, db'))
          × IsFree slug db'))
unfolding op_set_status set_status_body release_if_asked release_in_txn finish insert_events
    plan_txn
op_set_status-ok slug token phase evt db row c valid found holds =
    let body = set_status_body paused (evt ∷ []) (some token) (some phase) in
    elim (Result-cases (op_set_status slug paused (evt ∷ []) (some token) (some phase) db)) [
      | inr (e, failed) ↦ absurd (ground (arith, valid, found, holds, failed))
      | inl ((u, db'), wrote) ↦
          let (old, new, there, ran, left) = plan_txn-ok slug body db db' u wrote in
          let same : old ≡ row = ground (arith, there, found) in
          let holds' : match_claim old.plan.current_claim token (some phase) ≡ ok c =
            ap (λ (r : Row). match_claim r.plan.current_claim token (some phase)) same ∙ holds in
          (u, (db', (wrote, (new, (left, ground (arith, ran, holds'))))))
    ]

-- The stamp mans the claim.
pub op_stamp_claim_fields-ok :
    (slug token phase path : String) (pid : ℕ) (db : Db) (row : Row) (c : Claim)
    → validate_slug slug ≡ true
    → lookup slug db.plans ≡ some row
    → match_claim row.plan.current_claim token (some phase) ≡ ok c
    → (b : Bool) × ((db' : Db) × ((op_stamp_claim_fields slug token none
              (pid_fields pid path)
              none
              []
              db
            ≡ ok (b, db'))
          × IsManned slug db'))
unfolding op_stamp_claim_fields stamp_body finish insert_events plan_txn match_claim write_fields
    write_field
op_stamp_claim_fields-ok slug token phase path pid db row c valid found holds =
    let body = stamp_body token none (pid_fields pid path) none [] in
    elim (Result-cases (op_stamp_claim_fields slug token none (pid_fields pid path) none [] db)) [
      | inr (e, failed) ↦ absurd (ground (arith, valid, found, holds, failed))
      | inl ((b, db'), wrote) ↦
          let (old, new, there, ran, left) = plan_txn-ok slug body db db' b wrote in
          let same : old ≡ row = ground (arith, there, found) in
          let claim : Claim = write_fields (pid_fields pid path) c in
          let manned : new.plan.current_claim ≡ some claim =
            ground (arith, ran, holds, ap (λ (r : Row). r.plan.current_claim) same) in
          (b, (db', (wrote, (new, (claim, (pid, (left, manned, refl, refl)))))))
    ]
