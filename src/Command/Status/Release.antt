-- ===== src/Command/Status/Release.antt =====
-- What a release of the claim by the operator does, whatever other processes wrote between the
-- snapshot and the write.
use end_of_line.Shared.{
  ℕ, String, Option, none, some, List, ◌++◌, Bool, true, not, ◌≡◌, ◌⊎◌, ◌&&◌, ap, ◌∙◌, arith, inl,
  inr, ok, lookup, string_eq, ◌==◌, Bool-cases, Option-cases, Result-cases,
}
use end_of_line.State.{Plan, Claim, Event, running, status_eq}
use end_of_line.Store.{Row, Db, stamp_events}
use end_of_line.Store.Transaction.{finish, insert_events, release_in_txn}
use end_of_line.Store.Transaction.Isolation.{plan_txn-ok}
use end_of_line.Store.ClaimOps.{op_release_claim, release_body}
use end_of_line.Store.PlanOps.{snapshot}
use end_of_line.Command.{Outcome, claim_is_stalled}
use end_of_line.Command.Status.{cmd_release_claim, release_events}

-- A claim that the command may take from its worker without being forced to.
abbrev pub is_takeable : ℕ → Bool → Plan → Claim → Bool
is_takeable now force seen claim =
    not (seen.status == running && not (claim_is_stalled now seen claim) && not force)

-- The conclusion of `cmd_release_claim_lem`.
abbrev pub IsForcedRelease :
    ℕ → String → Bool → Option String → Bool → Option String → Bool → Plan → Db → Outcome → Type 0
IsForcedRelease now slug force reason reset signaled mismatch seen current o =
    (o.db ≡ current)
    ⊎ ((claim : Claim) × ((row : Row) × ((row' : Row) × ((seen.current_claim ≡ some claim)
              × (is_takeable now force seen claim ≡ true)
              × (lookup slug current.plans ≡ some row)
              × (lookup slug o.db.plans ≡ some row')
              × (row'.plan.current_claim ≡ none)
              × (row'.plan.status ≡ row.plan.status)
              × (row'.plan.events
                  ≡ row.plan.events
                    ++ stamp_events current.event_seq
                        (release_events now claim force reason signaled mismatch reset))))))

op_release_claim-steps :
    (slug : String) (events : List Event) (db db' : Db) (c : Option Claim)
    → op_release_claim slug none none events db ≡ ok (c, db')
    → (row : Row) × ((row' : Row) × ((lookup slug db.plans ≡ some row)
          × (lookup slug db'.plans ≡ some row')
          × (row'.plan.current_claim ≡ none)
          × (row'.plan.status ≡ row.plan.status)
          × (row'.plan.events ≡ row.plan.events ++ stamp_events db.event_seq events)))
unfolding op_release_claim release_body release_in_txn finish insert_events
op_release_claim-steps slug events db db' c h =
    let (row, row', found, ran, left) =
      plan_txn-ok slug (release_body none none events) db db' c h in
    (row, (row', (found, left, ground (arith, ran), ground (arith, ran), ground (arith, ran))))

-- A release by the operator: either nothing is written, or the snapshot showed a claim that is
-- stalled, of a plan that does not run, or the release is forced; and then the plan has no claim
-- any more, whoever held it when the write ran, its status is as it was, and the log has the
-- events that name the claim of the snapshot behind it.
pub cmd_release_claim_lem :
    (now : ℕ) (coolant : Bool) (slug : String) (force : Bool) (reason : Option String)
    (reset : Bool) (signaled : Option String) (mismatch : Bool) (seen : Plan) (before current : Db)
    (o : Outcome)
    → snapshot slug before ≡ ok seen
    → cmd_release_claim now coolant slug force reason reset signaled mismatch before current ≡ ok o
    → IsForcedRelease now slug force reason reset signaled mismatch seen current o
unfolding cmd_release_claim
cmd_release_claim_lem now coolant slug force reason reset signaled mismatch seen before current o
      saw h =
    elim (Option-cases seen.current_claim) [
      | inl gone ↦ inl (ground (arith, saw, gone, h))
      | inr (claim, held) ↦ elim (Bool-cases (is_takeable now force seen claim)) [
        | inr fresh ↦ inl (ground (arith, saw, held, fresh, h))
        | inl take ↦
            let events = release_events now claim force reason signaled mismatch reset in
            elim (Result-cases (op_release_claim slug none none events current)) [
              | inr (e, failed) ↦ absurd (ground (arith, saw, held, take, failed, h))
              | inl ((c, db'), wrote) ↦
                  let here : o.db ≡ db' = ground (arith, saw, held, take, wrote, h) in
                  let (row, (row', (found, left, free, status, log))) =
                    op_release_claim-steps slug events current db' c wrote in
                  inr (
                    claim,
                    (
                      row,
                      (
                        row',
                        (
                          held,
                          take,
                          found,
                          ap (λ d. lookup slug d.plans) here ∙ left,
                          free,
                          status,
                          log,
                        ),
                      ),
                    ),
                  )
            ]
      ]
    ]
