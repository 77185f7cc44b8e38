-- ===== src/Command/Deaths/Released.antt =====
-- The report of a death releases the claim that it reports, and no other.
use end_of_line.Shared.{
  String, Option, none, some, List, ◌++◌, false, ◌≡◌, ◌⊎◌, ap, ◌∙◌, arith, inl, inr, ok, lookup,
  string_eq, Bool-cases, Option-cases, Result-cases,
}
use end_of_line.State.{Plan, Claim, Event}
use end_of_line.Quota.{Pause}
use end_of_line.Store.{Row, Db, stamp_events}
use end_of_line.Store.Transaction.{match_claim, finish, insert_events, release_in_txn}
use end_of_line.Store.Transaction.Isolation.{plan_txn-ok}
use end_of_line.Store.ClaimOps.{op_release_claim, release_body}
use end_of_line.Store.ClaimOps.Guards.{HeldBy, match_claim-HeldBy}
use end_of_line.Store.PlanOps.{snapshot}
use end_of_line.Command.{Outcome}
use end_of_line.Command.Deaths.{
  Scene, classified, death_events, report, on_claim, cmd_notify_worker_dead,
}

-- The project's pause row is as it was, or it is what the log of a claim's death told, an unreported
-- death that the snapshot showed.
abbrev pub IsKeptPause : Scene → String → String → Plan → Option Pause → Option Pause → Type 0
IsKeptPause s phase token seen pause pause' =
    (pause' ≡ pause)
    ⊎ ((claim : Claim) × ((seen.current_claim ≡ some claim)
          × (claim.worker_death_reported ≡ false)
          × (pause' ≡ (classified s phase token claim pause).pause)))

-- The conclusion of `cmd_notify_worker_dead_lem`.
abbrev pub IsReportedDeath :
    Scene → String → String → String → Plan → Option Pause → Option Pause → Db → Outcome → Type 0
IsReportedDeath s slug phase token seen pause pause' current o =
    (o.db ≡ current) × IsKeptPause s phase token seen pause pause'
    ⊎ ((claim : Claim) × ((row : Row) × ((row' : Row) × ((seen.current_claim ≡ some claim)
              × (claim.worker_death_reported ≡ false)
              × (pause' ≡ (classified s phase token claim pause).pause)
              × (lookup slug current.plans ≡ some row)
              × HeldBy token row
              × (lookup slug o.db.plans ≡ some row')
              × (row'.plan.current_claim ≡ none)
              × (row'.plan.status ≡ row.plan.status)
              × (row'.plan.events
                  ≡ row.plan.events
                    ++ stamp_events current.event_seq (death_events s phase token claim pause))))))

release-steps :
    (slug token phase : String) (events : List Event) (db db' : Db) (c : Option Claim)
    → op_release_claim slug (some token) (some phase) events db ≡ ok (c, db')
    → (row : Row) × ((row' : Row) × ((lookup slug db.plans ≡ some row)
          × HeldBy token row
          × (lookup slug db'.plans ≡ some row')
          × (row'.plan.current_claim ≡ none)
          × (row'.plan.status ≡ row.plan.status)
          × (row'.plan.events ≡ row.plan.events ++ stamp_events db.event_seq events)))
unfolding op_release_claim release_body release_in_txn finish insert_events
release-steps slug token phase events db db' c h =
    let (row, row', found, ran, left) =
      plan_txn-ok slug (release_body (some token) (some phase) events) db db' c h in
    elim (Result-cases (match_claim row.plan.current_claim token (some phase))) [
      | inr (e, fails) ↦ absurd (ground (arith, ran, fails))
      | inl (claim, holds) ↦ (
        row,
        (
          row',
          (
            found,
            match_claim-HeldBy token (some phase) row claim holds,
            left,
            ground (arith, ran, holds),
            ground (arith, ran, holds),
            ground (arith, ran, holds),
          ),
        ),
      )
    ]

on_release :
    (s : Scene) (slug phase token : String) (seen : Plan) (claim : Claim)
    (pause pause' : Option Pause) (before current : Db) (o : Outcome)
    → snapshot slug before ≡ ok seen
    → seen.current_claim ≡ some claim
    → claim.worker_death_reported ≡ false
    → cmd_notify_worker_dead s slug phase token pause before current ≡ (ok o, pause')
    → IsReportedDeath s slug phase token seen pause pause' current o
unfolding cmd_notify_worker_dead on_claim report
on_release s slug phase token seen claim pause pause' before current o saw held fresh h =
    let events = death_events s phase token claim pause in
    let reached : ((o.db ≡ current) × (pause' ≡ pause))
        ⊎ (pause' ≡ (classified s phase token claim pause).pause) =
      ground (arith, saw, held, fresh, h) in
    elim reached [
      | inl (still, kept) ↦ inl (still, inl kept)
      | inr told ↦
          elim (Result-cases (op_release_claim slug (some token) (some phase) events current)) [
            | inr (e, failed) ↦
                inl (ground (arith, saw, held, fresh, failed, h), inr (claim, (held, fresh, told)))
            | inl ((c, db'), wrote) ↦
                let moved : (o.db ≡ current) ⊎ (o.db ≡ db') =
                  ground (arith, saw, held, fresh, wrote, h) in
                elim moved [
                  | inl still ↦ inl (still, inr (claim, (held, fresh, told)))
                  | inr here ↦
                      let (row, (row', (found, holds, left, free, status, log))) =
                        release-steps slug token phase events current db' c wrote in
                      let left' = ap (λ d. lookup slug d.plans) here ∙ left in
                      inr (
                        claim,
                        (row, (row', (held, fresh, told, found, holds, left', free, status, log))),
                      )
                ]
          ]
    ]

-- The heartbeat daemon's report of a death: either the plans' rows and logs are as they were, and the
-- project's pause row too unless the snapshot showed an unreported claim, whose log then decides it;
-- or the snapshot showed an unreported claim, the pause row is what the claim's log made of it, the token still held the plan's claim when the write ran, the plan has no claim
-- any more, its status is as it was, and the log has the report, with the events of a quota death
-- where the log told of one, behind it. A claim that was minted for another worker in between is
-- never released by it.
pub cmd_notify_worker_dead_lem :
    (s : Scene) (slug phase token : String) (seen : Plan) (pause pause' : Option Pause)
    (before current : Db) (o : Outcome)
    → snapshot slug before ≡ ok seen
    → cmd_notify_worker_dead s slug phase token pause before current ≡ (ok o, pause')
    → IsReportedDeath s slug phase token seen pause pause' current o
unfolding cmd_notify_worker_dead on_claim report
cmd_notify_worker_dead_lem s slug phase token seen pause pause' before current o saw h =
    elim (Option-cases seen.current_claim) [
      | inl gone ↦ inl (ground (arith, saw, gone, h), inl (ground (arith, saw, gone, h)))
      | inr (claim, held) ↦ elim (Bool-cases claim.worker_death_reported) [
        | inl told ↦
            inl (ground (arith, saw, held, told, h), inl (ground (arith, saw, held, told, h)))
        | inr fresh ↦
            on_release s slug phase token seen claim pause pause' before current o saw held fresh h
      ]
    ]
