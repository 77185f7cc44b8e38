-- ===== src/Supervisor/Tick/Commit.antt =====
-- The commit of a tick: all of its effects on the plan or none, its errors, and what a dispatch asks.
use end_of_line.Shared.{
  String, Option, none, some, [], false, ◌≡◌, ◌⊎◌, inl, inr, arith, ap, ◌∙◌, sym, Result-cases, ok,
  err, tick_conflict, string_eq,
}
use end_of_line.State.{Plan, status_eq}
use end_of_line.Quota.{Pause}
use end_of_line.Store.{Db}
use end_of_line.Store.Conditions.{holder_eq}
use end_of_line.Supervisor.Delta.{is_empty, require_claim, require_event_log, require_status}
use end_of_line.Supervisor.Work.{Work, World, Config, delta_event}
use end_of_line.Supervisor.Watchdogs.{gap_fill}
use end_of_line.Supervisor.Deaths.{Action, Decision, result, concurrent_write}
use end_of_line.Supervisor.Lane.{dispatch_of, ask_claim}
use end_of_line.Supervisor.Lane.Due.{dispatches}
use end_of_line.Supervisor.Tick.{start, decide, apply, commit, tick_on, Outcome, quiet, committed}

pub dispatches-asks :
    (world : World) (phase : String) (pause : Option Pause) (w : Work)
    → ((dispatches world phase pause w).work.delta.claim_phase ≡ some phase)
      × ((dispatches world phase pause w).work.delta.pre.expect_claim
          ≡ w.delta.observed.expect_claim)
      × ((dispatches world phase pause w).work.delta.pre.expect_max_event_id
          ≡ w.delta.observed.expect_max_event_id)
      × ((dispatches world phase pause w).work.delta.pre.expect_status
          ≡ w.delta.observed.expect_status)
      × (is_empty (dispatches world phase pause w).work.delta ≡ false)
      × ((dispatches world phase pause w).outcome.phase_id ≡ some phase)
unfolding dispatch_of ask_claim delta_event require_claim require_event_log require_status is_empty
dispatches-asks world phase pause w = ground arith

pub commit_cases :
    (world : World) (plan : Plan) (d : Decision) (db : Db) (o : Outcome)
    → commit world plan d db ≡ ok o
    → ((apply world plan.plan_slug d.work.delta db ≡ err tick_conflict)
        × (o ≡ quiet (result Action.idle concurrent_write) d.pause db))
      ⊎ ((token : Option String) × ((db' : Db) × ((apply world plan.plan_slug d.work.delta db
                ≡ ok (token, db'))
              × (o ≡ committed plan d (token, db')))))
unfolding commit
commit_cases world plan d db o h =
    elim (Result-cases (apply world plan.plan_slug d.work.delta db)) [
      | inl ((token, db'), y) ↦ inr (token, (db', (y, ground (arith, y, h))))
      | inr (e, y) ↦ inl (ground (arith, y, h))
    ]

-- What the tick decides on its snapshot.
abbrev pub decision_on : Config → World → Plan → Option Pause → Decision
decision_on cfg world seen pause = decide cfg world pause (gap_fill cfg world (start seen))

-- The conclusion of `tick_atomic`.
abbrev pub IsAllOrNothing : Config → World → Plan → Option Pause → Db → Outcome → Type 0
IsAllOrNothing cfg world seen pause db o =
    ((apply world seen.plan_slug (decision_on cfg world seen pause).work.delta db
        ≡ err tick_conflict)
      × (o.result.action ≡ Action.idle)
      × (o.db ≡ db)
      × (o.side_notifies ≡ [])
      × (o.inbox_events ≡ [])
      × (o.post_commit ≡ [])
      × (o.result.notify_body ≡ none))
    ⊎ ((token : Option String) × ((apply world seen.plan_slug
              (decision_on cfg world seen pause).work.delta db
            ≡ ok (token, o.db))
          × (o.side_notifies ≡ (decision_on cfg world seen pause).work.side_notifies)
          × (o.inbox_events ≡ (decision_on cfg world seen pause).work.delta.inbox_events)
          × (o.post_commit ≡ (decision_on cfg world seen pause).post_commit)))

-- A tick's effects on its plan are all or nothing, the quota pause apart, which the gate writes ahead
-- of them. Either its write conflicted, and then the result is idle, the plans are those that were
-- found, and no notification, inbox row or later step is left; or the plans are what the write left,
-- and notifications, inbox rows and later steps are those that the decision collected.
pub tick_atomic :
    (cfg : Config) (world : World) (seen : Plan) (pause : Option Pause) (db : Db) (o : Outcome)
    → tick_on cfg world seen pause db ≡ ok o
    → IsAllOrNothing cfg world seen pause db o
unfolding tick_on
tick_atomic cfg world seen pause db o h =
    elim (commit_cases world seen (decide cfg world pause (gap_fill cfg world (start seen))) db o
      h) [
        | inl (c, q) ↦ inl (
          c,
          ap (λ x. x.result.action) q,
          ap (λ x. x.db) q,
          ap (λ x. x.side_notifies) q,
          ap (λ x. x.inbox_events) q,
          ap (λ x. x.post_commit) q,
          ap (λ x. x.result.notify_body) q,
        )
        | inr (token, (db', (y, q))) ↦ inr (
          token,
          (
            y ∙ ap (λ x. ok (token, x.db)) (sym q),
            ap (λ x. x.side_notifies) q,
            ap (λ x. x.inbox_events) q,
            ap (λ x. x.post_commit) q,
          ),
        )
      ]
