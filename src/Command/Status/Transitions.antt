-- ===== src/Command/Status/Transitions.antt =====
-- What the operator's commands on the status and the claim do to a plan, whatever other processes
-- wrote between the snapshot and the write.
use end_of_line.Shared.{
  ℕ, String, Option, none, some, [], ◌∷◌, ◌++◌, Bool, true, false, ◌≡◌, ◌⊎◌, refl, ap, ◌∙◌, arith,
  inl, inr, Result, ok, ◌>>=◌, lookup, string_eq, ◌==◌, Bool-cases, Option-cases, Result-cases,
}
use end_of_line.State
use end_of_line.State.{
  Plan, Claim, Event, EventKind, Status, running, paused, halted, halted_for_replan, done, resumed,
  retry_requested, status_eq, claim_force_released,
}
use end_of_line.State.Slug.{validate_slug}
use end_of_line.Store.{Row, Db, stamp_events}
use end_of_line.Store.Transaction.{finish, insert_events}
use end_of_line.Store.Transaction.Isolation.{plan_txn-ok}
use end_of_line.Store.PlanOps.{op_set_status, set_status_body, release_if_asked, snapshot}
use end_of_line.Command.Exit.{ExitCode}
use end_of_line.Command.{Outcome, leave}
use end_of_line.Command.Status.{
  OperatorCommand, pause, resume, retry, perform, cmd_pause, cmd_resume, cmd_retry, phase_to_retry,
  paused_event, retried_event,
}

abbrev pub target : OperatorCommand → Status
target (pause reason) = Status.paused
target resume = running
target (retry phase) = running

abbrev pub kind_of : OperatorCommand → EventKind
kind_of (pause reason) = EventKind.paused
kind_of resume = resumed
kind_of (retry phase) = retry_requested

-- The statuses that a command acts on.
abbrev pub acts_on : OperatorCommand → Status → Bool
acts_on command done = false
acts_on (pause reason) paused = false
acts_on (pause reason) seen = true
acts_on resume paused = true
acts_on resume seen = false
acts_on (retry phase) seen = true

-- The row of that slug moved to the status, with one event of that kind behind its log, and with
-- its claim as it was.
abbrev pub MovedTo : String → Status → EventKind → Db → Db → Type 0
MovedTo slug status kind db db' =
    (row : Row) × ((row' : Row) × ((e : Event) × ((lookup slug db.plans ≡ some row)
          × (lookup slug db'.plans ≡ some row')
          × (row'.plan.status ≡ status)
          × (row'.plan.current_claim ≡ row.plan.current_claim)
          × (row'.plan.events ≡ row.plan.events ++ stamp_events db.event_seq (e ∷ []))
          × (e.kind ≡ kind))))

op_set_status-MovedTo :
    (slug : String) (status : Status) (e : Event) (db db' : Db) (u : Unit {0})
    → op_set_status slug status (e ∷ []) none none db ≡ ok (u, db')
    → MovedTo slug status e.kind db db'
unfolding op_set_status set_status_body release_if_asked finish insert_events
op_set_status-MovedTo slug status e db db' u h =
    let (row, row', found, ran, left) =
      plan_txn-ok slug (set_status_body status (e ∷ []) none none) db db' u h in
    (
      row,
      (
        row',
        (e, (found, left, ground (arith, ran), ground (arith, ran), ground (arith, ran), refl)),
      ),
    )

-- The conclusion of `perform_lem`.
abbrev pub IsPerformed : String → OperatorCommand → Plan → Db → Outcome → Type 0
IsPerformed slug command seen current o =
    (o.db ≡ current)
    ⊎ (acts_on command seen.status ≡ true)
      × (o.code ≡ ExitCode.ok)
      × MovedTo slug (target command) (kind_of command) current o.db

-- `op_set_status` and then the exit code 0.
abbrev set_and_leave : String → Status → Event → Db → Result Outcome
set_and_leave slug status e db =
    op_set_status slug status (e ∷ []) none none db >>= λ wrote. leave wrote.1 []

set_and_leave-IsPerformed :
    (slug : String) (command : OperatorCommand) (seen : Plan) (e : Event) (current : Db)
    (o : Outcome)
    → acts_on command seen.status ≡ true
    → e.kind ≡ kind_of command
    → set_and_leave slug (target command) e current ≡ ok o
    → IsPerformed slug command seen current o
set_and_leave-IsPerformed slug command seen e current o acts kind h =
    elim (Result-cases (op_set_status slug (target command) (e ∷ []) none none current)) [
      | inr (x, failed) ↦ absurd (ground (arith, failed, h))
      | inl ((u, db'), wrote) ↦
          let (row, (row', (e', moved))) =
            op_set_status-MovedTo slug (target command) e current db' u wrote in
          let here : o.db ≡ db' = ground (arith, wrote, h) in
          inr (
            acts,
            ground (arith, wrote, h),
            (
              row,
              (
                row',
                (
                  e',
                  (
                    moved.0,
                    ap (λ d. lookup slug d.plans) here ∙ moved.1,
                    moved.2,
                    moved.3,
                    moved.4,
                    moved.5 ∙ kind,
                  ),
                ),
              ),
            ),
          )
    ]

pause-IsPerformed :
    (now : ℕ) (slug reason : String) (seen : Plan) (before current : Db) (o : Outcome)
    (status : Status)
    → seen.status ≡ status
    → snapshot slug before ≡ ok seen
    → cmd_pause now slug reason before current ≡ ok o
    → IsPerformed slug (pause reason) seen current o
unfolding cmd_pause
pause-IsPerformed now slug reason seen before current o running is saw h =
    set_and_leave-IsPerformed slug (pause reason) seen (paused_event now reason) current o
      (ground (arith, is)) refl (ground (arith, saw, is, h))
pause-IsPerformed now slug reason seen before current o paused is saw h =
    inl (ground (arith, saw, is, h))
pause-IsPerformed now slug reason seen before current o halted is saw h =
    set_and_leave-IsPerformed slug (pause reason) seen (paused_event now reason) current o
      (ground (arith, is)) refl (ground (arith, saw, is, h))
pause-IsPerformed now slug reason seen before current o halted_for_replan is saw h =
    set_and_leave-IsPerformed slug (pause reason) seen (paused_event now reason) current o
      (ground (arith, is)) refl (ground (arith, saw, is, h))
pause-IsPerformed now slug reason seen before current o done is saw h =
    inl (ground (arith, saw, is, h))

resume-IsPerformed :
    (now : ℕ) (slug : String) (seen : Plan) (before current : Db) (o : Outcome) (status : Status)
    → seen.status ≡ status
    → snapshot slug before ≡ ok seen
    → cmd_resume now slug before current ≡ ok o
    → IsPerformed slug resume seen current o
unfolding cmd_resume
resume-IsPerformed now slug seen before current o paused is saw h =
    set_and_leave-IsPerformed slug resume seen (State.event now resumed) current o
      (ground (arith, is)) refl (ground (arith, saw, is, h))
resume-IsPerformed now slug seen before current o running is saw h =
    inl (ground (arith, saw, is, h))
resume-IsPerformed now slug seen before current o halted is saw h = inl (ground (arith, saw, is, h))
resume-IsPerformed now slug seen before current o halted_for_replan is saw h =
    inl (ground (arith, saw, is, h))
resume-IsPerformed now slug seen before current o done is saw h = inl (ground (arith, saw, is, h))

retry-IsPerformed :
    (now : ℕ) (slug : String) (asked : Option String) (seen : Plan) (before current : Db)
    (o : Outcome)
    → snapshot slug before ≡ ok seen
    → cmd_retry now slug asked before current ≡ ok o
    → IsPerformed slug (retry asked) seen current o
unfolding cmd_retry
retry-IsPerformed now slug asked seen before current o saw h =
    elim (Bool-cases (seen.status == done)) [
      | inl final ↦ inl (ground (arith, saw, final, h))
      | inr alive ↦ elim (Option-cases (phase_to_retry asked seen)) [
        | inl nothing ↦ inl (ground (arith, saw, alive, nothing, h))
        | inr (phase, found) ↦ elim (Bool-cases (validate_slug phase)) [
          | inr bad ↦ inl (ground (arith, saw, alive, found, bad, h))
          | inl good ↦
              set_and_leave-IsPerformed slug (retry asked) seen (retried_event now phase) current o
                (ground (arith, alive)) refl (ground (arith, saw, alive, found, good, h))
        ]
      ]
    ]

-- The operator's commands on the status write or refuse, whatever happened to the store after their
-- snapshot: either nothing is written, or the exit code is 0, the plan had a status that the command
-- acts on in the snapshot (pause: all but paused and done, resume: paused only, retry: all but
-- done), and the plan's row moves to the command's status with exactly one event of the command's
-- kind behind its log, and keeps its claim.
pub perform_lem :
    (now : ℕ) (slug : String) (command : OperatorCommand) (seen : Plan) (before current : Db)
    (o : Outcome)
    → snapshot slug before ≡ ok seen
    → perform now slug command before current ≡ ok o
    → IsPerformed slug command seen current o
unfolding perform
perform_lem now slug (pause reason) seen before current o saw h =
    pause-IsPerformed now slug reason seen before current o seen.status refl saw h
perform_lem now slug resume seen before current o saw h =
    resume-IsPerformed now slug seen before current o seen.status refl saw h
perform_lem now slug (retry asked) seen before current o saw h =
    retry-IsPerformed now slug asked seen before current o saw h
