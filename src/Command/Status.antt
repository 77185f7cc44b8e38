-- ===== src/Command/Status.antt =====
-- The operator's commands on a plan's status and claim: `cmd_pause`, `cmd_resume`, `cmd_retry`,
-- `cmd_extend_lease` and `cmd_release_claim` of end_of_line/cli.py. `before` is the store that the
-- snapshot read, `current` the one that the write finds.
pub mod Transitions
pub mod Release
use end_of_line.Shared.{
  ℕ, String, Option, none, some, List, [], ◌∷◌, ◌++◌, Bool, true, false, not, ◌&&◌, if◌then◌else◌,
  ◌==◌, string_eq, nat_eq, Result, ok, err, ◌>>=◌, claim_mismatch,
}
use end_of_line.State
use end_of_line.State.{
  Plan, Claim, Event, EventKind, Status, running, paused, halted, halted_for_replan, done, resumed,
  retry_requested, claim_force_released, phase_orphan_reaped, attempts_reset, text, flag, num,
  status_eq,
}
use end_of_line.State.Slug.{validate_slug}
use end_of_line.State.Attempts.{most_recent_halted_phase}
use end_of_line.Store.{Db}
use end_of_line.Store.ClaimOps.{op_release_claim, op_extend_lease}
use end_of_line.Store.PlanOps.{op_set_status, snapshot}
use end_of_line.Supervisor.Watchdogs.{worker_pid}
use end_of_line.Command.Exit.{ExitCode}
use end_of_line.Command.{
  Outcome, Effect, reap, die, leave, emit_coolant_stop, claim_is_stalled, token_or_empty,
}

abbrev pub paused_event : ℕ → String → Event
paused_event now reason = record (State.event now EventKind.paused) {
  fields = ("reason", text reason) ∷ [];
}

abbrev pub retried_event : ℕ → String → Event
retried_event now phase = record (State.event now retry_requested) { phase = some phase }

unfoldable pub cmd_pause : ℕ → String → String → Db → Db → Result Outcome
unfolding snapshot op_set_status
cmd_pause now slug reason before current = do
  plan ← snapshot slug before
  elim plan.status [
    | done ↦ die ExitCode.status_transition current
    | paused ↦ leave current []
    | _ ↦ do
      wrote ← op_set_status slug Status.paused (paused_event now reason ∷ []) none none current
      leave wrote.1 []
  ]

unfoldable pub cmd_resume : ℕ → String → Db → Db → Result Outcome
unfolding snapshot op_set_status
cmd_resume now slug before current = do
  plan ← snapshot slug before
  elim plan.status [
    | running ↦ leave current []
    | halted ↦ die ExitCode.status_transition current
    | halted_for_replan ↦ die ExitCode.status_transition current
    | done ↦ die ExitCode.status_transition current
    | paused ↦ do
      wrote ← op_set_status slug running (State.event now resumed ∷ []) none none current
      leave wrote.1 []
  ]

-- `args.phase or st.most_recent_halted_phase(data)`
abbrev pub phase_to_retry : Option String → Plan → Option String
phase_to_retry none plan = most_recent_halted_phase plan
phase_to_retry (some phase) plan = if phase == "" then most_recent_halted_phase plan else some phase

unfoldable pub cmd_retry : ℕ → String → Option String → Db → Db → Result Outcome
unfolding snapshot op_set_status most_recent_halted_phase
cmd_retry now slug asked before current = do
  plan ← snapshot slug before
  if plan.status == done
      then die ExitCode.status_transition current
      else elim (phase_to_retry asked plan) [
        | none ↦ die ExitCode.status_transition current
        | some phase ↦
            if validate_slug phase
            then (do
              wrote ← op_set_status slug running (retried_event now phase ∷ []) none none current
              leave wrote.1 [])
            else die ExitCode.invalid_slug current
      ]

-- The three commands that set the status, as the command line tells them apart.
pub data OperatorCommand : Type 0 where
  pause : String → OperatorCommand
  resume : OperatorCommand
  retry : Option String → OperatorCommand

unfoldable pub perform : ℕ → String → OperatorCommand → Db → Db → Result Outcome
unfolding cmd_pause cmd_resume cmd_retry
perform now slug (pause reason) before current = cmd_pause now slug reason before current
perform now slug resume before current = cmd_resume now slug before current
perform now slug (retry phase) before current = cmd_retry now slug phase before current

-- A claim that moved between the snapshot and the write is a refusal, not an error.
abbrev pub extended : Db → Result (State.Stamp × Db) → Result Outcome
extended current (ok (expires, db)) = leave db []
extended current (err (claim_mismatch m)) = die ExitCode.status_transition current
extended current (err e) = err e

-- `minutes` is what is above 0 of the argument: 0 or less is refused.
unfoldable pub cmd_extend_lease : ℕ → String → ℕ → Db → Db → Result Outcome
unfolding snapshot op_extend_lease
cmd_extend_lease now slug minutes before current =
    if minutes == 0 then die ExitCode.invalid_value current else (do
      plan ← snapshot slug before
      elim plan.current_claim [
        | none ↦ die ExitCode.status_transition current
        | some claim ↦ extended current (op_extend_lease now slug claim.phase_id minutes current)
      ])

-- The events of a forced release, in their order; `signaled` and `mismatch` are what the reap said.
abbrev released_event : ℕ → Claim → Bool → Option String → Event
released_event now claim forced reason = record (State.event now claim_force_released) {
  phase = some claim.phase_id;
  token = claim.claimed_by;
  fields =
      ("forced", flag forced)
      ∷ ("released_by_operator", flag true)
      ∷ elim reason [ none ↦ [] | some r ↦ if r == "" then [] else ("reason", text r) ∷ [] ];
}

abbrev reaped_event : ℕ → Claim → Option String → Bool → List Event
reaped_event now claim signaled mismatch = elim (worker_pid claim.pid) [
  | none ↦ []
  | some pid ↦
      record (State.event now phase_orphan_reaped) {
        phase = some claim.phase_id;
        fields =
            ("pid", num pid)
            ∷ ("signaled", elim signaled [ none ↦ State.null | some s ↦ text s ])
            ∷ ("cmdline_mismatch", flag mismatch)
            ∷ [];
      }
      ∷ []
]

abbrev reset_event : ℕ → Claim → Bool → List Event
reset_event now claim false = []
reset_event now claim true =
    record (State.event now attempts_reset) {
      phase = some claim.phase_id;
      fields = ("operator", flag true) ∷ [];
    }
    ∷ []

abbrev pub release_events :
    ℕ → Claim → Bool → Option String → Option String → Bool → Bool → List Event
release_events now claim forced reason signaled mismatch reset =
    released_event now claim forced reason
    ∷ (reaped_event now claim signaled mismatch ++ reset_event now claim reset)

-- `claim.get("pgid") or pid`, where there is a pid.
abbrev pub reap_effects : Plan → Claim → List Effect
reap_effects plan claim = elim (worker_pid claim.pid) [
  | none ↦ []
  | some pid ↦ elim (worker_pid claim.pgid) [
    | none ↦ reap pid plan.plan_slug ∷ []
    | some pgid ↦ reap pgid plan.plan_slug ∷ []
  ]
]

unfoldable pub cmd_release_claim :
    ℕ
    → Bool
    → String
    → Bool
    → Option String
    → Bool
    → Option String
    → Bool
    → Db
    → Db
    → Result Outcome
unfolding snapshot op_release_claim claim_is_stalled
cmd_release_claim now coolant slug force reason reset signaled mismatch before current = do
  plan ← snapshot slug before
  elim plan.current_claim [
    | none ↦ leave current []
    | some claim ↦
        if plan.status == running && not (claim_is_stalled now plan claim) && not force
        then die ExitCode.status_transition current
        else (do
          wrote ←
              op_release_claim slug none none
                (release_events now claim force reason signaled mismatch reset) current
          leave wrote.1 (
              reap_effects plan claim
              ++ emit_coolant_stop coolant claim.phase_id (token_or_empty claim.claimed_by)))
  ]
