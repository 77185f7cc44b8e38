-- ===== src/Supervisor/Lane.antt =====
-- The second half of the chain in `tick` of end_of_line/supervisor.py: the blockers' SLA, answered
-- blockers, and the choice of the next phase.
pub mod Due
pub mod Answers
use end_of_line.Shared.{
  ℕ, suc, ◌+◌, ◌*◌, ◌-◌, String, Option, none, some, List, [], ◌∷◌, ◌++◌, Bool, true, false, ◌&&◌,
  ◌||◌, not, if◌then◌else◌, ◌==◌, nat_eq, string_eq, leb, filter, all, contains, length,
}
use end_of_line.State.{
  Plan, Claim, Blocker, Task, Status, paused, halted, done, status_eq, is_terminal, parse_iso, hour,
  Value, num, event, blocker_sla_exceeded, blocker_consumed, phase_max_attempts, quota_resumed,
  plan_completed, default_sla_hours, default_max_attempts,
}
use end_of_line.State.Claims.{get_or_default, lease_ttl_for_phase, started_count}
use end_of_line.State.Attempts.{completed_phase_ids, attempts_for_phase}
use end_of_line.State.Blockers.{open_blockers, phase_has_open_blocker, process_answered_blockers}
use end_of_line.Quota.{Pause, GateDecision, gate_decision}
use end_of_line.Supervisor.Delta.{
  Delta, BlockerUpdate, require_claim, require_event_log, require_blocker, require_status,
}
use end_of_line.Supervisor.Deaths.{
  Action, Detail, Body, TickResult, Decision, result, halted_body, completed_body, blank,
  no_sessions_index, none_dispatchable, blocker_aged, consumed_blocker, pinned_by, plan_status,
  in_flight, attempts_used, gate, completed, tasks_pending,
}
use end_of_line.Supervisor.Work.{
  Work, Notice, World, on_delta, delta_event, stamp_blocker, notify, set_status,
}

abbrev pub plain : Action → Detail → Option Pause → Work → Decision
plain action detail pause w = record {
  work = w;
  outcome = result action detail;
  post_commit = [];
  pause = pause;
}

-- `age_hours >= sla_hours`; an `asked_at` that cannot be read is passed over.
abbrev over_sla : ℕ → ℕ → Blocker → Bool
over_sla now sla b = elim (parse_iso b.asked_at) [
  | none ↦ false
  | some asked ↦ leb (asked + sla * hour) now
]

abbrev age_since : ℕ → Blocker → ℕ
age_since now b = elim (parse_iso b.asked_at) [ none ↦ 0 | some asked ↦ now - asked ]

abbrev first_of {ℓ} : {A : Type ℓ} → List A → Option A
first_of [] = none
first_of (x ∷ xs) = some x

abbrev sla_hours : Plan → ℕ
sla_hours plan = get_or_default default_sla_hours plan.config.blocked_question_sla_hours

unfoldable pub overdue : ℕ → Plan → Option Blocker
unfolding open_blockers
overdue now plan =
    if plan.status == paused
    then none
    else first_of (filter (over_sla now (sla_hours plan)) (open_blockers plan))

unfoldable pub on_overdue : ℕ → Blocker → Option Pause → Work → Decision
unfolding delta_event set_status require_blocker require_status
on_overdue now b pause w =
    let judged = on_delta (λ d. require_status (require_blocker b.id d)) w in
    let evt = record (event now blocker_sla_exceeded) {
      blocker_id = some b.id;
      fields = ("age_hours", num (age_since now b)) ∷ [];
    } in
    plain Action.escalate (blocker_aged b.id) pause (delta_event evt (set_status paused judged))

unfoldable pub escalate : World → Option Pause → Work → Option Decision
unfolding overdue on_overdue
escalate world pause w = if world.in_quiet_window then none else elim (overdue world.now w.plan) [
  | none ↦ none
  | some b ↦ some (on_overdue world.now b pause w)
]

unfoldable pub consume : ℕ → ℕ → Work → Work
unfolding delta_event stamp_blocker require_blocker
consume now n w =
    delta_event (record (event now blocker_consumed) { blocker_id = some n })
      (stamp_blocker n BlockerUpdate.consumed (on_delta (require_blocker n) w))

unfoldable pub consume_all : ℕ → List ℕ → Work → Work
consume_all now [] w = w
consume_all now (n ∷ rest) w = consume_all now rest (consume now n w)

abbrev pub resume_status : Option Status → Work → Work
resume_status none w = w
resume_status (some status) w = set_status status (on_delta require_status w)

unfoldable pub consume_answers : ℕ → Option Pause → Work → Option Decision
unfolding process_answered_blockers consume_all
consume_answers now pause w =
    let (ids, target) = process_answered_blockers w.plan in
    elim ids [
      | [] ↦ none
      | n ∷ rest ↦ some (
          plain Action.blocker_resumed (consumed_blocker n) pause
            (resume_status target (consume_all now (n ∷ rest) w)))
    ]

abbrev pub max_attempts : Plan → ℕ
max_attempts plan = get_or_default default_max_attempts plan.config.max_attempts_per_phase

-- `phase.id in completed or phase_has_open_blocker(data, phase.id)`
abbrev is_skipped : Plan → String → Bool
is_skipped plan phase =
    contains phase (completed_phase_ids plan) || phase_has_open_blocker plan phase

-- The loop over the phases returns at the first that is not skipped.
unfoldable pub first_due : Plan → List String → Option String
unfolding completed_phase_ids phase_has_open_blocker
first_due plan [] = none
first_due plan (phase ∷ rest) =
    let later = first_due plan rest in if is_skipped plan phase then later else some phase

abbrev pub require_dispatch : Delta → Delta
require_dispatch d = require_status (require_event_log (require_claim d))

unfoldable pub on_exhausted : ℕ → String → Option Pause → Work → Decision
unfolding delta_event set_status require_claim require_event_log require_status
on_exhausted now phase pause w =
    let used = attempts_for_phase w.plan phase in
    let evt = record (event now phase_max_attempts) {
      phase = some phase;
      fields = ("attempts", num used) ∷ [];
    } in
    record {
      work = delta_event evt (set_status halted (on_delta require_dispatch w));
      outcome = record (result Action.halt (attempts_used phase used)) {
        notify_body = some (halted_body phase used);
      };
      post_commit = [];
      pause = pause;
    }

abbrev announce_resume : ℕ → Bool → Work → Work
announce_resume now resumed w =
    if resumed then notify Notice.quota_resumed (delta_event (event now quota_resumed) w) else w

unfoldable pub ask_claim : String → Work → Work
unfolding require_claim require_event_log require_status
ask_claim phase w =
    on_delta
      (λ d. record (require_dispatch d) {
        claim_phase = some phase;
        lease_minutes = some (lease_ttl_for_phase w.plan phase);
        claim_attempts = some (started_count phase w.plan.events + 1);
      })
      w

unfoldable pub dispatch_of : ℕ → String → Bool → Option Pause → Work → Decision
unfolding ask_claim delta_event
dispatch_of now phase resumed pause w = record {
  work = ask_claim phase (announce_resume now resumed w);
  outcome = record (result Action.dispatch blank) { phase_id = some phase };
  post_commit = [];
  pause = pause;
}

abbrev pub on_gate : ℕ → String → Work → GateDecision × Option Pause → Decision
on_gate now phase w (decision, pause) =
    if decision.dispatch
    then dispatch_of now phase decision.resumed pause w
    else plain Action.idle (gate decision.detail) pause w

unfoldable pub try_phase : World → String → Option Pause → Work → Decision
unfolding on_exhausted dispatch_of gate_decision
try_phase world phase pause w =
    if leb (max_attempts w.plan) (attempts_for_phase w.plan phase)
    then on_exhausted world.now phase pause w
    else on_gate world.now phase w
        (gate_decision world.gate_access w.plan.plan_slug world.now pause)

abbrev is_pending : Task → Bool
is_pending t = t.status == "pending"

unfoldable pub on_done : ℕ → Option Pause → Work → Decision
unfolding delta_event set_status require_claim require_event_log require_status
on_done now pause w = record {
  work = delta_event (event now plan_completed) (set_status done (on_delta require_dispatch w));
  outcome = record (result Action.plan_done (completed w.plan.plan_slug)) {
    notify_body = some (completed_body w.plan.plan_slug);
  };
  post_commit = [];
  pause = pause;
}

-- Behind the loop: no phase is due.
unfoldable pub wind_down : World → Option Pause → Work → Decision
unfolding on_done completed_phase_ids
wind_down world pause w =
    if all (λ phase. contains phase (completed_phase_ids w.plan)) world.phases
    then elim (filter is_pending w.plan.spawned_tasks) [
      | [] ↦ on_done world.now pause w
      | t ∷ rest ↦ plain Action.idle (tasks_pending (suc (length rest))) pause w
    ]
    else plain Action.idle none_dispatchable pause w

unfoldable pub choose_phase : World → Option Pause → Work → Decision
unfolding first_due try_phase wind_down
choose_phase world pause w = elim world.phases [
  | [] ↦ plain Action.error no_sessions_index pause w
  | p ∷ rest ↦ elim (first_due w.plan world.phases) [
    | none ↦ wind_down world pause w
    | some phase ↦ try_phase world phase pause w
  ]
]

-- Terminal plans and claims in flight are left alone; an open blocker pins the lane.
unfoldable pub settle : World → Option Pause → Work → Decision
unfolding open_blockers choose_phase
settle world pause w =
    if is_terminal w.plan.status
    then plain Action.idle (plan_status w.plan.status) pause w
    else elim w.plan.current_claim [
      | some claim ↦ plain Action.idle (in_flight claim.phase_id claim.lease_expires) pause w
      | none ↦ elim (open_blockers w.plan) [
        | b ∷ rest ↦ plain Action.idle (pinned_by b.id) pause w
        | [] ↦ choose_phase world pause w
      ]
    ]
