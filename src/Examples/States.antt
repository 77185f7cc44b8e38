-- ===== src/Examples/States.antt =====
-- The plan-state helpers of end_of_line/state.py and state_blocker.py on sample values.
use end_of_line.Shared.{
  ◌≤◌, String, some, [], ◌∷◌, true, false, ◌≡◌, ◌↔◌, refl, arith, Result, ok, err, string_eq,
  String-discrete, length, nat_eq,
}
use end_of_line.State.{EventKind-discrete, OptionText-discrete}
use end_of_line.State.Claims.{append_event}
use end_of_line.State.Attempts.{attempts_for_phase}
use end_of_line.State.Idle.{worker_idle_window_satisfied}
use end_of_line.State.{Plan, Claim, Event, Sample, at, event, quota_death, utcnow}
use end_of_line.State.Claims.{started_event}
use end_of_line.State.Attempts.Budget.{attempts_for_phase_forgiven}
use end_of_line.State.Idle.Evidence.{worker_idle_window_iff, IsIdleEvidence}
use end_of_line.State.Blockers.Answers.{no_second_reping}
use end_of_line.State.Blockers.{needs_reping}
use end_of_line.Examples.{idle_plan, open_blocker, old_claim, noon}

abbrev plan_after : Result (String × Plan) → Plan
plan_after (ok (token, plan)) = plan
plan_after (err e) = idle_plan

abbrev started : Event
started = started_event noon "tok" "a"

abbrev died : Event
died = record (event noon quota_death) { phase = some "a"; token = some "tok" }

abbrev early : Sample
early = record { ts = at 60; cpu = 500 }

abbrev late : Sample
late = record { ts = at 120; cpu = 600 }

abbrev watched : Claim
watched = record old_claim { cpu_samples = some (early ∷ late ∷ []) }

abbrev marked : Claim
marked = record old_claim { active_tool_started_at = some (utcnow noon) }

attempts_for_phase_forgiven_example :
    attempts_for_phase (append_event died (append_event started idle_plan)) "a"
    ≡ attempts_for_phase idle_plan "a"
unfolding EventKind-discrete OptionText-discrete attempts_for_phase String-discrete
attempts_for_phase_forgiven_example =
    attempts_for_phase_forgiven idle_plan "a" "tok" started died refl refl refl tt

worker_idle_window_iff_example :
    (worker_idle_window_satisfied watched 130000000 2 60000000 70000000 1000 ≡ true) ↔ (
      (2 ≤ length (early ∷ late ∷ []))
      × IsIdleEvidence 130000000 60000000 70000000 1000 early (late ∷ []) 60000000 (120000000 ∷ []))
unfolding worker_idle_window_satisfied
worker_idle_window_iff_example =
    worker_idle_window_iff watched 130000000 2 60000000 70000000 1000 early (late ∷ []) 60000000
      (120000000 ∷ []) refl refl

no_second_reping_example :
    needs_reping 946685000000000 (record open_blocker { last_repinged_at = some (utcnow noon) })
    ≡ false
no_second_reping_example = no_second_reping noon 946685000000000 open_blocker (omega arith)
