-- ===== src/Examples/Lanes.antt =====
-- The priority chain of end_of_line/supervisor.py on the sample plans.
use end_of_line.Shared.{Option, none, some, [], ◌∷◌, ◌≢◌, ◌↔◌, refl, string_eq, nat_eq}
use end_of_line.State.Claims.{claim_phase}
use end_of_line.State.Blockers.{process_answered_blockers}
use end_of_line.Supervisor.Delta.{require_blocker, require_status}
use end_of_line.Supervisor.Work.{delta_event, stamp_first, stamp_blocker, set_status}
use end_of_line.Supervisor.Deaths.{detect_death}
use end_of_line.Supervisor.Lane.{consume, consume_all, consume_answers}
use end_of_line.State.{Plan}
use end_of_line.Supervisor.Deaths.{Action, Decision, blank}
use end_of_line.Supervisor.Lane.{plain}
use end_of_line.Supervisor.Lane.Answers.{consume_answers_once, IsConsumedOnce}
use end_of_line.Supervisor.Deaths.Release.{
  detect_death-IsDead, IsDead, detect_death-release, IsReleased,
}
use end_of_line.State.{at}
use end_of_line.State.Claims.{started_event, fresh_claim}
use end_of_line.Examples.{
  open_blocker, idle_plan, claimed_plan, old_claim, settings, world, work_of, row_of, noon,
}

abbrev decision_of : Option Decision → Decision
decision_of none = plain Action.idle blank none (work_of idle_plan)
decision_of (some d) = d

-- Three starts of phase `a`, and a worker whose last heartbeat is 50 minutes old.
abbrev tried_plan : Plan
tried_plan = record idle_plan {
  events =
      started_event noon "t1" "a" ∷ started_event noon "t2" "a" ∷ started_event noon "t3" "a" ∷ [];
}

abbrev silent_plan : Plan
silent_plan = record idle_plan {
  current_claim = some (record (fresh_claim 946681200000000 "tok" "a" 180 1) {
    last_heartbeat_at = some (at 946681800);
  });
}

detect_death-IsDead_example :
    (detect_death settings world none (work_of claimed_plan) ≢ none) ↔ IsDead world "demo" old_claim
detect_death-IsDead_example =
    detect_death-IsDead settings world none (work_of claimed_plan) old_claim refl

detect_death-release_example :
    IsReleased
      (work_of claimed_plan)
      (decision_of (detect_death settings world none (work_of claimed_plan)))
unfolding claim_phase detect_death
detect_death-release_example =
    detect_death-release settings world none (work_of claimed_plan)
      (decision_of (detect_death settings world none (work_of claimed_plan))) refl

-- The question was answered and the answer was not consumed yet.
abbrev answered_plan : Plan
answered_plan = record idle_plan {
  blockers = record open_blocker { answer = some "left"; answered_at = some (at 946001000) } ∷ [];
}

consume_answers_once_example :
    IsConsumedOnce noon noon none
      (work_of answered_plan)
      (decision_of (consume_answers noon none (work_of answered_plan)))
      (row_of answered_plan)
unfolding consume_answers process_answered_blockers consume_all consume delta_event stamp_blocker
    stamp_first set_status require_status require_blocker
consume_answers_once_example =
    consume_answers_once noon noon none (work_of answered_plan)
      (decision_of (consume_answers noon none (work_of answered_plan))) (row_of answered_plan)
      (tt, tt) refl refl
