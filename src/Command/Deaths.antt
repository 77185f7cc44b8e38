-- ===== src/Command/Deaths.antt =====
-- `cmd_notify_worker_dead` of end_of_line/cli.py: the heartbeat daemon's report of a dead worker.
pub mod Released
use end_of_line.Shared.{
  ℕ, String, Option, none, some, List, [], ◌∷◌, ◌++◌, Bool, true, false, if◌then◌else◌, Result, ok,
  err, ◌>>=◌, claim_mismatch, no_active_claim, invalid_slug,
}
use end_of_line.State
use end_of_line.State.{Plan, Claim, Event, text, num, phase_worker_dead_reported}
use end_of_line.State.Slug.{validate_slug}
use end_of_line.State.Claims.{assert_claim_match}
use end_of_line.Supervisor.Watchdogs.{worker_pid}
use end_of_line.Quota.{QuotaMatch, Pause, Death, record_quota_death}
use end_of_line.Store.{Db}
use end_of_line.Store.ClaimOps.{op_release_claim}
use end_of_line.Store.PlanOps.{snapshot}
use end_of_line.Command.{
  Outcome, Effect, reap, worker_dead_inbox, worker_dead_notify, quota_pause_notify, leave,
  translate_claim_mismatch, emit_coolant_stop,
}

-- What the report is told from outside the store: the log's classification and the time that the
-- quota message names; `readable` is false where the snapshot cannot be read, `busy` is true where
-- the write lock stays taken beyond the command's budget.
pub record Scene : Type 0 where
  pub now : ℕ
  pub coolant_enabled : Bool
  pub classify_log_tail : Option String → Option QuotaMatch
  pub parse_reset : QuotaMatch → Option ℕ
  pub readable : Bool
  pub busy : Bool

abbrev num_or_null : Option ℕ → State.Value
num_or_null none = State.null
num_or_null (some n) = num n

abbrev text_or_null : Option String → State.Value
text_or_null none = State.null
text_or_null (some t) = text t

abbrev pub reported_event : ℕ → String → Claim → Event
reported_event now phase claim = record (State.event now phase_worker_dead_reported) {
  phase = some phase;
  fields =
      ("pid", num_or_null claim.pid)
      ∷ ("log_path", text_or_null claim.log_path)
      ∷ ("reporter", text "heartbeat_daemon")
      ∷ [];
}

-- The harvest of the classifier: further events, the notification, and the project's pause row.
pub record Harvest : Type 0 where
  pub events : List Event
  pub notice : Effect
  pub pause : Option Pause

unfoldable pub classified : Scene → String → String → Claim → Option Pause → Harvest
unfolding record_quota_death
classified s phase token claim pause = elim (s.classify_log_tail claim.log_path) [
  | none ↦ record { events = []; notice = worker_dead_notify phase claim.pid; pause = pause }
  | some found ↦
      let d = record_quota_death s.now found (s.parse_reset found) phase (some token) pause in
      record {
        events = d.events;
        notice = quota_pause_notify found.line d.paused_until;
        pause = d.pause;
      }
]

-- `claim.get("pgid") or pid`
abbrev pub reap_of : String → Claim → List Effect
reap_of slug claim = elim (worker_pid claim.pgid) [
  | some pgid ↦ reap pgid slug ∷ []
  | none ↦ elim (worker_pid claim.pid) [ none ↦ [] | some pid ↦ reap pid slug ∷ [] ]
]

abbrev pub death_events : Scene → String → String → Claim → Option Pause → List Event
death_events s phase token claim pause =
    reported_event s.now phase claim ∷ (classified s phase token claim pause).events

-- The release, with the events in the same transaction; the effects follow it.
unfoldable pub report :
    Scene → String → String → String → Claim → Option Pause → Db → Result Outcome
unfolding op_release_claim classified
report s slug phase token claim pause current = if s.busy then leave current [] else (do
  wrote ←
      op_release_claim slug (some token) (some phase) (death_events s phase token claim pause)
        current
  leave wrote.1 (
      emit_coolant_stop s.coolant_enabled phase token
      ++ (worker_dead_inbox phase claim.pid
          ∷ (classified s phase token claim pause).notice
          ∷ reap_of slug claim)))

-- The pause row is written ahead of the release, and stays where the release is refused.
unfoldable pub on_claim :
    Scene → String → String → String → Claim → Option Pause → Db → Result Outcome × Option Pause
unfolding report classified
on_claim s slug phase token claim pause current =
    if claim.worker_death_reported then (leave current [], pause) else (
      report s slug phase token claim pause current,
      (classified s phase token claim pause).pause,
    )

abbrev pub on_checked :
    Scene
    → String
    → String
    → String
    → Result (Unit {0})
    → Option Claim
    → Option Pause
    → Db
    → Result Outcome × Option Pause
on_checked s slug phase token (err e) held pause current = (err e, pause)
on_checked s slug phase token (ok _) none pause current =
    (err (claim_mismatch no_active_claim), pause)
on_checked s slug phase token (ok _) (some claim) pause current =
    on_claim s slug phase token claim pause current

abbrev pub on_snapshot :
    Scene
    → String
    → String
    → String
    → Result Plan
    → Option Pause
    → Db
    → Result Outcome × Option Pause
on_snapshot s slug phase token (err e) pause current = (leave current [], pause)
on_snapshot s slug phase token (ok seen) pause current =
    on_checked s slug phase token (assert_claim_match seen.current_claim token phase)
      seen.current_claim pause current

abbrev pub translated : Db → Result Outcome × Option Pause → Result Outcome × Option Pause
translated current (r, pause) = (translate_claim_mismatch current r, pause)

-- `before` is the store of the snapshot, `current` that of the write, `pause` the project's pause
-- row.
unfoldable pub cmd_notify_worker_dead :
    Scene → String → String → String → Option Pause → Db → Db → Result Outcome × Option Pause
unfolding snapshot assert_claim_match on_claim
cmd_notify_worker_dead s slug phase token pause before current =
    if validate_slug slug
    then (if s.readable
        then translated current
            (on_snapshot s slug phase token (snapshot slug before) pause current)
        else (leave current [], pause))
    else (err invalid_slug, pause)
