-- ===== src/Supervisor/Deaths.antt =====
-- The first half of the chain in `tick` of end_of_line/supervisor.py: a claim past its lease, a dead
-- worker, and `_detect_stalled`.
pub mod Release
use end_of_line.Shared.{
  ℕ, ◌+◌, ◌*◌, ◌-◌, String, Option, none, some, List, [], ◌∷◌, ◌++◌, Bool, true, false, ◌&&◌, ◌||◌,
  not, if◌then◌else◌, ◌==◌, nat_eq, string_eq, leb, Eq, ℕ_discrete, String-discrete,
}
use end_of_line.State.{
  Plan, Claim, Stamp, Status, Value, num, minute, event, EventKind, phase_worker_dead,
  phase_stalled, option_text_eq,
}
use end_of_line.State.Claims.{
  get_or_default, lease_past, lease_expired_event, last_beat, stalled_threshold_for_phase,
}
use end_of_line.Quota.{QuotaMatch, Pause, Death, GateDetail, record_quota_death}
use end_of_line.Store.Fields.{ClaimField, FieldName}
use end_of_line.Supervisor.Delta.{require_claim, require_claim_field}
use end_of_line.Supervisor.Watchdogs.{worker_pid}
use end_of_line.Supervisor.Work.{
  Work, Notice, World, Config, on_delta, delta_event, carry_events, stamp_claim, notify, release,
}

pub data Action : Type 0 where
  dispatch idle lease_expired worker_dead escalate blocker_resumed halt plan_done error stalled :
      Action

-- What a result's text is rendered from.
pub data Detail : Type 0 where
  blank no_state concurrent_write no_sessions_index none_dispatchable : Detail
  death : String → Option String → Detail
  stalled_for : String → ℕ → Detail
  blocker_aged consumed_blocker pinned_by : ℕ → Detail
  plan_status : Status → Detail
  in_flight : String → Option Stamp → Detail
  attempts_used : String → ℕ → Detail
  gate : GateDetail → Detail
  completed : String → Detail
  tasks_pending : ℕ → Detail
  claimed : String → String → Detail

-- The body of the notification that an action sends on its own behalf.
pub data Body : Type 0 where
  stalled_body : String → ℕ → Body
  worker_dead_body : String → ℕ → Body
  halted_body : String → ℕ → Body
  completed_body : String → Body

pub record TickResult : Type 0 where
  pub action : Action
  pub detail : Detail
  pub phase_id : Option String
  pub token : Option String
  pub notify_body : Option Body

abbrev pub result : Action → Detail → TickResult
result action detail = record {
  action = action;
  detail = detail;
  phase_id = none;
  token = none;
  notify_body = none;
}

-- Work that must not run until the apply has committed.
pub data AfterCommit : Type 0 where
  emit_stop : String → String → AfterCommit
  reap_and_record : ℕ → String → ℕ → AfterCommit
  reap_quietly : ℕ → AfterCommit

-- What one pass of the chain decided; `pause` is the project's quota row, which the quota module
-- writes in transactions of its own.
pub record Decision : Type 0 where
  pub work : Work
  pub outcome : TickResult
  pub post_commit : List AfterCommit
  pub pause : Option Pause

abbrev signature_of : Option QuotaMatch → Option String
signature_of none = none
signature_of (some found) = some found.signature

-- The harvest of a quota death: the events ride the delta, the pause row does not.
unfoldable pub harvest :
    World → Claim → Option QuotaMatch → Option Pause → Work → Work × Option Pause
unfolding record_quota_death carry_events
harvest world claim none pause w = (w, pause)
harvest world claim (some found) pause w =
    let d =
      record_quota_death world.now found (world.parse_reset found) claim.phase_id claim.claimed_by
        pause in
    (notify (Notice.quota_pause found.line d.paused_until) (carry_events d.events w), d.pause)

abbrev stop_steps : Config → Claim → List AfterCommit
stop_steps cfg claim = elim claim.claimed_by [
  | none ↦ []
  | some token ↦
      if cfg.coolant_enabled && not (token == "") && not (claim.phase_id == "")
      then emit_stop token claim.phase_id ∷ []
      else []
]

-- `claim.get("pgid") or pid`
abbrev group_of : Claim → ℕ → ℕ
group_of claim pid = get_or_default pid (worker_pid claim.pgid)

abbrev reap_steps : Claim → List AfterCommit
reap_steps claim = elim (worker_pid claim.pid) [
  | none ↦ []
  | some pid ↦ reap_and_record (group_of claim pid) claim.phase_id pid ∷ []
]

unfoldable pub on_lease_expired : Config → World → Claim → Option Pause → Work → Decision
unfolding delta_event release harvest require_claim require_claim_field
on_lease_expired cfg world claim pause w =
    let judged = on_delta (λ d. require_claim_field FieldName.lease_expires (require_claim d)) w in
    let released = release (delta_event (lease_expired_event world.now claim) judged) in
    let found = world.classify_log_tail claim.log_path in
    let (after, pause') = harvest world claim found pause released in
    record {
      work = after;
      outcome = result Action.lease_expired (death claim.phase_id (signature_of found));
      post_commit = stop_steps cfg claim ++ reap_steps claim;
      pause = pause';
    }

abbrev dead_body : Claim → ℕ → Option QuotaMatch → Option Body
dead_body claim pid none =
    if claim.worker_death_reported then none else some (worker_dead_body claim.phase_id pid)
dead_body claim pid (some found) = none

unfoldable pub on_worker_dead : Config → World → Claim → ℕ → Option Pause → Work → Decision
unfolding delta_event release harvest require_claim
on_worker_dead cfg world claim pid pause w =
    let found = world.classify_log_tail claim.log_path in
    let (harvested, pause') = harvest world claim found pause w in
    let dead = record (event world.now phase_worker_dead) {
      phase = some claim.phase_id;
      fields = ("pid", num pid) ∷ [];
    } in
    record {
      work = release (delta_event dead (on_delta require_claim harvested));
      outcome = record {
        action = Action.worker_dead;
        detail = death claim.phase_id (signature_of found);
        phase_id = some claim.phase_id;
        token = claim.claimed_by;
        notify_body = dead_body claim pid found;
      };
      post_commit = stop_steps cfg claim ++ reap_quietly (group_of claim pid) ∷ [];
      pause = pause';
    }

-- The two deaths of a claim: the lease first, then the probe of the worker's pid.
unfoldable pub detect_death : Config → World → Option Pause → Work → Option Decision
unfolding on_lease_expired on_worker_dead
detect_death cfg world pause w = elim w.plan.current_claim [
  | none ↦ none
  | some claim ↦
      if lease_past world.now claim
      then some (on_lease_expired cfg world claim pause w)
      else elim (worker_pid claim.pid) [
        | none ↦ none
        | some pid ↦
            if world.worker_alive claim w.plan.plan_slug
            then none
            else some (on_worker_dead cfg world claim pid pause w)
      ]
]

unfoldable pub OptionStamp-discrete : Discrete (Option Stamp)
OptionStamp-discrete = hlevel (ℕ_discrete, String-discrete)

instance abbrev pub stamp_eq : Eq (Option Stamp)
stamp_eq = record { dec = OptionStamp-discrete }

-- `age >= threshold * 60`, where an age that cannot be read counts as 0.
abbrev aged : ℕ → ℕ → Option ℕ → Bool
aged now threshold none = threshold == 0
aged now threshold (some last) = leb (last + threshold * minute) now

abbrev age_of : ℕ → Option ℕ → ℕ
age_of now none = 0
age_of now (some last) = now - last

unfoldable pub report_stalled : ℕ → Claim → Option Pause → Work → Decision
unfolding delta_event stamp_claim require_claim_field
report_stalled now claim pause w =
    let age = age_of now (last_beat claim) in
    let judged =
      on_delta
        (λ d.
          require_claim_field FieldName.stalled_notified
            (require_claim_field FieldName.last_heartbeat_at d))
        w in
    let stamped = stamp_claim claim (ClaimField.stalled_notified true ∷ []) judged in
    let evt = record (event now phase_stalled) {
      phase = some claim.phase_id;
      claimed_by = claim.claimed_by;
      fields = ("age_seconds", num age) ∷ [];
    } in
    record {
      work = delta_event evt stamped;
      outcome = record {
        action = Action.stalled;
        detail = stalled_for claim.phase_id age;
        phase_id = some claim.phase_id;
        token = claim.claimed_by;
        notify_body = some (stalled_body claim.phase_id age);
      };
      post_commit = [];
      pause = pause;
    }

-- A worker that never sent a heartbeat is left to its lease.
unfoldable pub is_newly_stalled : ℕ → Plan → Claim → Bool
unfolding stalled_threshold_for_phase last_beat
is_newly_stalled now plan claim =
    not claim.stalled_notified
    && not (claim.last_heartbeat_at == claim.started_at)
    && aged now (stalled_threshold_for_phase plan claim.phase_id) (last_beat claim)

unfoldable pub detect_stalled : ℕ → Option Pause → Work → Option Decision
unfolding is_newly_stalled report_stalled
detect_stalled now pause w = elim w.plan.current_claim [
  | none ↦ none
  | some claim ↦
      if is_newly_stalled now w.plan claim then some (report_stalled now claim pause w) else none
]
