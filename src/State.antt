-- ===== src/State.antt =====
-- The plan-state vocabulary of end_of_line/state.py: statuses, events, the claim, blockers, tasks
-- and the plan document that the supervisor and the store pass around.
pub mod Slug
pub mod Claims
pub mod Attempts
pub mod Idle
pub mod Blockers
use end_of_line.Shared.{
  ℕ, ◌*◌, ◌/◌, String, Option, none, some, List, [], Bool, false, ℕ_discrete, String-discrete, Eq,
}

-- An instant is a count of microseconds since the epoch, a datetime's resolution.
abbrev pub second : ℕ
second = 1000000

abbrev pub minute : ℕ
minute = 60000000

abbrev pub hour : ℕ
hour = 3600000000

-- A timestamp column: whole seconds in the program's own format, or a text that is no timestamp.
pub data Stamp : Type 0 where
  at : ℕ → Stamp
  garbled : String → Stamp

-- `now.strftime(_ISO_FMT)` drops the fraction of a second.
abbrev pub utcnow : ℕ → Stamp
utcnow now = at (now / second)

-- `none` is the ValueError of a text that is no timestamp.
abbrev pub parse_iso : Stamp → Option ℕ
parse_iso (at s) = some (s * second)
parse_iso (garbled text) = none

pub data Status : Type 0 where
  running paused halted halted_for_replan done : Status

pub data EventKind : Type 0 where
  phase_started phase_completed phase_blocked lease_expired claim_force_released : EventKind
  blocker_answered blocker_consumed blocker_sla_exceeded phase_max_attempts : EventKind
  task_spawned task_completed plan_completed plan_abandoned dispatch_failed : EventKind
  systemic_failure quota_death quota_paused quota_resumed phase_stalled : EventKind
  paused resumed retry_requested queue_popped queue_appended queue_rejected : EventKind
  stuck_blocker_repinged stalled_claim_notified heartbeat_loop_failing : EventKind
  worktree_missing worktree_conflict_warning worktree_attached worktree_cleaned : EventKind
  worktree_retained_ahead lease_extended attempts_reset operator_force_complete : EventKind
  verify_stamped simplify_stamped operator_skip_verify operator_skip_simplify : EventKind
  attestation_refused phase_orphan_reaped phase_worker_dead tool_stuck worker_idle : EventKind
  phase_worker_dead_reported verify_policy_skipped : EventKind

-- A payload value that no decision of the program reads back.
pub data Value : Type 0 where
  text : String → Value
  num : ℕ → Value
  flag : Bool → Value
  texts : List String → Value
  time : Stamp → Value
  null : Value

-- `{"ts": …, "type": …, **fields}`; `id` is 0 until the store has stamped the row id.
pub record Event : Type 0 where
  pub id : ℕ
  pub ts : Stamp
  pub kind : EventKind
  pub phase : Option String
  pub claimed_by : Option String
  pub token : Option String
  pub blocker_id : Option ℕ
  pub fields : List (String × Value)

pub record Sample : Type 0 where
  pub ts : Stamp
  pub cpu : ℕ

pub record QuietSpan : Type 0 where
  pub reason : String
  pub started_at : Stamp
  pub expires_at : Stamp

pub record Attestation : Type 0 where
  pub stamped_at : Stamp
  pub commit_sha : String

-- A key that a reader tells apart from its empty value (`[]`, `False`) is an `Option`.
pub record Claim : Type 0 where
  pub phase_id : String
  pub claimed_by : Option String
  pub lease_expires : Option Stamp
  pub started_at : Option Stamp
  pub last_heartbeat_at : Option Stamp
  pub attempts : ℕ
  pub head_sha_at_claim : Option String
  pub pid : Option ℕ
  pub pgid : Option ℕ
  pub log_path : Option String
  pub active_tool_started_at : Option Stamp
  pub cpu_samples : Option (List Sample)
  pub attestations : List (String × Attestation)
  pub quiet_span : Option QuietSpan
  pub stalled_notified : Bool
  pub worker_idle_notified : Option Bool
  pub worker_idle_notified_at : Option Stamp
  pub stuck_tool_emitted_at : Option (List (ℕ × Stamp))
  pub heartbeat_loop_failing_notified : Bool
  pub worker_death_reported : Bool
  pub worker_death_reported_at : Option Stamp

-- The text `q-n` of a blocker's id is represented by its number n, and `task-n` likewise.
pub record Blocker : Type 0 where
  pub id : ℕ
  pub phase_id : String
  pub kind : String
  pub question : String
  pub options : List String
  pub context : String
  pub asked_at : Stamp
  pub answer : Option String
  pub answered_at : Option Stamp
  pub consumed : Bool
  pub last_repinged_at : Option Stamp
  pub notify_metadata : List (String × String)

pub record Task : Type 0 where
  pub id : ℕ
  pub status : String
  pub source : Option String
  pub spawned_by_phase : Option String
  pub completed_at : Option Stamp

pub record PlanConfig : Type 0 where
  pub lease_ttl_minutes : Option ℕ
  pub blocked_question_sla_hours : Option ℕ
  pub max_attempts_per_phase : Option ℕ
  pub max_spawns_per_phase : Option ℕ
  pub max_queue_adds_per_phase : Option ℕ
  pub stalled_heartbeat_minutes : Option ℕ

-- One entry of `data["phases"]`: the per-phase lease override.
pub record PhaseEntry : Type 0 where
  pub id : String
  pub lease_ttl_minutes : Option ℕ

pub record Worktree : Type 0 where
  pub path : String
  pub branch : String
  pub base_ref : String

-- `gate_result`: the set of branch tips that a dry merge judged, and its verdict.
pub record GateResult : Type 0 where
  pub sha_key : String
  pub gate_ts : Stamp
  pub gate_batch : String
  pub outcome : String
  pub follow_up_plan : Option String

-- A value of the catch-all column `extra`: `in_conflict_with`, `ready_to_ship_announced`,
-- `gate_result` and `ship_pending` are the keys that the program writes.
pub data Extra : Type 0 where
  slugs : List String → Extra
  branch_sha : String → Extra
  gate : GateResult → Extra
  pending : String → Extra

pub record Plan : Type 0 where
  pub plan_slug : String
  pub plan_dir : String
  pub status : Status
  pub current_claim : Option Claim
  pub blockers : List Blocker
  pub spawned_tasks : List Task
  pub config : PlanConfig
  pub phases : List PhaseEntry
  pub events : List Event
  pub created_at : Stamp
  pub batch_id : Option String
  pub worktree : Option Worktree
  pub extra : List (String × Extra)

unfoldable pub Status-discrete : Discrete Status
Status-discrete = hlevel

instance abbrev pub status_eq : Eq Status
status_eq = record { dec = Status-discrete }

unfoldable pub EventKind-discrete : Discrete EventKind
EventKind-discrete = hlevel

instance abbrev pub kind_eq : Eq EventKind
kind_eq = record { dec = EventKind-discrete }

unfoldable pub OptionText-discrete : Discrete (Option String)
OptionText-discrete = hlevel String-discrete

instance abbrev pub option_text_eq : Eq (Option String)
option_text_eq = record { dec = OptionText-discrete }

-- `TERMINAL_STATUSES`
abbrev pub is_terminal : Status → Bool
is_terminal running = false
is_terminal _ = Bool.true

abbrev pub default_lease_ttl_min : ℕ
default_lease_ttl_min = 60

abbrev pub default_sla_hours : ℕ
default_sla_hours = 24

abbrev pub default_max_attempts : ℕ
default_max_attempts = 3

abbrev pub default_max_spawns_per_phase : ℕ
default_max_spawns_per_phase = 10

abbrev pub default_max_queue_adds_per_phase : ℕ
default_max_queue_adds_per_phase = 3

unfoldable pub empty_state : ℕ → String → String → Plan
empty_state now plan_slug plan_dir = record {
  plan_slug = plan_slug;
  plan_dir = plan_dir;
  status = running;
  current_claim = none;
  blockers = [];
  spawned_tasks = [];
  config = record {
    lease_ttl_minutes = some default_lease_ttl_min;
    blocked_question_sla_hours = some default_sla_hours;
    max_attempts_per_phase = some default_max_attempts;
    max_spawns_per_phase = some default_max_spawns_per_phase;
    max_queue_adds_per_phase = some default_max_queue_adds_per_phase;
    stalled_heartbeat_minutes = none;
  };
  phases = [];
  events = [];
  created_at = utcnow now;
  batch_id = none;
  worktree = none;
  extra = [];
}

-- An event with no payload beyond its kind; the callers fill in the fields that they name.
abbrev pub event : ℕ → EventKind → Event
event now kind = record {
  id = 0;
  ts = utcnow now;
  kind = kind;
  phase = none;
  claimed_by = none;
  token = none;
  blocker_id = none;
  fields = [];
}
