-- ===== src/Supervisor/Watchdogs.antt =====
-- The four gap-fill emitters of end_of_line/supervisor.py, which run before the priority chain: the
-- claim past its lease, the blocker to ping again, the stuck tool and the idle worker.
pub mod Frame
pub mod Once
use end_of_line.Shared.{
  ℕ, zero, suc, ◌+◌, ◌*◌, ◌-◌, ◌/◌, String, Option, none, some, List, [], ◌∷◌, ◌++◌, Bool, true,
  false, ◌&&◌, ◌||◌, not, if◌then◌else◌, ◌==◌, nat_eq, ltb, leb, length,
}
use end_of_line.State.{
  Plan, Claim, Blocker, Sample, Stamp, Status, running, status_eq, Value, num, utcnow, parse_iso,
  second, minute, event, stalled_claim_notified, stuck_blocker_repinged, tool_stuck, worker_idle,
}
use end_of_line.State.Idle.{
  samples_of, append_cpu_sample, activity_marker_suppresses, quiet_span_active,
  worker_idle_window_satisfied,
}
use end_of_line.State.Blockers.{stuck_blocker_repings}
use end_of_line.State.Claims.{get_or_default}
use end_of_line.Store.Fields.{ClaimField, FieldName}
use end_of_line.Supervisor.Delta.{
  InboxEvent, last_repinged_at, require_claim_field, require_blocker,
}
use end_of_line.Supervisor.Tree.{Proc, walk_worker_tree}
use end_of_line.Supervisor.Work.{
  Work, Notice, World, Config, on_delta, delta_event, stamp_claim, record_claim, stamp_blocker,
  notify, to_inbox,
}

-- `expires < now` with the claim's lease, or `none` where the lease cannot be read.
abbrev lease_of : Claim → Option ℕ
lease_of claim = elim claim.lease_expires [ none ↦ none | some ts ↦ parse_iso ts ]

abbrev minutes_since : ℕ → ℕ → ℕ
minutes_since now t = (now - t) / minute

abbrev notify_stalled : ℕ → Claim → ℕ → Work → Work
notify_stalled now claim expires w =
    let age_min = minutes_since now expires in
    let judged =
      on_delta
        (λ d.
          require_claim_field FieldName.stalled_notified
            (require_claim_field FieldName.lease_expires d))
        w in
    let stamped = stamp_claim claim (ClaimField.stalled_notified true ∷ []) judged in
    let logged =
      delta_event
        (record (event now stalled_claim_notified) {
          phase = some claim.phase_id;
          fields = ("stalled_min", num age_min) ∷ [];
        })
        stamped in
    to_inbox (InboxEvent.stalled_claim claim.phase_id age_min)
      (notify (Notice.stalled_claim claim.phase_id age_min) logged)

unfoldable pub emit_stalled_claim_notify : ℕ → Work → Work
unfolding delta_event stamp_claim require_claim_field
emit_stalled_claim_notify now w = elim w.plan.current_claim [
  | none ↦ w
  | some claim ↦
      if not (w.plan.status == running) || claim.stalled_notified
      then w
      else elim (lease_of claim) [
        | none ↦ w
        | some expires ↦ if leb now expires then w else notify_stalled now claim expires w
      ]
]

abbrev asked_min : ℕ → Blocker → ℕ
asked_min now b = elim (parse_iso b.asked_at) [ none ↦ 0 | some t ↦ minutes_since now t ]

-- One re-ping; the blocker's own row is stamped, so that the next one waits.
unfoldable pub reping : ℕ → Blocker → Work → Work
unfolding delta_event stamp_blocker require_blocker
reping now b w =
    let stamped =
      stamp_blocker b.id (last_repinged_at (utcnow now)) (on_delta (require_blocker b.id) w) in
    let logged =
      delta_event
        (record (event now stuck_blocker_repinged) {
          phase = some b.phase_id;
          blocker_id = some b.id;
          fields = ("age_min", num (asked_min now b)) ∷ [];
        })
        stamped in
    to_inbox (InboxEvent.stuck_blocker b.id b.phase_id (asked_min now b))
      (notify (Notice.stuck_blocker b.id) logged)

unfoldable pub reping_all : ℕ → List Blocker → Work → Work
reping_all now [] w = w
reping_all now (b ∷ rest) w = reping_all now rest (reping now b w)

unfoldable pub emit_stuck_blocker_repings : ℕ → Work → Work
emit_stuck_blocker_repings now w = reping_all now (stuck_blocker_repings now w.plan) w

-- `if not pid`
abbrev pub worker_pid : Option ℕ → Option ℕ
worker_pid none = none
worker_pid (some pid) = if pid == 0 then none else some pid

abbrev emitted_at : Claim → List (ℕ × Stamp)
emitted_at claim = get_or_default [] claim.stuck_tool_emitted_at

abbrev has_key : ℕ → List (ℕ × Stamp) → Bool
has_key pid [] = false
has_key pid ((p, ts) ∷ rest) = p == pid || has_key pid rest

unfoldable pub tool_stuck_already_emitted : Claim → ℕ → Bool
tool_stuck_already_emitted claim pid = has_key pid (emitted_at claim)

abbrev stuck_tool_drift : ℕ
stuck_tool_drift = 5000000

-- The four tests of the loop, with the marker's instant moved to the other side.
unfoldable pub is_stuck : Config → ℕ → ℕ → Claim → Proc → Bool
unfolding tool_stuck_already_emitted
is_stuck cfg now active_at claim d =
    leb (d.elapsed + active_at) (now + stuck_tool_drift)
    && leb cfg.stuck_tool_threshold d.elapsed
    && leb d.cpu cfg.stuck_tool_cpu_threshold
    && not (tool_stuck_already_emitted claim d.pid)

abbrev mark_tool_stuck_emitted : ℕ → Stamp → Claim → Claim
mark_tool_stuck_emitted pid ts claim = record claim {
  stuck_tool_emitted_at = some (emitted_at claim ++ (pid, ts) ∷ []);
}

abbrev judged_stuck : Work → Work
judged_stuck w =
    on_delta
      (λ d. require_claim_field FieldName.stuck_tool_emitted_at (
        require_claim_field FieldName.quiet_span
          (require_claim_field FieldName.active_tool_started_at d)))
      w

unfoldable pub report_stuck : ℕ → ℕ → Claim → Proc → Work → Work
unfolding delta_event record_claim require_claim_field
report_stuck now pid claim d w =
    let marked =
      record_claim (mark_tool_stuck_emitted d.pid (utcnow now) claim)
        (FieldName.stuck_tool_emitted_at ∷ []) (judged_stuck w) in
    to_inbox (InboxEvent.tool_stuck claim.phase_id pid d.pid) (
      delta_event
        (record (event now tool_stuck) {
          phase = some claim.phase_id;
          fields =
              ("worker_pid", num pid)
              ∷ ("descendant_pid", num d.pid)
              ∷ ("command", Value.text d.command)
              ∷ ("elapsed_seconds", num (d.elapsed / second))
              ∷ ("cpu_seconds", num d.cpu)
              ∷ [];
        })
        marked)

-- The claim is read again on every round, since a report edits it.
unfoldable pub stuck_loop : Config → ℕ → ℕ → ℕ → List Proc → Work → Work
unfolding is_stuck report_stuck
stuck_loop cfg now pid active_at [] w = w
stuck_loop cfg now pid active_at (d ∷ rest) w = elim w.plan.current_claim [
  | none ↦ w
  | some claim ↦
      stuck_loop cfg now pid active_at rest
        (if is_stuck cfg now active_at claim d then report_stuck now pid claim d w else w)
]

abbrev stuck_window : Claim → Option (ℕ × ℕ)
stuck_window claim = elim (worker_pid claim.pid) [
  | none ↦ none
  | some pid ↦ elim claim.active_tool_started_at [
    | none ↦ none
    | some marker ↦ elim (parse_iso marker) [ none ↦ none | some t ↦ some (pid, t) ]
  ]
]

unfoldable pub emit_stuck_tool : Config → World → Work → Work
unfolding stuck_loop walk_worker_tree
emit_stuck_tool cfg world w =
    if cfg.stuck_tool_threshold == 0 then w else elim w.plan.current_claim [
      | none ↦ w
      | some claim ↦ elim (stuck_window claim) [
        | none ↦ w
        | some (pid, active_at) ↦
            stuck_loop cfg world.now pid active_at (walk_worker_tree pid world.tool_procs) w
      ]
    ]

abbrev cpu_of : ℕ → List Proc → Option ℕ
cpu_of pid [] = none
cpu_of pid (p ∷ rest) = let later = cpu_of pid rest in if p.pid == pid then some p.cpu else later

abbrev sum_cpu : List Proc → ℕ
sum_cpu [] = 0
sum_cpu (p ∷ rest) = p.cpu + sum_cpu rest

-- The root's own line and its descendants come from one snapshot; without the root's line there is
-- no sample.
unfoldable pub sample_tree : Config → World → ℕ → Claim → Work → Claim × Work
unfolding append_cpu_sample record_claim require_claim_field walk_worker_tree
sample_tree cfg world pid claim w = elim (cpu_of pid world.idle_procs) [
  | none ↦ (claim, w)
  | some root_cpu ↦
      let total = root_cpu + sum_cpu (walk_worker_tree pid world.idle_procs) in
      let sampled =
        append_cpu_sample claim total world.now
          (cfg.worker_idle_window + cfg.worker_idle_max_sample_gap) in
      (
        sampled,
        record_claim sampled (FieldName.cpu_samples ∷ [])
            (on_delta (require_claim_field FieldName.cpu_samples) w),
      )
]

abbrev low_cpu_for : ℕ → List Sample → ℕ
low_cpu_for now [] = 0
low_cpu_for now (s ∷ rest) = elim (parse_iso s.ts) [ none ↦ 0 | some t ↦ now - t ]

abbrev pub already_idle : Claim → Bool
already_idle claim = get_or_default false claim.worker_idle_notified

abbrev mark_worker_idle_emitted : ℕ → Claim → Claim
mark_worker_idle_emitted now claim = record claim {
  worker_idle_notified = some true;
  worker_idle_notified_at = some (utcnow now);
}

unfoldable pub report_idle : ℕ → ℕ → Claim → Work → Work
unfolding delta_event record_claim require_claim_field
report_idle now pid claim w =
    let low = low_cpu_for now (samples_of claim) in
    let judged =
      on_delta
        (λ d. require_claim_field FieldName.worker_idle_notified (
          require_claim_field FieldName.quiet_span
            (require_claim_field FieldName.active_tool_started_at d)))
        w in
    let marked =
      record_claim (mark_worker_idle_emitted now claim)
        (FieldName.worker_idle_notified ∷ FieldName.worker_idle_notified_at ∷ []) judged in
    let logged =
      delta_event
        (record (event now worker_idle) {
          phase = some claim.phase_id;
          fields = ("pid", num pid) ∷ ("low_cpu", num low) ∷ [];
        })
        marked in
    to_inbox (InboxEvent.worker_idle claim.phase_id pid)
      (notify (Notice.worker_idle claim.phase_id pid low) logged)

-- What silences the alert once the sample is in: a declared span, a window that shows work, or an
-- alert for this claim before.
unfoldable pub is_idle : Config → ℕ → Claim → Bool
is_idle cfg now claim =
    not (quiet_span_active claim now)
    && worker_idle_window_satisfied claim now cfg.worker_idle_min_samples cfg.worker_idle_window
        cfg.worker_idle_max_sample_gap cfg.worker_idle_cpu_delta_threshold
    && not (already_idle claim)

abbrev report_if_idle : Config → ℕ → ℕ → Claim × Work → Work
report_if_idle cfg now pid (claim, w) =
    if is_idle cfg now claim then report_idle now pid claim w else w

unfoldable pub emit_worker_idle : Config → World → Work → Work
unfolding sample_tree is_idle report_idle
emit_worker_idle cfg world w = elim w.plan.current_claim [
  | none ↦ w
  | some claim ↦ elim (worker_pid claim.pid) [
    | none ↦ w
    | some pid ↦
        if activity_marker_suppresses claim world.now cfg.stuck_tool_threshold
        then w
        else report_if_idle cfg world.now pid (sample_tree cfg world pid claim w)
  ]
]

-- The order in which the tick runs them.
unfoldable pub gap_fill : Config → World → Work → Work
unfolding emit_stalled_claim_notify emit_stuck_blocker_repings emit_stuck_tool emit_worker_idle
gap_fill cfg world w = emit_worker_idle cfg world (
    emit_stuck_tool cfg world
      (emit_stuck_blocker_repings world.now (emit_stalled_claim_notify world.now w)))
