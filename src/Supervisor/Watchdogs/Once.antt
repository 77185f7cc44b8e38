-- ===== src/Supervisor/Watchdogs/Once.antt =====
-- Each emitter reports once.
use end_of_line.Shared.{
  ℕ, ◌-◌, ◌/◌, ◌<◌, some, List, [], ◌∷◌, ◌++◌, Bool, true, false, ◌≡◌, refl, arith, nat_eq, not,
  ◌&&◌,
}
use end_of_line.State.{Claim, Stamp, running, utcnow, minute}
use end_of_line.State.Idle.{quiet_span_active, worker_idle_window_satisfied}
use end_of_line.Store.Fields.{write_field, write_fields}
use end_of_line.Supervisor.Delta.{require_claim_field}
use end_of_line.Supervisor.Tree.{Proc}
use end_of_line.Supervisor.Work.{Work, Notice, Config, delta_event, stamp_claim, record_claim}
use end_of_line.Supervisor.Watchdogs.{
  emit_stalled_claim_notify, is_stuck, report_stuck, report_idle, is_idle, lease_of,
  tool_stuck_already_emitted, mark_worker_idle_emitted, mark_tool_stuck_emitted, has_key,
  emitted_at,
}

-- The claim of a running plan that is past its lease and was not announced yet is announced once:
-- one notification is added, and a later run of the emitter on the plan that is left, at any time,
-- changes nothing.
pub stalled_claim_once :
    (now later : ℕ) (w : Work) (c : Claim) (expires : ℕ)
    → w.plan.current_claim ≡ some c
    → lease_of c ≡ some expires
    → expires < now
    → w.plan.status ≡ running
    → c.stalled_notified ≡ false
    → ((emit_stalled_claim_notify now w).side_notifies
        ≡ w.side_notifies ++ Notice.stalled_claim c.phase_id ((now - expires) / minute) ∷ [])
      × (emit_stalled_claim_notify later (emit_stalled_claim_notify now w)
          ≡ emit_stalled_claim_notify now w)
unfolding emit_stalled_claim_notify delta_event stamp_claim require_claim_field write_fields
    write_field
stalled_claim_once now later w c expires h l p r n = ground arith

has_key-append :
    (pid : ℕ) (ts : Stamp) (xs : List (ℕ × Stamp)) → has_key pid (xs ++ (pid, ts) ∷ []) ≡ true
has_key-append pid ts [] = ground arith
has_key-append pid ts ((p, t) ∷ xs) = ground (arith, has_key-append pid ts xs)

-- The conclusion of `report_stuck_once`.
abbrev pub IsReportedOnce : Config → ℕ → ℕ → ℕ → ℕ → Claim → Proc → Proc → Work → Type 0
IsReportedOnce cfg now later pid active c d e w =
    (after : Claim) × (((report_stuck now pid c d w).plan.current_claim ≡ some after)
      × (is_stuck cfg later active after e ≡ false))

-- A subprocess is reported once per claim: whatever clock, window or process table comes later, a
-- process of that pid is not stuck again for the claim that the report leaves.
pub report_stuck_once :
    (cfg : Config) (now later pid active : ℕ) (c : Claim) (d e : Proc) (w : Work)
    → e.pid ≡ d.pid
    → IsReportedOnce cfg now later pid active c d e w
unfolding report_stuck is_stuck tool_stuck_already_emitted delta_event record_claim
    require_claim_field
report_stuck_once cfg now later pid active c d e w h = (
  mark_tool_stuck_emitted d.pid (utcnow now) c,
  (refl, ground (arith, h, has_key-append d.pid (utcnow now) (emitted_at c))),
)

and_false_right : (a b : Bool) → a && b && false ≡ false
and_false_right a b = ground arith

-- The conclusion of `report_idle_once`.
abbrev pub IsQuietAfter : Config → ℕ → ℕ → ℕ → Claim → Work → Type 0
IsQuietAfter cfg now later pid c w =
    (after : Claim) × (((report_idle now pid c w).plan.current_claim ≡ some after)
      × (is_idle cfg later after ≡ false))

-- An idle worker is reported once per claim.
pub report_idle_once :
    (cfg : Config) (now later pid : ℕ) (c : Claim) (w : Work) → IsQuietAfter cfg now later pid c w
unfolding report_idle is_idle delta_event record_claim require_claim_field
report_idle_once cfg now later pid c w = (
  mark_worker_idle_emitted now c,
  (
    refl,
    and_false_right (not (quiet_span_active (mark_worker_idle_emitted now c) later)) (
        worker_idle_window_satisfied (mark_worker_idle_emitted now c) later
          cfg.worker_idle_min_samples cfg.worker_idle_window cfg.worker_idle_max_sample_gap
          cfg.worker_idle_cpu_delta_threshold),
  ),
)
