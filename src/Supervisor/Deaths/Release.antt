-- ===== src/Supervisor/Deaths/Release.antt =====
-- The deaths of a claim: the release, its quota harvest, the single stall alert.
use end_of_line.Shared.{
  ℕ, String, Option, none, some, true, false, ◌≡◌, ◌≢◌, ◌⊎◌, ◌↔◌, inl, inr, arith, Bool-cases,
  Option-cases,
}
use end_of_line.State.{Claim}
use end_of_line.State.Claims.{lease_past}
use end_of_line.Quota.{Pause}
use end_of_line.Store.Fields.{FieldName, write_fields, write_field}
use end_of_line.Supervisor.Delta.{require_claim, require_claim_field}
use end_of_line.Supervisor.Watchdogs.{worker_pid}
use end_of_line.Supervisor.Work.{
  Work, World, Config, delta_event, carry_events, stamp_claim, release,
}
use end_of_line.Supervisor.Deaths.{
  Action, Decision, harvest, on_lease_expired, on_worker_dead, detect_death, is_newly_stalled,
  report_stalled, detect_stalled,
}

-- The conclusion of `detect_stalled_once`.
abbrev pub IsStalledOnce : ℕ → Option Pause → Work → Decision → Type 0
IsStalledOnce later pause w d =
    (d.outcome.action ≡ Action.stalled)
    × (detect_stalled later pause d.work ≡ none)
    × (d.work.delta.release_claim ≡ w.delta.release_claim)

-- A stall is reported once: on the plan that a report leaves, the step reports nothing more,
-- whatever its clock says; and it does not give the claim up.
pub detect_stalled_once :
    (now later : ℕ) (pause : Option Pause) (w : Work) (d : Decision)
    → detect_stalled now pause w ≡ some d
    → IsStalledOnce later pause w d
unfolding detect_stalled report_stalled delta_event stamp_claim is_newly_stalled require_claim_field
    write_fields write_field
detect_stalled_once now later pause w d h = elim (Option-cases w.plan.current_claim) [
  | inl n ↦ ground arith
  | inr (c, y) ↦ ground arith
]

-- The lease is past, or the worker's pid does not answer the probe.
abbrev pub IsDead : World → String → Claim → Type 0
IsDead world slug claim =
    (lease_past world.now claim ≡ true)
    ⊎ ((pid : ℕ) × ((worker_pid claim.pid ≡ some pid) × (world.worker_alive claim slug ≡ false)))

-- A tick finds a claim dead exactly when its lease is past, or its worker has a pid that does not
-- answer the probe: a live worker inside its lease, and one whose pid is not stamped yet, keep it.
pub detect_death-IsDead :
    (cfg : Config) (world : World) (pause : Option Pause) (w : Work) (claim : Claim)
    → w.plan.current_claim ≡ some claim
    → (detect_death cfg world pause w ≢ none) ↔ IsDead world w.plan.plan_slug claim
unfolding detect_death
detect_death-IsDead cfg world pause w claim h = elim (Bool-cases (lease_past world.now claim)) [
  | inl y ↦ (λ _. inl y, λ _. ground arith)
  | inr n ↦ elim (Option-cases (worker_pid claim.pid)) [
    | inl z ↦ ground arith
    | inr (pid, z) ↦ elim (Bool-cases (world.worker_alive claim w.plan.plan_slug)) [
      | inl a ↦ ground arith
      | inr a ↦ (λ _. inr (pid, (z, a)), λ _. ground arith)
    ]
  ]
]

keeps_observed :
    (world : World) (claim : Claim) (pause : Option Pause) (w : Work)
    → ((harvest world claim (world.classify_log_tail claim.log_path) pause w).0.delta.pre
        ≡ w.delta.pre)
      × ((harvest world claim (world.classify_log_tail claim.log_path) pause w).0.delta.observed
          ≡ w.delta.observed)
      × ((harvest world claim
            (world.classify_log_tail claim.log_path)
            pause
            w).0.delta.release_claim
          ≡ w.delta.release_claim)
      × ((harvest world claim (world.classify_log_tail claim.log_path) pause w).0.plan.current_claim
          ≡ w.plan.current_claim)
unfolding harvest carry_events
keeps_observed world claim pause w = ground arith

-- The conclusion of `detect_death-release`.
abbrev pub IsReleased : Work → Decision → Type 0
IsReleased w d =
    (d.work.delta.release_claim ≡ true)
    × (d.work.plan.current_claim ≡ none)
    × (d.work.delta.pre.expect_claim ≡ w.delta.observed.expect_claim)
    × ((d.outcome.action ≡ Action.worker_dead)
          × (d.work.delta.pre.expect_claim_fields ≡ w.delta.pre.expect_claim_fields)
        ⊎ (d.outcome.action ≡ Action.lease_expired)
          × ((require_claim_field FieldName.lease_expires w.delta).pre.expect_claim_fields
              ≡ d.work.delta.pre.expect_claim_fields))

-- A release gives the claim up in the delta and in the working copy, under the claim that the
-- snapshot showed. Of the claim's fields a dead worker's release judges none, and an expired
-- lease's release judges the lease alone.
pub detect_death-release :
    (cfg : Config) (world : World) (pause : Option Pause) (w : Work) (d : Decision)
    → detect_death cfg world pause w ≡ some d
    → IsReleased w d
unfolding detect_death on_lease_expired on_worker_dead delta_event release require_claim
    require_claim_field
detect_death-release cfg world pause w d h = elim (Option-cases w.plan.current_claim) [
  | inl n ↦ ground arith
  | inr (c, y) ↦ ground (arith, keeps_observed world c pause w)
]
