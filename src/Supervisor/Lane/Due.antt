-- ===== src/Supervisor/Lane/Due.antt =====
-- The choice of the next phase: when a tick dispatches, what it dispatches, and what ends a plan.
use end_of_line.Shared.{
  ℕ, ◌≤◌, ◌<◌, String, Option, none, some, List, [], ◌∷◌, ◌++◌, true, false, ◌≡◌, ◌≢◌, inl, inr,
  arith, ap, ◌∙◌, sym, Bool-cases, Option-cases, nat_eq, string_eq, leb, all,
}
use end_of_line.State.{Plan, running, paused, halted, status_eq}
use end_of_line.State.Attempts.{attempts_for_phase}
use end_of_line.State.Blockers.{open_blockers}
use end_of_line.Quota.{Pause, GateDecision, gate_decision}
use end_of_line.Supervisor.Delta.{require_blocker, require_claim, require_event_log, require_status}
use end_of_line.Supervisor.Deaths.{Action, Decision}
use end_of_line.Supervisor.Work.{Work, World, delta_event, set_status}
use end_of_line.Supervisor.Lane.{
  max_attempts, first_due, try_phase, on_exhausted, on_gate, choose_phase, wind_down, on_done,
  dispatch_of, settle, overdue, on_overdue, escalate, is_skipped,
}

abbrev pub gate_of : World → Option Pause → Plan → GateDecision × Option Pause
gate_of world pause plan = gate_decision world.gate_access plan.plan_slug world.now pause

-- The dispatch of that phase with what the gate returned.
abbrev pub dispatches : World → String → Option Pause → Work → Decision
dispatches world phase pause w =
    dispatch_of world.now phase (gate_of world pause w.plan).0.resumed
      (gate_of world pause w.plan).1 w

-- The first phase in plan order that is neither completed nor blocked, with attempts left, and
-- with the quota gate open.
abbrev pub IsDue : World → Option Pause → Plan → String → Type 0
IsDue world pause plan phase =
    (first_due plan world.phases ≡ some phase)
    × (attempts_for_phase plan phase < max_attempts plan)
    × ((gate_of world pause plan).0.dispatch ≡ true)

on_gate-dispatch :
    (now : ℕ) (phase : String) (w : Work) (g : GateDecision × Option Pause)
    → (on_gate now phase w g).outcome.action ≡ Action.dispatch
    → (g.0.dispatch ≡ true) × (on_gate now phase w g ≡ dispatch_of now phase g.0.resumed g.1 w)
on_gate-dispatch now phase w (decision, pause) h = elim (Bool-cases decision.dispatch) [
  | inl y ↦ ground arith
  | inr n ↦ ground arith
]

try_phase-dispatch :
    (world : World) (phase : String) (pause : Option Pause) (w : Work)
    → (try_phase world phase pause w).outcome.action ≡ Action.dispatch
    → (attempts_for_phase w.plan phase < max_attempts w.plan)
      × ((gate_of world pause w.plan).0.dispatch ≡ true)
      × (try_phase world phase pause w ≡ dispatches world phase pause w)
unfolding try_phase on_exhausted
try_phase-dispatch world phase pause w h =
    elim (Bool-cases (leb (max_attempts w.plan) (attempts_for_phase w.plan phase))) [
      | inl y ↦ ground arith
      | inr n ↦ ground (arith, on_gate-dispatch world.now phase w (gate_of world pause w.plan))
    ]

wind_down-not_dispatch :
    (world : World) (pause : Option Pause) (w : Work)
    → (wind_down world pause w).outcome.action ≢ Action.dispatch
unfolding wind_down on_done
wind_down-not_dispatch world pause w h = ground arith

choose_phase-try_phase :
    (world : World) (phase : String) (pause : Option Pause) (w : Work)
    → first_due w.plan world.phases ≡ some phase
    → choose_phase world pause w ≡ try_phase world phase pause w
unfolding choose_phase first_due
choose_phase-try_phase world phase pause w h = ground arith

choose_phase-dispatch :
    (world : World) (pause : Option Pause) (w : Work)
    → (choose_phase world pause w).outcome.action ≡ Action.dispatch
    → (phase : String) × (IsDue world pause w.plan phase
        × (choose_phase world pause w ≡ dispatches world phase pause w))
unfolding choose_phase
choose_phase-dispatch world pause w h = elim (Option-cases (first_due w.plan world.phases)) [
  | inl n ↦ absurd (ground (arith, wind_down-not_dispatch world pause w))
  | inr (phase, y) ↦
      let same = choose_phase-try_phase world phase pause w y in
      let t = try_phase-dispatch world phase pause w (ap (λ d. d.outcome.action) (sym same) ∙ h) in
      (phase, ((y, t.0, t.1), same ∙ t.2))
]

settle-choose_phase :
    (world : World) (pause : Option Pause) (w : Work)
    → (settle world pause w).outcome.action ≡ Action.dispatch
    → (w.plan.status ≡ running)
      × (w.plan.current_claim ≡ none)
      × (open_blockers w.plan ≡ [])
      × (settle world pause w ≡ choose_phase world pause w)
unfolding settle
settle-choose_phase world pause w h = ground arith

pub settle-dispatch :
    (world : World) (pause : Option Pause) (w : Work)
    → (settle world pause w).outcome.action ≡ Action.dispatch
    → (w.plan.status ≡ running)
      × (w.plan.current_claim ≡ none)
      × (open_blockers w.plan ≡ [])
      × ((phase : String) × (IsDue world pause w.plan phase
            × (settle world pause w ≡ dispatches world phase pause w)))
settle-dispatch world pause w h =
    let s = settle-choose_phase world pause w h in
    let c = choose_phase-dispatch world pause w (ap (λ d. d.outcome.action) (sym s.3) ∙ h) in
    (s.0, s.1, s.2, (c.0, (c.1.0, s.3 ∙ c.1.1)))

-- The conclusion of `first_due_lem`.
abbrev pub IsFirstDue : Plan → List String → String → Type 0
IsFirstDue plan phases phase =
    (before : List String) × ((after : List String) × ((phases ≡ before ++ phase ∷ after)
        × (all (is_skipped plan) before ≡ true)
        × (is_skipped plan phase ≡ false)))

-- `first_due` skips only phases that are completed or blocked, and stops at one that is neither.
pub first_due_lem :
    (plan : Plan) (phases : List String) (phase : String)
    → first_due plan phases ≡ some phase
    → IsFirstDue plan phases phase
unfolding first_due
first_due_lem plan [] phase h = absurd (ground arith)
first_due_lem plan (p ∷ rest) phase h = elim (Bool-cases (is_skipped plan p)) [
  | inl y ↦
      let (before, (after, r)) = first_due_lem plan rest phase (ground (arith, h, y)) in
      (p ∷ before, (after, ground (arith, y, r)))
  | inr n ↦ ([], (rest, ground (arith, h, n)))
]

-- The conclusion of `exhausted-halts`.
abbrev IsHalted : World → World → String → Option Pause → Work → Type 0
IsHalted world later phase pause w =
    (try_phase world phase pause w).outcome.action ≡ Action.halt
    × ((try_phase world phase pause w).work.plan.status ≡ halted)
    × ((try_phase world phase pause w).work.delta.status ≡ some halted)
    × ((try_phase world phase pause w).work.delta.pre.expect_claim ≡ w.delta.observed.expect_claim)
    × ((settle later pause (try_phase world phase pause w).work).outcome.action ≡ Action.idle)

-- A plan whose attempts for the due phase are used up is halted, in the delta and in the working
-- copy, under the claim that the snapshot showed; and a next visit of the plan that is left is
-- idle.
exhausted-halts :
    (world later : World) (phase : String) (pause : Option Pause) (w : Work)
    → max_attempts w.plan ≤ attempts_for_phase w.plan phase
    → IsHalted world later phase pause w
unfolding try_phase on_exhausted delta_event set_status require_claim require_event_log
    require_status settle
exhausted-halts world later phase pause w h = ground arith

-- The conclusion of `escalate_once`.
abbrev pub IsEscalatedOnce : World → Option Pause → Work → Decision → Type 0
IsEscalatedOnce later pause w d =
    (d.work.plan.status ≡ paused)
    × (d.work.delta.status ≡ some paused)
    × (d.work.delta.pre.expect_status ≡ w.delta.observed.expect_status)
    × (escalate later pause d.work ≡ none)

-- An overdue blocker pauses the plan, under the status that the snapshot showed, and the plan that
-- is left is not escalated again, whatever the clock says.
pub escalate_once :
    (world later : World) (pause : Option Pause) (w : Work) (d : Decision)
    → escalate world pause w ≡ some d
    → IsEscalatedOnce later pause w d
unfolding escalate on_overdue delta_event set_status require_blocker require_status overdue
escalate_once world later pause w d h = ground arith
