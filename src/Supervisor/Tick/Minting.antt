-- ===== src/Supervisor/Tick/Minting.antt =====
-- Only a decision to dispatch asks for a claim.
use end_of_line.Shared.{
  ℕ, String, Option, none, some, List, [], ◌∷◌, ◌≡◌, ◌⊎◌, refl, arith, ◌∙◌, inl, inr, Option-cases,
  Bool-cases, List-cases, leb,
}
use end_of_line.State.{Status, Claim}
use end_of_line.State.Attempts.{attempts_for_phase}
use end_of_line.State.Blockers.{process_answered_blockers}
use end_of_line.Store.Fields.{FieldName}
use end_of_line.Quota.{Pause, QuotaMatch, GateDecision, gate_decision}
use end_of_line.Supervisor.Delta.{
  Delta, require_claim, require_claim_field, require_event_log, require_blocker, require_status,
}
use end_of_line.Supervisor.Work.{
  Work, World, Config, delta_event, carry_events, stamp_claim, stamp_blocker, set_status, release,
}
use end_of_line.Supervisor.Watchdogs.{worker_pid}
use end_of_line.Supervisor.Deaths.{
  Action, Decision, detect_death, detect_stalled, on_lease_expired, on_worker_dead, report_stalled,
  harvest,
}
use end_of_line.Supervisor.Lane.{
  escalate, consume, consume_all, consume_answers, settle, on_overdue, choose_phase, try_phase,
  on_exhausted, wind_down, on_done, on_gate, dispatch_of, first_due, resume_status, max_attempts,
}
use end_of_line.Supervisor.Tick.{decide, or_else}

-- The decision asks for no claim that the work did not ask for.
abbrev Asks : Work → Decision → Type 0
Asks w d = d.work.delta.claim_phase ≡ w.delta.claim_phase

field-claim_phase :
    (n : FieldName) (d : Delta) → (require_claim_field n d).claim_phase ≡ d.claim_phase
unfolding require_claim_field
field-claim_phase n d = ground arith

blocker-claim_phase : (n : ℕ) (d : Delta) → (require_blocker n d).claim_phase ≡ d.claim_phase
unfolding require_blocker
blocker-claim_phase n d = ground arith

harvest-claim_phase :
    (world : World) (claim : Claim) (found : Option QuotaMatch) (pause : Option Pause) (w : Work)
    → (harvest world claim found pause w).0.delta.claim_phase ≡ w.delta.claim_phase
unfolding harvest carry_events
harvest-claim_phase world claim none pause w = refl
harvest-claim_phase world claim (some found) pause w = ground arith

on_lease_expired-Asks :
    (cfg : Config) (world : World) (claim : Claim) (pause : Option Pause) (w : Work)
    → Asks w (on_lease_expired cfg world claim pause w)
unfolding on_lease_expired release delta_event require_claim
on_lease_expired-Asks cfg world claim pause w =
    harvest-claim_phase world claim (world.classify_log_tail claim.log_path) pause _
    ∙ field-claim_phase FieldName.lease_expires (require_claim w.delta)

on_worker_dead-Asks :
    (cfg : Config) (world : World) (claim : Claim) (pid : ℕ) (pause : Option Pause) (w : Work)
    → Asks w (on_worker_dead cfg world claim pid pause w)
unfolding on_worker_dead release delta_event require_claim
on_worker_dead-Asks cfg world claim pid pause w =
    harvest-claim_phase world claim (world.classify_log_tail claim.log_path) pause w

detect_death-Asks :
    (cfg : Config) (world : World) (pause : Option Pause) (w : Work) (d : Decision)
    → detect_death cfg world pause w ≡ some d
    → Asks w d
unfolding detect_death
detect_death-Asks cfg world pause w d h = elim (Option-cases w.plan.current_claim) [
  | inl gone ↦ absurd (ground (arith, gone, h))
  | inr (c, held) ↦ elim (Option-cases (worker_pid c.pid)) [
    | inl unknown ↦ ground (arith, held, unknown, h, on_lease_expired-Asks cfg world c pause w)
    | inr (pid, known) ↦ ground (
      arith,
      held,
      known,
      h,
      on_lease_expired-Asks cfg world c pause w,
      on_worker_dead-Asks cfg world c pid pause w,
    )
  ]
]

detect_stalled-Asks :
    (now : ℕ) (pause : Option Pause) (w : Work) (d : Decision)
    → detect_stalled now pause w ≡ some d
    → Asks w d
unfolding detect_stalled report_stalled delta_event stamp_claim require_claim_field
detect_stalled-Asks now pause w d h = ground arith

escalate-Asks :
    (world : World) (pause : Option Pause) (w : Work) (d : Decision)
    → escalate world pause w ≡ some d
    → Asks w d
unfolding escalate on_overdue delta_event set_status require_blocker require_status
escalate-Asks world pause w d h = ground arith

consume_all-claim_phase :
    (now : ℕ) (ns : List ℕ) (w : Work)
    → (consume_all now ns w).delta.claim_phase ≡ w.delta.claim_phase
unfolding consume_all consume delta_event stamp_blocker
consume_all-claim_phase now [] w = refl
consume_all-claim_phase now (n ∷ ns) w =
    consume_all-claim_phase now ns (consume now n w) ∙ blocker-claim_phase n w.delta

resume_status-claim_phase :
    (target : Option Status) (w : Work)
    → (resume_status target w).delta.claim_phase ≡ w.delta.claim_phase
unfolding set_status require_status
resume_status-claim_phase none w = refl
resume_status-claim_phase (some status) w = refl

consumed-Asks :
    (now n : ℕ) (ns : List ℕ) (target : Option Status) (w : Work)
    → (resume_status target (consume_all now (n ∷ ns) w)).delta.claim_phase ≡ w.delta.claim_phase
consumed-Asks now n ns target w =
    resume_status-claim_phase target (consume_all now (n ∷ ns) w)
    ∙ consume_all-claim_phase now (n ∷ ns) w

consume_answers-Asks :
    (now : ℕ) (pause : Option Pause) (w : Work) (d : Decision)
    → consume_answers now pause w ≡ some d
    → Asks w d
unfolding consume_answers
consume_answers-Asks now pause w d h = elim (List-cases (process_answered_blockers w.plan).0) [
  | inl nothing ↦ absurd (ground (arith, nothing, h))
  | inr (n, (ns, more)) ↦
      ground (arith, more, h, consumed-Asks now n ns (process_answered_blockers w.plan).1 w)
]

-- The later part of the chain either asks for nothing, or dispatches.
abbrev AsksOrDispatches : Work → Decision → Type 0
AsksOrDispatches w d = Asks w d ⊎ (d.outcome.action ≡ Action.dispatch)

on_gate-Asks :
    (now : ℕ) (phase : String) (w : Work) (g : GateDecision × Option Pause)
    → AsksOrDispatches w (on_gate now phase w g)
unfolding dispatch_of
on_gate-Asks now phase w (decision, pause) = elim (Bool-cases decision.dispatch) [
  | inl yes_it_is ↦ inr (ground (arith, yes_it_is))
  | inr held ↦ inl (ground (arith, held))
]

on_exhausted-Asks :
    (now : ℕ) (phase : String) (pause : Option Pause) (w : Work)
    → Asks w (on_exhausted now phase pause w)
unfolding on_exhausted delta_event set_status require_claim require_event_log require_status
on_exhausted-Asks now phase pause w = refl

try_phase-Asks :
    (world : World) (phase : String) (pause : Option Pause) (w : Work)
    → AsksOrDispatches w (try_phase world phase pause w)
unfolding try_phase
try_phase-Asks world phase pause w =
    let gated =
      on_gate-Asks world.now phase w
        (gate_decision world.gate_access w.plan.plan_slug world.now pause) in
    let halted = on_exhausted-Asks world.now phase pause w in
    elim (Bool-cases (leb (max_attempts w.plan) (attempts_for_phase w.plan phase))) [
      | inl used ↦ inl (ground (arith, used, halted))
      | inr left ↦ ground (arith, left, gated)
    ]

wind_down-Asks :
    (world : World) (pause : Option Pause) (w : Work) → Asks w (wind_down world pause w)
unfolding wind_down on_done delta_event set_status require_claim require_event_log require_status
wind_down-Asks world pause w = ground arith

choose_phase-Asks :
    (world : World) (pause : Option Pause) (w : Work)
    → AsksOrDispatches w (choose_phase world pause w)
unfolding choose_phase
choose_phase-Asks world pause w = elim (Option-cases (first_due w.plan world.phases)) [
  | inl none_due ↦ ground (arith, none_due, wind_down-Asks world pause w)
  | inr (phase, due) ↦ ground (arith, due, try_phase-Asks world phase pause w)
]

settle-Asks :
    (world : World) (pause : Option Pause) (w : Work) → AsksOrDispatches w (settle world pause w)
unfolding settle
settle-Asks world pause w = ground (arith, choose_phase-Asks world pause w)

or_else-Asks :
    (w : Work) (o : Option Decision) (later : Decision)
    → ((d : Decision) → o ≡ some d → Asks w d)
    → AsksOrDispatches w later
    → AsksOrDispatches w (or_else o later)
or_else-Asks w none later asks h = h
or_else-Asks w (some d) later asks h = inl (asks d refl)

-- A decision that asks for a claim which the work did not ask for is one to dispatch.
pub decide-Asks :
    (cfg : Config) (world : World) (pause : Option Pause) (w : Work)
    → AsksOrDispatches w (decide cfg world pause w)
unfolding decide
decide-Asks cfg world pause w =
    or_else-Asks w (detect_death cfg world pause w) _ (detect_death-Asks cfg world pause w) (
      or_else-Asks w (detect_stalled world.now pause w) _ (detect_stalled-Asks world.now pause w) (
        or_else-Asks w (escalate world pause w) _ (escalate-Asks world pause w) (
          or_else-Asks w (consume_answers world.now pause w) _
            (consume_answers-Asks world.now pause w) (settle-Asks world pause w))))
