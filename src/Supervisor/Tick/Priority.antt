-- ===== src/Supervisor/Tick/Priority.antt =====
-- A whole tick: what it dispatches and when, and that its effects are all or nothing.
use end_of_line.Shared.{
  ℕ, String, Option, none, some, [], ◌≡◌, ◌≢◌, refl, arith, ap, ◌∙◌, sym, string_eq,
}
use end_of_line.State.{running, status_eq}
use end_of_line.State.Blockers.{open_blockers}
use end_of_line.Quota.{Pause}
use end_of_line.Store.Conditions.{holder_eq}
use end_of_line.Supervisor.Work.{Work, World, Config}
use end_of_line.Supervisor.Deaths.{
  Action, Decision, detect_death, detect_stalled, on_lease_expired, on_worker_dead, report_stalled,
}
use end_of_line.Supervisor.Lane.{escalate, consume_answers, settle, on_overdue}
use end_of_line.Supervisor.Lane.Due.{settle-dispatch, IsDue, dispatches}
use end_of_line.Supervisor.Tick.{decide, or_else}

detect_death-not_dispatch :
    (cfg : Config) (world : World) (pause : Option Pause) (w : Work) (d : Decision)
    → detect_death cfg world pause w ≡ some d
    → d.outcome.action ≢ Action.dispatch
unfolding detect_death on_lease_expired on_worker_dead
detect_death-not_dispatch cfg world pause w d h = ground arith

detect_stalled-not_dispatch :
    (now : ℕ) (pause : Option Pause) (w : Work) (d : Decision)
    → detect_stalled now pause w ≡ some d
    → d.outcome.action ≢ Action.dispatch
unfolding detect_stalled report_stalled
detect_stalled-not_dispatch now pause w d h = ground arith

escalate-not_dispatch :
    (world : World) (pause : Option Pause) (w : Work) (d : Decision)
    → escalate world pause w ≡ some d
    → d.outcome.action ≢ Action.dispatch
unfolding escalate on_overdue
escalate-not_dispatch world pause w d h = ground arith

consume_answers-not_dispatch :
    (now : ℕ) (pause : Option Pause) (w : Work) (d : Decision)
    → consume_answers now pause w ≡ some d
    → d.outcome.action ≢ Action.dispatch
unfolding consume_answers
consume_answers-not_dispatch now pause w d h = ground arith

-- `or_else` reaches its second part when the first one decided otherwise.
passes {ℓ κ} :
    {A : Type ℓ} (P : A → Type κ) (o : Option A) (later : A)
    → ((a : A) → o ≡ some a → P a → ⊥)
    → P (or_else o later)
    → or_else o later ≡ later
passes P none later never p = refl
passes P (some a) later never p = absurd (never a refl p)

abbrev IsDispatch : Decision → Type 0
IsDispatch d = d.outcome.action ≡ Action.dispatch

decide-settle :
    (cfg : Config) (world : World) (pause : Option Pause) (w : Work)
    → IsDispatch (decide cfg world pause w)
    → decide cfg world pause w ≡ settle world pause w
unfolding decide
decide-settle cfg world pause w h =
    let rest3 = or_else (consume_answers world.now pause w) (settle world pause w) in
    let rest2 = or_else (escalate world pause w) rest3 in
    let rest1 = or_else (detect_stalled world.now pause w) rest2 in
    let e1 =
      passes IsDispatch (detect_death cfg world pause w) rest1
        (detect_death-not_dispatch cfg world pause w) h in
    let h1 = ap (λ d. d.outcome.action) (sym e1) ∙ h in
    let e2 =
      passes IsDispatch (detect_stalled world.now pause w) rest2
        (detect_stalled-not_dispatch world.now pause w) h1 in
    let h2 = ap (λ d. d.outcome.action) (sym e2) ∙ h1 in
    let e3 =
      passes IsDispatch (escalate world pause w) rest3 (escalate-not_dispatch world pause w) h2 in
    let h3 = ap (λ d. d.outcome.action) (sym e3) ∙ h2 in
    let e4 =
      passes IsDispatch (consume_answers world.now pause w) (settle world pause w)
        (consume_answers-not_dispatch world.now pause w) h3 in
    e1 ∙ e2 ∙ e3 ∙ e4

-- The conclusion of `decide-dispatch`.
abbrev pub IsDueDecision : Config → World → Option Pause → Work → Type 0
IsDueDecision cfg world pause w =
    (w.plan.status ≡ running)
    × (w.plan.current_claim ≡ none)
    × (open_blockers w.plan ≡ [])
    × ((phase : String) × (IsDue world pause w.plan phase
          × (decide cfg world pause w ≡ dispatches world phase pause w)))

-- A decision to dispatch is one for a running plan that has no claim and no open blocker, and for
-- the first phase of the plan file that is due, with attempts left and the quota gate open.
pub decide-dispatch :
    (cfg : Config) (world : World) (pause : Option Pause) (w : Work)
    → (decide cfg world pause w).outcome.action ≡ Action.dispatch
    → IsDueDecision cfg world pause w
decide-dispatch cfg world pause w h =
    let e = decide-settle cfg world pause w h in
    let s = settle-dispatch world pause w (ap (λ d. d.outcome.action) (sym e) ∙ h) in
    (s.0, s.1, s.2, (s.3.0, (s.3.1.0, e ∙ s.3.1.1)))
