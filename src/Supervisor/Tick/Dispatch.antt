-- ===== src/Supervisor/Tick/Dispatch.antt =====
-- A dispatching tick from its snapshot to the rows that its write leaves.
use end_of_line.Shared.{
  ℕ, String, Option, none, some, [], true, false, ◌≡◌, inl, inr, refl, arith, ap, ◌∙◌, sym,
  Option-cases, ok, lookup, string_eq,
}
use end_of_line.State.{Plan, Claim, running, status_eq, Status}
use end_of_line.State.Blockers.{open_blockers}
use end_of_line.Quota.{Pause}
use end_of_line.Store.{Row, Db, max_event_id}
use end_of_line.Store.Conditions.{
  observed_conditions, holder, holder_eq, claim_as_expected, events_as_expected, status_as_expected,
}
use end_of_line.Store.Conditions.Cancels.{assert_preconditions_iff}
use end_of_line.Store.Apply.{apply_tick_delta}
use end_of_line.Store.Apply.Effects.{apply_tick_delta-ok, minted_claim, claim_after}
use end_of_line.Supervisor.Delta.{Delta, is_empty}
use end_of_line.Supervisor.Work.{World, Config}
use end_of_line.Supervisor.Watchdogs.{gap_fill}
use end_of_line.Supervisor.Watchdogs.Frame.{gap_fill-Keeps}
use end_of_line.Supervisor.Deaths.{Action, Decision}
use end_of_line.Supervisor.Lane.Due.{IsDue, dispatches}
use end_of_line.Supervisor.Tick.{start, decide, apply, tick_on, Outcome, committed}
use end_of_line.Supervisor.Tick.Priority.{decide-dispatch}
use end_of_line.Supervisor.Tick.Commit.{dispatches-asks, commit_cases}

apply-asked :
    (world : World) (slug : String) (delta : Delta) (db : Db) (token : Option String) (db' : Db)
    → is_empty delta ≡ false
    → apply world slug delta db ≡ ok (token, db')
    → apply_tick_delta world.now world.minted slug delta db ≡ ok (token, db')
unfolding apply
apply-asked world slug delta db token db' n h = elim (Option-cases world.store_error) [
  | inl open_store ↦ ground (arith, n, h, open_store)
  | inr (e, closed) ↦ absurd (ground (arith, n, h, closed))
]

pub committed-action :
    (plan : Plan) (d : Decision) (token : Option String) (db : Db)
    → (committed plan d (token, db)).result.action ≡ d.outcome.action
committed-action plan d token db = ground arith

committed-phase :
    (plan : Plan) (d : Decision) (token : Option String) (db : Db)
    → (committed plan d (token, db)).result.phase_id ≡ d.outcome.phase_id
committed-phase plan d token db = ground arith

claim-gone :
    (want : Option (Option (Option String × String))) (plan : Plan)
    → want ≡ some none
    → claim_as_expected want plan ≡ true
    → plan.current_claim ≡ none
unfolding claim_as_expected
claim-gone want plan h e = elim (Option-cases plan.current_claim) [
  | inl n ↦ n
  | inr (c, y) ↦ absurd (ground (arith, h, e, y))
]

status-same :
    (want : Option Status) (status : Status) (plan : Plan)
    → want ≡ some status
    → status_as_expected want plan ≡ true
    → plan.status ≡ status
unfolding status_as_expected
status-same want status plan h e = ground (arith, h, e)

log-same :
    (want : Option ℕ) (top : ℕ) (plan : Plan)
    → want ≡ some top
    → events_as_expected want plan ≡ true
    → max_event_id plan.events ≡ top
unfolding events_as_expected
log-same want top plan h e = ground (arith, h, e)

-- What the snapshot showed is what the emitters leave under observation.
start-observed :
    (cfg : Config) (world : World) (seen : Plan)
    → let w = gap_fill cfg world (start seen) in
      (w.delta.observed ≡ observed_conditions seen)
      × (w.plan.status ≡ seen.status)
      × (holder w.plan.current_claim ≡ holder seen.current_claim)
unfolding start
start-observed cfg world seen = let k = gap_fill-Keeps cfg world (start seen) in (k.0, k.1, k.2)

-- The rows that a dispatching tick wrote to, before and after.
abbrev pub Dispatched : World → Plan → String → Row → Row → Type 0
Dispatched world seen phase row row' =
    (row.plan.current_claim ≡ none)
    × (row.plan.status ≡ running)
    × (max_event_id row.plan.events ≡ max_event_id seen.events)
    × ((c : Claim) × ((row'.plan.current_claim ≡ some c)
          × (c.phase_id ≡ phase)
          × (c.claimed_by ≡ some world.minted)))

Dispatched-rows :
    (cfg : Config) (world : World) (seen : Plan) (pause : Option Pause) (db : Db)
    (token : Option String) (db' : Db) (phase : String)
    → let w = gap_fill cfg world (start seen) in
      w.plan.status ≡ running
      → w.plan.current_claim ≡ none
      → apply world seen.plan_slug (dispatches world phase pause w).work.delta db ≡ ok (token, db')
      → (row : Row) × ((row' : Row) × ((lookup seen.plan_slug db.plans ≡ some row)
            × (lookup seen.plan_slug db'.plans ≡ some row')
            × Dispatched world seen phase row row'))
unfolding observed_conditions
Dispatched-rows cfg world seen pause db token db' phase st cl h =
    let w = gap_fill cfg world (start seen) in
    let delta = (dispatches world phase pause w).work.delta in
    let asks = dispatches-asks world phase pause w in
    let obs = start-observed cfg world seen in
    let (row, (row', (found, left, pre, written))) =
      apply_tick_delta-ok world.now world.minted seen.plan_slug delta db db' token
        (apply-asked world seen.plan_slug delta db token db' asks.4 h) in
    let holds = (assert_preconditions_iff delta.pre row.plan).0 pre in
    let no_claim = ap holder (sym cl) ∙ obs.2 in
    (
      row,
      (
        row',
        (
          found,
          left,
          (
            claim-gone delta.pre.expect_claim row.plan
                (asks.1 ∙ ap (λ o. o.expect_claim) obs.0 ∙ ap some (sym no_claim)) holds.0,
            status-same delta.pre.expect_status running row.plan
                (asks.3 ∙ ap (λ o. o.expect_status) obs.0 ∙ ap some (sym obs.1 ∙ st)) holds.4,
            log-same delta.pre.expect_max_event_id (max_event_id seen.events) row.plan
                (asks.2 ∙ ap (λ o. o.expect_max_event_id) obs.0) holds.2,
            (
              minted_claim world.now world.minted phase delta,
              (
                written.0
                    ∙ ap (λ p. claim_after world.now world.minted delta p row.plan.current_claim)
                        asks.0,
                refl,
                refl,
              ),
            ),
          ),
        ),
      ),
    )

-- What a dispatching tick has done, from the choice of the phase to the rows.
abbrev pub IsDispatched : Config → World → Plan → Option Pause → Db → Outcome → Type 0
IsDispatched cfg world seen pause db o =
    (phase : String) × (IsDue world pause (gap_fill cfg world (start seen)).plan phase
      × (open_blockers (gap_fill cfg world (start seen)).plan ≡ [])
      × (o.result.phase_id ≡ some phase)
      × ((row : Row) × ((row' : Row) × ((lookup seen.plan_slug db.plans ≡ some row)
              × (lookup seen.plan_slug o.db.plans ≡ some row')
              × Dispatched world seen phase row row'))))

-- A tick that dispatches claims the first phase of the plan file that is neither completed nor
-- blocked, with attempts left, the quota gate open and no blocker of the plan unanswered; and only
-- where the write itself finds the plan running, without a claim, and with the log that the tick
-- read. The claim that it leaves is of that phase under the token that was minted.
pub tick_dispatch :
    (cfg : Config) (world : World) (seen : Plan) (pause : Option Pause) (db : Db) (o : Outcome)
    → tick_on cfg world seen pause db ≡ ok o
    → o.result.action ≡ Action.dispatch
    → IsDispatched cfg world seen pause db o
unfolding tick_on
tick_dispatch cfg world seen pause db o h a =
    let w = gap_fill cfg world (start seen) in
    elim (commit_cases world seen (decide cfg world pause w) db o h) [
      | inl (c, q) ↦ absurd (ground (arith, ap (λ x. x.result.action) q, a))
      | inr (token, (db', (y, q))) ↦
          let acts =
            sym (committed-action seen (decide cfg world pause w) token db')
            ∙ sym (ap (λ x. x.result.action) q)
            ∙ a in
          let (st, cl, free, (phase, (due, same))) = decide-dispatch cfg world pause w acts in
          let ran = ap (λ d. apply world seen.plan_slug d.work.delta db) (sym same) ∙ y in
          let rows = Dispatched-rows cfg world seen pause db token db' phase st cl ran in
          (
            phase,
            (
              due,
              free,
              ap (λ x. x.result.phase_id) q
                  ∙ committed-phase seen (decide cfg world pause w) token db'
                  ∙ ap (λ d. d.outcome.phase_id) same
                  ∙ (dispatches-asks world phase pause w).5,
              (
                rows.0,
                (
                  rows.1.0,
                  (
                    rows.1.1.0,
                    ap (λ x. lookup seen.plan_slug x.db.plans) q ∙ rows.1.1.1,
                    rows.1.1.2,
                  ),
                ),
              ),
            ),
          )
    ]
