-- ===== src/Supervisor/Tick/Twice.antt =====
-- Two ticks of one plan that race: the second meets the claim of the first.
use end_of_line.Shared.{Option, some, ◌≡◌, ◌≢◌, ap, ◌∙◌, arith, ok, lookup, string_eq}
use end_of_line.State.{Plan, Claim}
use end_of_line.Quota.{Pause}
use end_of_line.Store.{Row, Db}
use end_of_line.Supervisor.Work.{World, Config}
use end_of_line.Supervisor.Deaths.{Action}
use end_of_line.Supervisor.Tick.{tick_on, Outcome}
use end_of_line.Supervisor.Tick.Dispatch.{tick_dispatch}

-- A tick dispatches nothing where its write meets a claim, whatever its snapshot showed.
tick_on-held :
    (cfg : Config) (world : World) (seen : Plan) (pause : Option Pause) (db : Db) (o : Outcome)
    (row : Row) (c : Claim)
    → lookup seen.plan_slug db.plans ≡ some row
    → row.plan.current_claim ≡ some c
    → tick_on cfg world seen pause db ≡ ok o
    → o.result.action ≢ Action.dispatch
tick_on-held cfg world seen pause db o row c found held h dispatches =
    let (phase, (due, free, same, (before, (after, (there, left, wrote))))) =
      tick_dispatch cfg world seen pause db o h dispatches in
    ground (arith, found, there, held, wrote.0)

-- Of two ticks of a plan no second one dispatches on top of the first: where one has dispatched, a
-- tick that writes next, from any snapshot of the plan, with another clock, token, plan file and
-- pause row, does not dispatch, and the claim that the second meets is that of the first's token.
pub no_second_dispatch :
    (cfg cfg' : Config) (world world' : World) (seen seen' : Plan) (pause pause' : Option Pause)
    (db : Db) (o o' : Outcome)
    → tick_on cfg world seen pause db ≡ ok o
    → o.result.action ≡ Action.dispatch
    → seen'.plan_slug ≡ seen.plan_slug
    → tick_on cfg' world' seen' pause' o.db ≡ ok o'
    → (o'.result.action ≢ Action.dispatch)
      × ((row : Row) × ((c : Claim) × ((lookup seen.plan_slug o.db.plans ≡ some row)
              × (row.plan.current_claim ≡ some c)
              × (c.claimed_by ≡ some world.minted))))
no_second_dispatch cfg cfg' world world' seen seen' pause pause' db o o' first went same second =
    let (phase, (due, free, asked, (row, (row', (found, left, wrote))))) =
      tick_dispatch cfg world seen pause db o first went in
    let (c, (held, of, by)) = wrote.3 in
    (
      tick_on-held cfg' world' seen' pause' o.db o' row' c
          (ap (λ s. lookup s o.db.plans) same ∙ left) held second,
      (row', (c, (left, held, by))),
    )
