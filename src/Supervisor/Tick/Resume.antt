-- ===== src/Supervisor/Tick/Resume.antt =====
-- What a conflict does to the end of a quota pause.
use end_of_line.Shared.{ℕ, String, Option, none, ◌≡◌, refl, arith, ap, ◌∙◌, ok, err, tick_conflict}
use end_of_line.State.{Plan}
use end_of_line.Quota.{Pause, readable, go, resume, gate_decision}
use end_of_line.Store.{Db}
use end_of_line.Supervisor.Work.{Work, World, Config}
use end_of_line.Supervisor.Deaths.{Action, Decision, result, concurrent_write}
use end_of_line.Supervisor.Lane.{dispatch_of}
use end_of_line.Supervisor.Lane.Due.{dispatches, gate_of}
use end_of_line.Supervisor.Watchdogs.{gap_fill}
use end_of_line.Supervisor.Tick.{start, apply, commit, tick_on, quiet}
use end_of_line.Supervisor.Tick.Commit.{decision_on}

dispatches-pause :
    (world : World) (phase : String) (pause : Option Pause) (w : Work)
    → gate_of world pause w.plan ≡ (resume, none)
    → (dispatches world phase pause w).pause ≡ none
unfolding dispatch_of
dispatches-pause world phase pause w h = ap (λ g. g.1) h

commit-conflict :
    (world : World) (plan : Plan) (d : Decision) (db : Db)
    → apply world plan.plan_slug d.work.delta db ≡ err tick_conflict
    → commit world plan d db ≡ ok (quiet (result Action.idle concurrent_write) d.pause db)
unfolding commit
commit-conflict world plan d db h = ground (arith, h)

-- A tick that dispatches at the end of a quota pause, and whose write conflicts, has ended the
-- pause and says nothing of it: the database is as it was, no notification is left, and the gate
-- of a later tick lets every plan through without announcing that the pause is over.
pub resume_lost :
    (cfg : Config) (world : World) (seen : Plan) (pause : Option Pause) (db : Db)
    (phase slug : String) (later : ℕ)
    → decision_on cfg world seen pause
      ≡ dispatches world phase pause (gap_fill cfg world (start seen))
    → gate_of world pause (gap_fill cfg world (start seen)).plan ≡ (resume, none)
    → apply world seen.plan_slug (decision_on cfg world seen pause).work.delta db
      ≡ err tick_conflict
    → (tick_on cfg world seen pause db ≡ ok (quiet (result Action.idle concurrent_write) none db))
      × (gate_decision readable slug later none ≡ (go, none))
unfolding tick_on gate_decision
resume_lost cfg world seen pause db phase slug later e g c = (
  commit-conflict world seen (decision_on cfg world seen pause) db c
      ∙ ap (λ p. ok (quiet (result Action.idle concurrent_write) p db))
          (ap (λ d. d.pause) e
            ∙ dispatches-pause world phase pause (gap_fill cfg world (start seen)) g),
  refl,
)
