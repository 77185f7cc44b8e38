-- ===== src/Supervisor/Tick.antt =====
-- `tick` of end_of_line/supervisor.py: one snapshot, the emitters, the chain, and `_commit`.
pub mod Priority
pub mod Dispatch
pub mod Commit
pub mod Minting
pub mod Twice
pub mod Resume
use end_of_line.Shared.{
  ℕ, String, Option, none, some, List, [], ◌∷◌, Bool, true, false, if◌then◌else◌, Result, ok, err,
  tick_conflict, Error,
}
use end_of_line.State.{Plan, Claim, Event, Worktree}
use end_of_line.Quota.{Pause}
use end_of_line.Store.{Db}
use end_of_line.Store.PlanOps.{snapshot}
use end_of_line.Store.Conditions.{observed_conditions}
use end_of_line.Store.Apply.{apply_tick_delta}
use end_of_line.Supervisor.Delta.{Delta, InboxEvent, empty_delta, is_empty}
use end_of_line.Supervisor.Work.{Work, Notice, World, Config}
use end_of_line.Supervisor.Watchdogs.{gap_fill}
use end_of_line.Supervisor.Deaths.{
  Action, Detail, TickResult, AfterCommit, Decision, result, no_state, concurrent_write, claimed,
  blank, detect_death, detect_stalled,
}
use end_of_line.Supervisor.Lane.{escalate, consume_answers, settle}

unfoldable pub start : Plan → Work
unfolding observed_conditions
start plan = record {
  plan = plan;
  delta = empty_delta (observed_conditions plan) plan.current_claim;
  side_notifies = [];
}

abbrev or_else {ℓ} : {A : Type ℓ} → Option A → A → A
or_else none later = later
or_else (some d) later = d

-- The chain in the order of its priorities: the first step that decides ends it.
unfoldable pub decide : Config → World → Option Pause → Work → Decision
unfolding detect_death detect_stalled escalate consume_answers settle
decide cfg world pause w = or_else (detect_death cfg world pause w) (
    or_else (detect_stalled world.now pause w) (
      or_else (escalate world pause w)
        (or_else (consume_answers world.now pause w) (settle world pause w))))

-- What a tick leaves behind: its result, and the effects that wait for the commit.
pub record Outcome : Type 0 where
  pub result : TickResult
  pub side_notifies : List Notice
  pub inbox_events : List InboxEvent
  pub post_commit : List AfterCommit
  pub worktree : Option Worktree
  pub pause : Option Pause
  pub db : Db

abbrev pub quiet : TickResult → Option Pause → Db → Outcome
quiet r pause db = record {
  result = r;
  side_notifies = [];
  inbox_events = [];
  post_commit = [];
  worktree = none;
  pause = pause;
  db = db;
}

-- `_apply`: a delta that writes nothing opens no transaction. A store that is busy or broken raises in
-- place of the transaction.
unfoldable pub apply : World → String → Delta → Db → Result (Option String × Db)
unfolding is_empty apply_tick_delta
apply world slug delta db = if is_empty delta then ok (none, db) else elim world.store_error [
  | some e ↦ err e
  | none ↦ apply_tick_delta world.now world.minted slug delta db
]

abbrev pub dispatched : Option String → Option String → Detail
dispatched (some phase) (some token) = claimed phase token
dispatched _ _ = blank

abbrev pub with_token : Option String → TickResult → TickResult
with_token token r = elim r.action [
  | Action.dispatch ↦ record r { token = token; detail = dispatched r.phase_id token }
  | _ ↦ r
]

abbrev pub committed : Plan → Decision → Option String × Db → Outcome
committed plan d (token, db) = record {
  result = with_token token d.outcome;
  side_notifies = d.work.side_notifies;
  inbox_events = d.work.delta.inbox_events;
  post_commit = d.post_commit;
  worktree = plan.worktree;
  pause = d.pause;
  db = db;
}

abbrev pub commit_error : Decision → Db → Error → Result Outcome
commit_error d db tick_conflict = ok (quiet (result Action.idle concurrent_write) d.pause db)
commit_error d db e = err e

-- `_commit`: a conflict discards the whole decision, notifications included; what is written of the
-- quota pause stays, since it was written before.
unfoldable pub commit : World → Plan → Decision → Db → Result Outcome
unfolding apply
commit world plan d db = elim (apply world plan.plan_slug d.work.delta db) [
  | ok done ↦ ok (committed plan d done)
  | err e ↦ commit_error d db e
]

-- `current` is the database when the tick writes; `seen` is the plan that its snapshot read before.
unfoldable pub tick_on : Config → World → Plan → Option Pause → Db → Result Outcome
unfolding start gap_fill decide commit
tick_on cfg world seen pause current =
    commit world seen (decide cfg world pause (gap_fill cfg world (start seen))) current

-- The snapshot and the write see two databases, with whatever other processes wrote in between.
unfoldable pub tick : Config → World → String → Option Pause → Db → Db → Result Outcome
unfolding snapshot tick_on
tick cfg world slug pause before current = elim (snapshot slug before) [
  | err e ↦ ok (quiet (result Action.idle no_state) pause current)
  | ok plan ↦ tick_on cfg world plan pause current
]
