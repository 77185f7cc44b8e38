-- ===== src/Store/History.antt =====
-- The history of a plan under the operations of end_of_line/plan_store.py: what one operation may
-- do to the event log, the blockers and the tasks, and any sequence of operations of the tick, the
-- workers and the operator, in any order.
pub mod Growth
pub mod ClaimBodies
pub mod PlanBodies
pub mod TickBody
pub mod Order
pub mod Steps
pub mod Lawful
pub mod Runs
pub mod Holder
pub mod Handed
pub mod Handover
use end_of_line.Shared.{ℕ, suc, ◌+◌, List, [], ◌∷◌, ◌++◌, ◌≡◌, ◌⊎◌, length}
use end_of_line.State.{Event, Blocker, Task}
use end_of_line.Store.{Row, stamp_events}

-- Everything that was ever logged for the plan, the archive first.
abbrev pub history : Row → List Event
history row = row.archived ++ row.plan.events

abbrev pub blocker_ids : List Blocker → List ℕ
blocker_ids [] = []
blocker_ids (b ∷ rest) = b.id ∷ blocker_ids rest

abbrev pub task_ids : List Task → List ℕ
task_ids [] = []
task_ids (t ∷ rest) = t.id ∷ task_ids rest

-- The ids are n + 1, n + 2 and so on.
abbrev pub IsNumbered : ℕ → List ℕ → Type 0
IsNumbered n [] = Unit
IsNumbered n (i ∷ rest) = (i ≡ suc n) × IsNumbered (suc n) rest

-- Nothing was added, or one id that continues the numbering.
abbrev pub Added : List ℕ → List ℕ → Type 0
Added before after = (after ≡ before) ⊎ (after ≡ before ++ (length before + 1) ∷ [])

-- What an operation may do to a plan: log events behind the older ones under ids that the counter
-- gave it, and number a new blocker or task.
pub record Extends (before : Row) (seq : ℕ) (after : Row) (seq' : ℕ) : Type 0 where
  pub new : List Event
  pub logged : history after ≡ history before ++ stamp_events seq new
  pub counted : seq' ≡ seq + length new
  pub blockers : Added (blocker_ids before.plan.blockers) (blocker_ids after.plan.blockers)
  pub tasks : Added (task_ids before.plan.spawned_tasks) (task_ids after.plan.spawned_tasks)

-- The same plan but for what Extends does not speak of.
pub record IsQuiet (before after : Row) : Type 0 where
  pub logged : history after ≡ history before
  pub blockers : blocker_ids after.plan.blockers ≡ blocker_ids before.plan.blockers
  pub tasks : task_ids after.plan.spawned_tasks ≡ task_ids before.plan.spawned_tasks
