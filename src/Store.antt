-- ===== src/Store.antt =====
-- end_of_line/plan_store.py: the tables of the project database and the transactions on them.
-- A transaction that raises is rolled back, so a failed operation has no new database.
pub mod Fields
pub mod Transaction
pub mod ClaimOps
pub mod PlanOps
pub mod Conditions
pub mod Apply
pub mod Log
pub mod Head
pub mod History
use end_of_line.Shared.{ℕ, suc, max, String, List, [], ◌∷◌, ◌++◌}
use end_of_line.State.{Plan, Event}

-- The rows of one plan over the tables plans, claims, blockers, spawned_tasks and events, with
-- its rows of events_archive.
pub record Row : Type 0 where
  pub plan : Plan
  pub version : ℕ
  pub archived : List Event

-- `event_seq` is the AUTOINCREMENT counter of the events table.
pub record Db : Type 0 where
  pub plans : List (String × Row)
  pub event_seq : ℕ

-- `_insert_events`: each event takes the next row id and stands behind the older ones.
unfoldable pub stamp_events : ℕ → List Event → List Event
stamp_events seq [] = []
stamp_events seq (e ∷ rest) = record e { id = suc seq } ∷ stamp_events (suc seq) rest

-- `SELECT COALESCE(MAX(id), 0) FROM events WHERE plan_slug = ?`
unfoldable pub max_event_id : List Event → ℕ
max_event_id [] = 0
max_event_id (e ∷ rest) = max e.id (max_event_id rest)
