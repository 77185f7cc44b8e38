-- ===== src/Store/Head.antt =====
-- `op_set_fields` and `events_after` of end_of_line/plan_store.py: the columns of the plan's own
-- row, the catch-all `extra`, and the read of the log behind a cursor.
use end_of_line.Shared.{
  ℕ, String, Option, none, List, [], ◌∷◌, not, ltb, ◌==◌, string_eq, Result, ok, err, ◌>>=◌,
  value_error, insert, filter,
}
use end_of_line.State.{Plan, Event, Status, Stamp, PlanConfig, PhaseEntry, Worktree, Extra}
use end_of_line.Store.{Db}
use end_of_line.Store.Transaction.{PlanTxn, plan_txn, finish}

-- One entry of the `fields` dictionary, by where the column map sends it.
pub data HeadField : Type 0 where
  derived : String → HeadField
  status : Status → HeadField
  plan_dir : String → HeadField
  created_at : Stamp → HeadField
  batch_id : Option String → HeadField
  config : PlanConfig → HeadField
  phases : List PhaseEntry → HeadField
  worktree : Option Worktree → HeadField
  extra : String → Extra → HeadField

-- One name of `remove`. That of `config` or `phases`, which no caller passes, is left out.
pub data HeadName : Type 0 where
  derived : String → HeadName
  column : String → HeadName
  worktree : HeadName
  extra : String → HeadName

-- `extra.pop(key, None)`
unfoldable pub drop_key : String → List (String × Extra) → List (String × Extra)
drop_key key extras = filter (λ entry. not (entry.0 == key)) extras

unfoldable pub write_head : HeadField → Plan → Result Plan
write_head (HeadField.derived key) p = err value_error
write_head (HeadField.status v) p = ok (record p { status = v })
write_head (HeadField.plan_dir v) p = ok (record p { plan_dir = v })
write_head (HeadField.created_at v) p = ok (record p { created_at = v })
write_head (HeadField.batch_id v) p = ok (record p { batch_id = v })
write_head (HeadField.config v) p = ok (record p { config = v })
write_head (HeadField.phases v) p = ok (record p { phases = v })
write_head (HeadField.worktree v) p = ok (record p { worktree = v })
write_head (HeadField.extra key v) p = ok (record p { extra = insert key v p.extra })

unfoldable pub remove_head : HeadName → Plan → Result Plan
unfolding drop_key
remove_head (HeadName.derived key) p = err value_error
remove_head (HeadName.column key) p = err value_error
remove_head HeadName.worktree p = ok (record p { worktree = none })
remove_head (HeadName.extra key) p = ok (record p { extra = drop_key key p.extra })

unfoldable pub write_heads : List HeadField → Plan → Result Plan
unfolding write_head
write_heads [] p = ok p
write_heads (f ∷ rest) p = do written ← write_head f p; write_heads rest written

unfoldable pub remove_heads : List HeadName → Plan → Result Plan
unfolding remove_head
remove_heads [] p = ok p
remove_heads (n ∷ rest) p = do removed ← remove_head n p; remove_heads rest removed

-- The catch-all is merged, not replaced, and the removals follow the writes.
unfoldable pub set_head_fields : List HeadField → List HeadName → Plan → Result Plan
unfolding write_heads remove_heads
set_head_fields fields names p = do written ← write_heads fields p; remove_heads names written

unfoldable pub set_fields_body : List HeadField → List HeadName → List Event → PlanTxn (Unit {0})
unfolding set_head_fields
set_fields_body fields names events row seq = do
  plan ← set_head_fields fields names row.plan
  finish tt events (record row { plan = plan }) seq

unfoldable pub op_set_fields :
    String → List HeadField → List HeadName → List Event → Db → Result (Unit {0} × Db)
unfolding set_fields_body
op_set_fields slug fields names events db = plan_txn slug (set_fields_body fields names events) db

-- `WHERE plan_slug = ? AND id > ? ORDER BY id`, on a log that is in that order.
unfoldable pub events_after : ℕ → List Event → List Event
events_after cursor events = filter (λ e. ltb cursor e.id) events
