-- ===== src/Command/Callbacks/Caps.antt =====
-- The cap on the tasks that one phase spawns, `cmd_spawn` of end_of_line/cli.py.
use end_of_line.Shared.{
  ℕ, suc, ◌+◌, ◌≤◌, String, some, none, ◌≡◌, ap, sym, ◌∙◌, arith, inl, inr, ok, lookup, string_eq,
  leb, Bool-cases, Result-cases, length, filter, length-filter-append,
}
use end_of_line.State.{Plan, Task, option_text_eq}
use end_of_line.Store.{Row, Db}
use end_of_line.Store.Transaction.{finish, insert_events}
use end_of_line.Store.Transaction.Isolation.{plan_txn-ok}
use end_of_line.Store.ClaimOps.{check_token}
use end_of_line.Store.PlanOps.{snapshot, op_spawn_task, spawn_body}
use end_of_line.Command.{Outcome}
use end_of_line.Command.Exit.{ExitCode}
use end_of_line.Command.Callbacks.{cmd_spawn, spawned_by, spawn_cap}

abbrev pub spawned_count : String → Plan → ℕ
spawned_count phase plan = length (filter (spawned_by phase) plan.spawned_tasks)

spawn_steps :
    (now : ℕ) (slug source phase token : String) (db db' : Db) (n : ℕ)
    → op_spawn_task now slug (some source) (some phase) "pending" (some token) (some phase) db
      ≡ ok (n, db')
    → (row : Row) × ((row' : Row) × ((lookup slug db.plans ≡ some row)
          × (lookup slug db'.plans ≡ some row')
          × (spawned_count phase row'.plan ≡ spawned_count phase row.plan + 1)
          × (row'.plan.config ≡ row.plan.config)))
unfolding op_spawn_task spawn_body finish insert_events
spawn_steps now slug source phase token db db' n h =
    let body = spawn_body now (some source) (some phase) "pending" (some token) (some phase) in
    let (row, row', found, ran, left) = plan_txn-ok slug body db db' n h in
    let task : Task = record {
      id = length row.plan.spawned_tasks + 1;
      status = "pending";
      source = some source;
      spawned_by_phase = some phase;
      completed_at = none;
    } in
    elim (Result-cases
      (check_token (some token) (some phase) (record row { version = suc row.version }))) [
        | inr (e, fails) ↦ absurd (ground (arith, ran, fails))
        | inl (u, holds) ↦ (
          row,
          (
            row',
            (
              found,
              left,
              ground (
                arith,
                ran,
                holds,
                length-filter-append (spawned_by phase) row.plan.spawned_tasks task,
              ),
              ground (arith, ran, holds),
            ),
          ),
        )
      ]

-- The cap on spawned tasks holds: where `clu spawn` writes on the store that it read, the phase has
-- one task more than before, and no more than the plan's cap.
pub cmd_spawn_capped :
    (now : ℕ) (slug phase token source : String) (db : Db) (row : Row) (o : Outcome)
    → lookup slug db.plans ≡ some row
    → cmd_spawn now slug token phase source db db ≡ ok o
    → o.code ≡ ExitCode.ok
    → (row' : Row) × ((lookup slug o.db.plans ≡ some row')
        × (spawned_count phase row'.plan ≡ spawned_count phase row.plan + 1)
        × (spawned_count phase row'.plan ≤ spawn_cap row'.plan))
unfolding cmd_spawn snapshot
cmd_spawn_capped now slug phase token source db row o found h fine =
    elim (Bool-cases (leb (spawn_cap row.plan) (spawned_count phase row.plan))) [
      | inl full ↦ absurd (ground (arith, found, h, fine, full))
      | inr below ↦
          elim (Result-cases (
            op_spawn_task now slug (some source) (some phase) "pending" (some token) (some phase)
              db)) [
                | inr (e, fails) ↦ absurd (ground (arith, found, h, fine, below, fails))
                | inl ((n, db'), wrote) ↦
                    let (r, (row', (found0, left, more, same))) =
                      spawn_steps now slug source phase token db db' n wrote in
                    let here : o.db ≡ db' = ground (arith, found, h, fine, below, wrote) in
                    let read : r ≡ row = ground (arith, found, found0) in
                    let more' : spawned_count phase row'.plan ≡ spawned_count phase row.plan + 1 =
                      rw (sym read) more in
                    (
                      row',
                      (
                        ap (λ d. lookup slug d.plans) here ∙ left,
                        more',
                        ground (arith, more', below, same, ap (λ (x : Row). x.plan.config) read),
                      ),
                    )
              ]
    ]
