-- ===== src/Store/Transaction/Isolation.antt =====
-- What every operation on the store keeps, whatever its body does.
use end_of_line.Shared.{
  suc, String, some, ◌≡◌, ◌≢◌, string_eq, ok, lookup, lookup-insert, arith, Option-cases,
  Result-cases, inl, inr,
}
use end_of_line.State.{option_text_eq}
use end_of_line.Store.{Row, Db}
use end_of_line.Store.Transaction.{PlanTxn, plan_txn}

-- A successful transaction on a plan: its body ran on the plan's rows with the version one higher,
-- and what it left is what the database holds.
pub plan_txn-ok :
    {A : Type 0} (slug : String) (body : PlanTxn A) (db db' : Db) (a : A)
    → plan_txn slug body db ≡ ok (a, db')
    → (row : Row) × (row' : Row) × (lookup slug db.plans ≡ some row)
      × (body (record row { version = suc row.version }) db.event_seq ≡ ok (a, row', db'.event_seq))
      × (lookup slug db'.plans ≡ some row')
unfolding plan_txn
plan_txn-ok slug body db db' a h = elim (Option-cases (lookup slug db.plans)) [
  | inl missing ↦ ground arith
  | inr (row, found) ↦
      elim (Result-cases (body (record row { version = suc row.version }) db.event_seq)) [
        | inr (e, failed) ↦ ground arith
        | inl ((b, row', seq), done) ↦
            (row, row', found, ground arith, ground (arith, lookup-insert slug slug row' db.plans))
      ]
]

-- An operation on one plan that succeeds leaves the rows of every other plan as they were.
pub plan_txn-other :
    {A : Type 0} (slug other : String) (body : PlanTxn A) (db db' : Db) (a : A)
    → other ≢ slug
    → plan_txn slug body db ≡ ok (a, db')
    → lookup other db'.plans ≡ lookup other db.plans
unfolding plan_txn
plan_txn-other slug other body db db' a ne h = elim (Option-cases (lookup slug db.plans)) [
  | inl missing ↦ ground arith
  | inr (row, found) ↦
      elim (Result-cases (body (record row { version = suc row.version }) db.event_seq)) [
        | inr (e, failed) ↦ ground arith
        | inl ((b, row', seq), done) ↦ ground (arith, lookup-insert slug other row' db.plans)
      ]
]
