-- ===== src/Store/History/Runs.antt =====
-- Runs of the store: any sequence of the transactions of end_of_line/plan_store.py and the ticks of
-- end_of_line/supervisor.py, by any number of processes.
use end_of_line.Shared.{
  ℕ, String, some, List, [], ◌++◌, ◌≡◌, sym, ap, subst, ◌∙◌, lookup, string_eq, append_assoc_lem,
  append_nil_right,
}
use end_of_line.State.{Event}
use end_of_line.Store.{Row, Db, stamp_events}
use end_of_line.Store.History.{history}
use end_of_line.Store.History.Order.{IsSoundRow, IsSoundRow-later, Extends-IsSoundRow}
use end_of_line.Store.History.Steps.{Run, stop, next, Change, same, extended, created, IsLawful}
use end_of_line.Store.History.Lawful.{Step-IsLawful}

-- The plan is still there, and its history is the old one with more behind it.
abbrev pub HasGrown : String → Row → Db → Type 0
HasGrown slug row db' =
    (row' : Row) × ((new : List Event) × ((lookup slug db'.plans ≡ some row')
        × (history row' ≡ history row ++ new)))

Change-HasGrown :
    (slug : String) (db db' : Db) (row : Row)
    → lookup slug db.plans ≡ some row
    → Change slug db db'
    → HasGrown slug row db'
Change-HasGrown slug db db' row h (same e) =
    (row, ([], (e ∙ h, sym (append_nil_right (history row)))))
Change-HasGrown slug db db' row h (extended old row' found left e) =
    let rows : old ≡ row = cc (found, h) in
    (
      row',
      (
        stamp_events db.event_seq e.new,
        (left, e.logged ∙ ap (λ r. history r ++ stamp_events db.event_seq e.new) rows),
      ),
    )
Change-HasGrown slug db db' row h (created row' missing left s) = absurd (cc (missing, h))

-- The log is append-only: whatever ticks, workers and operators do to the store, in any number and
-- order, a plan that is in it stays in it, and everything that was logged for the plan is still
-- there, unchanged and in order, with what came later behind it.
pub Run-history_grows :
    (slug : String) (row : Row) (db db' : Db)
    → lookup slug db.plans ≡ some row
    → Run db db'
    → HasGrown slug row db'
Run-history_grows slug row db db' h stop = (row, ([], (h, sym (append_nil_right (history row)))))
Run-history_grows slug row db db' h (next {mid} run step) =
    let (r1, (new1, (found1, grown1))) = Run-history_grows slug row db mid h run in
    let (r2, (new2, (found2, grown2))) =
      Change-HasGrown slug mid db' r1 found1 ((Step-IsLawful step).changed slug) in
    (
      r2,
      (
        new1 ++ new2,
        (found2, grown2 ∙ ap (λ h. h ++ new2) grown1 ∙ append_assoc_lem (history row) new1 new2),
      ),
    )

-- Every plan of the store is sound.
abbrev pub IsSound : Db → Type 0
IsSound db =
    (slug : String) (row : Row) → lookup slug db.plans ≡ some row → IsSoundRow db.event_seq row

Step-IsSound : (db db' : Db) → IsLawful db db' → IsSound db → IsSound db'
Step-IsSound db db' l s slug row' h = after (l.changed slug)
  where
    after : Change slug db db' → IsSoundRow db'.event_seq row'
    after (same e) =
        IsSoundRow-later db.event_seq db'.event_seq row' l.counted (s slug row' (sym e ∙ h))
    after (extended row new found left e) =
        let rows : new ≡ row' = cc (left, h) in
        subst (IsSoundRow db'.event_seq) rows
          (Extends-IsSoundRow row new db.event_seq db'.event_seq e (s slug row found))
    after (created new missing left fresh) =
        let rows : new ≡ row' = cc (left, h) in subst (IsSoundRow db'.event_seq) rows fresh

-- In a store that began without plans, whatever ticks, workers and operators did to it: along the
-- history of every plan, archived events included, the ids rise strictly and stay at or below the
-- counter, so none is used twice; and the plan's blockers and its tasks are numbered from 1 without
-- a gap.
pub Run-IsSound : (seq : ℕ) (db : Db) → Run (record { plans = []; event_seq = seq }) db → IsSound db
Run-IsSound seq db stop = λ slug row h. absurd (cc h)
Run-IsSound seq db (next {mid} run step) =
    Step-IsSound mid db (Step-IsLawful step) (Run-IsSound seq mid run)
