-- ===== src/Store/History/Handover.antt =====
-- Mutual exclusion on a plan over any run of the store: a claim is never handed from one worker to
-- another, it is released first.
use end_of_line.Shared.{String, none, some, ◌≡◌, ◌≢◌, inl, inr, sym, ◌∙◌, lookup, string_eq}
use end_of_line.Store.{Row, Db}
use end_of_line.Store.Conditions.{Identity, holder}
use end_of_line.Store.History.Steps.{Run, stop, next}
use end_of_line.Store.History.Runs.{Run-history_grows}
use end_of_line.Store.History.Handed.{Step-HandsAt}

-- Some moment of the run at which nobody holds the claim.
abbrev pub FreeBetween : String → Db → Db → Type 0
FreeBetween slug db db' =
    (mid : Db) × ((free : Row) × ((lookup slug mid.plans ≡ some free)
        × (holder free.plan.current_claim ≡ none)
        × Run db mid
        × Run mid db'))

-- Where one worker holds the claim of a plan and later another one does, or the same one for
-- another phase, there was a moment between the two at which the plan had no claim, whatever
-- ticks, workers and operators did in any number and order: no operation replaces a live claim.
pub Run-FreeBetween :
    (slug : String) (db : Db) (row row' : Row) (db' : Db) (first second : Identity)
    → lookup slug db.plans ≡ some row
    → lookup slug db'.plans ≡ some row'
    → holder row.plan.current_claim ≡ some first
    → holder row'.plan.current_claim ≡ some second
    → first ≢ second
    → Run db db'
    → FreeBetween slug db db'
Run-FreeBetween slug db row row' db' first second h h' a b ne stop = absurd (ne (cc (h, h', a, b)))
Run-FreeBetween slug db row row' db' first second h h' a b ne (next {mid} run step) =
    let (r, (new, (there, grown))) = Run-history_grows slug row db mid h run in
    elim (Step-HandsAt step slug r row' there h') [
      | inr free ↦ (mid, (r, (there, free, run, next stop step)))
      | inl (inl gone) ↦ absurd (cc (gone, b))
      | inl (inr kept) ↦
          let (m, (f, (found, free, before, after))) =
            Run-FreeBetween slug db row r mid first second h there a (sym kept ∙ b) ne run in
          (m, (f, (found, free, before, next after step)))
    ]
