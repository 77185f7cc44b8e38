-- ===== src/Command/Completion/Cleaned.antt =====
-- What the cleanup of the worktree in end_of_line/cli.py writes behind a completion.
use end_of_line.Shared.{
  ℕ, String, none, some, List, [], ◌∷◌, ◌++◌, ◌≡◌, ◌⊎◌, refl, ap, sym, ◌∙◌, drop, length, arith,
  inl, inr, ok, lookup, string_eq, Bool-cases, Option-cases, Result-cases,
}
use end_of_line.State.{
  event, text, Plan, Event, Worktree, EventKind, worktree_cleaned, worktree_retained_ahead,
}
use end_of_line.State.Claims.{append_event}
use end_of_line.Store.{Row, Db, stamp_events}
use end_of_line.Store.Head.{
  HeadField, op_set_fields, set_fields_body, set_head_fields, write_heads, write_head, remove_heads,
}
use end_of_line.Store.Transaction.{finish, insert_events}
use end_of_line.Store.Transaction.Isolation.{plan_txn-ok}
use end_of_line.Command.{Surroundings, Settings}
use end_of_line.Command.Completion.{cleanup_worktree, persist_cleanup, all_phases_done}

drop-append : (xs ys : List Event) → drop (length xs) (xs ++ ys) ≡ ys
drop-append [] ys = refl
drop-append (x ∷ xs) ys = drop-append xs ys

drop-length : (xs : List Event) → drop (length xs) xs ≡ []
drop-length [] = refl
drop-length (x ∷ xs) = drop-length xs

-- One event of that kind stands behind the log; claim and status are as they were.
abbrev pub HasNoted : EventKind → String → Row → Row → Db → Db → Type 0
HasNoted kind slug row row' db db' =
    (lookup slug db.plans ≡ some row)
    × (lookup slug db'.plans ≡ some row')
    × (row'.plan.current_claim ≡ row.plan.current_claim)
    × (row'.plan.status ≡ row.plan.status)
    × ((e : Event) × ((e.kind ≡ kind)
          × (row'.plan.events ≡ row.plan.events ++ stamp_events db.event_seq (e ∷ []))))

-- Nothing is written; or the worktree is taken off the plan and the log says so; or it stays, and the
-- log says that.
abbrev pub IsCleaned : String → Db → Db → Type 0
IsCleaned slug db db' =
    (db' ≡ db)
    ⊎ ((row : Row) × ((row' : Row) × (HasNoted worktree_cleaned slug row row' db db'
            × (row'.plan.worktree ≡ none))))
    ⊎ ((row : Row) × ((row' : Row) × (HasNoted worktree_retained_ahead slug row row' db db'
            × (row'.plan.worktree ≡ row.plan.worktree))))

set_fields-HasNoted :
    (slug : String) (e : Event) (db db' : Db) (u : Unit {0})
    → op_set_fields slug [] [] (e ∷ []) db ≡ ok (u, db')
    → (row : Row) × ((row' : Row) × (HasNoted e.kind slug row row' db db'
          × (row'.plan.worktree ≡ row.plan.worktree)))
unfolding op_set_fields set_fields_body set_head_fields write_heads remove_heads finish
    insert_events
set_fields-HasNoted slug e db db' u h =
    let (row, row', found, ran, left) =
      plan_txn-ok slug (set_fields_body [] [] (e ∷ [])) db db' u h in
    (
      row,
      (
        row',
        (
          (found, left, ground (arith, ran), ground (arith, ran), (e, (refl, ground (arith, ran)))),
          ground (arith, ran),
        ),
      ),
    )

drop_worktree-HasNoted :
    (slug : String) (e : Event) (db db' : Db) (u : Unit {0})
    → op_set_fields slug (HeadField.worktree none ∷ []) [] (e ∷ []) db ≡ ok (u, db')
    → (row : Row) × ((row' : Row) × (HasNoted e.kind slug row row' db db'
          × (row'.plan.worktree ≡ none)))
unfolding op_set_fields set_fields_body set_head_fields write_heads write_head remove_heads finish
    insert_events
drop_worktree-HasNoted slug e db db' u h =
    let (row, row', found, ran, left) =
      plan_txn-ok slug (set_fields_body (HeadField.worktree none ∷ []) [] (e ∷ [])) db db' u h in
    (
      row,
      (
        row',
        (
          (found, left, ground (arith, ran), ground (arith, ran), (e, (refl, ground (arith, ran)))),
          ground (arith, ran),
        ),
      ),
    )

persist_cleanup-none :
    (slug : String) (seen : Plan) (db db' : Db)
    → persist_cleanup slug seen seen (length seen.events) db ≡ ok db'
    → db' ≡ db
unfolding persist_cleanup
persist_cleanup-none slug seen db db' h = ground (arith, h, drop-length seen.events)

-- The result of an operation, without the unit.
persist_cleanup-dropped :
    (slug : String) (seen cleaned : Plan) (e : Event) (db db' : Db)
    → cleaned.worktree ≡ none
    → cleaned.events ≡ seen.events ++ e ∷ []
    → persist_cleanup slug seen cleaned (length seen.events) db ≡ ok db'
    → (u : Unit {0}) × (op_set_fields slug (HeadField.worktree none ∷ []) [] (e ∷ []) db
        ≡ ok (u, db'))
unfolding persist_cleanup
persist_cleanup-dropped slug seen cleaned e db db' w l h =
    let tail : drop (length seen.events) cleaned.events ≡ e ∷ [] =
      ap (drop (length seen.events)) l ∙ drop-append seen.events (e ∷ []) in
    elim (Result-cases (op_set_fields slug (HeadField.worktree none ∷ []) [] (e ∷ []) db)) [
      | inr (x, failed) ↦ absurd (ground (arith, h, tail, w, failed))
      | inl ((u, db2), wrote) ↦ (u, ground (arith, h, tail, w, wrote))
    ]

persist_cleanup-kept :
    (slug : String) (seen cleaned : Plan) (wt : Worktree) (e : Event) (db db' : Db)
    → cleaned.worktree ≡ some wt
    → cleaned.events ≡ seen.events ++ e ∷ []
    → persist_cleanup slug seen cleaned (length seen.events) db ≡ ok db'
    → (u : Unit {0}) × (op_set_fields slug [] [] (e ∷ []) db ≡ ok (u, db'))
unfolding persist_cleanup
persist_cleanup-kept slug seen cleaned wt e db db' w l h =
    let tail : drop (length seen.events) cleaned.events ≡ e ∷ [] =
      ap (drop (length seen.events)) l ∙ drop-append seen.events (e ∷ []) in
    elim (Result-cases (op_set_fields slug [] [] (e ∷ []) db)) [
      | inr (x, failed) ↦ absurd (ground (arith, h, tail, w, failed))
      | inl ((u, db2), wrote) ↦ (u, ground (arith, h, tail, w, wrote))
    ]

abbrev cleanup_event : EventKind → ℕ → String → Worktree → Event
cleanup_event kind now trigger wt = record (event now kind) {
  fields = ("path", text wt.path) ∷ ("branch", text wt.branch) ∷ ("trigger", text trigger) ∷ [];
}

pub persist_cleanup-IsCleaned :
    (settings : Settings) (s : Surroundings) (trigger slug : String) (plan : Plan) (db db' : Db)
    → persist_cleanup slug plan (cleanup_worktree settings s trigger plan).0 (length plan.events) db
      ≡ ok db'
    → IsCleaned slug db db'
unfolding cleanup_worktree append_event
persist_cleanup-IsCleaned settings s trigger slug plan db db' h =
    let cleaned = (cleanup_worktree settings s trigger plan).0 in
    elim (Option-cases plan.worktree) [
      | inl bare ↦
          let same : cleaned ≡ plan = ground (arith, bare) in
          inl (
            persist_cleanup-none slug plan db db'
              (ap (λ p. persist_cleanup slug plan p (length plan.events) db) (sym same) ∙ h))
      | inr (wt, there) ↦ elim (Bool-cases (all_phases_done s plan)) [
        | inr more ↦
            let same : cleaned ≡ plan = ground (arith, there, more) in
            inl (
              persist_cleanup-none slug plan db db'
                (ap (λ p. persist_cleanup slug plan p (length plan.events) db) (sym same) ∙ h))
        | inl over ↦ elim (Bool-cases (s.reachable wt.branch)) [
          | inl merged ↦
              let e = cleanup_event worktree_cleaned s.now trigger wt in
              let (u, wrote) =
                persist_cleanup-dropped slug plan cleaned e db db'
                  (ground (arith, there, over, merged)) (ground (arith, there, over, merged)) h in
              inr (inl (drop_worktree-HasNoted slug e db db' u wrote))
          | inr ahead ↦
              let e = cleanup_event worktree_retained_ahead s.now trigger wt in
              let (u, wrote) =
                persist_cleanup-kept slug plan cleaned wt e db db'
                  (ground (arith, there, over, ahead)) (ground (arith, there, over, ahead)) h in
              inr (inr (set_fields-HasNoted slug e db db' u wrote))
        ]
      ]
    ]
