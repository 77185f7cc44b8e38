-- ===== src/Store/History/PlanBodies.antt =====
-- The operations of end_of_line/plan_store.py on blockers, tasks, status, worktree, archive and the
-- tick's decision extend the history of their plan.
use end_of_line.Shared.{
  ℕ, ◌+◌, String, Option, none, some, List, [], ◌∷◌, ◌++◌, true, ◌≡◌, refl, length, ok, arith, inl,
  inr, Result-cases, Option-cases, Bool-cases, string_eq, nat_eq, ◌==◌, append_nil_right,
}
use end_of_line.State.{Plan, Event, Blocker, Task, Status, option_text_eq}
use end_of_line.State.Blockers.{new_blocker, blocked_event, answered_event, resolve_answer}
use end_of_line.Store.{Row}
use end_of_line.Store.Transaction.{on_row_plan}
use end_of_line.Store.ClaimOps.{check_token}
use end_of_line.Store.PlanOps.{
  release_if_asked, add_blocker_body, unanswered_options, set_answer, answer_body, spawned_event,
  spawn_body, find_task, complete_in, complete_task_body, set_status_body, stamped_sha,
  refused_event, refuse_body, archive_body,
}
use end_of_line.Store.Head.{
  HeadField, HeadName, write_head, remove_head, write_heads, remove_heads, set_head_fields,
  set_fields_body,
}
use end_of_line.Store.History.{blocker_ids, task_ids, Added, IsQuiet}
use end_of_line.Store.History.Growth.{
  Extends-quiet, Extends-transport, finish-Extends, IsQuiet-refl, release_if_asked-IsQuiet,
  IsQuiet-trans, blocker_ids-set_answer, task_ids-complete_in, blocker_ids-append, task_ids-append,
  length-blocker_ids, length-task_ids,
}
use end_of_line.Store.History.ClaimBodies.{Keeps, finish-quiet, finish-Keeps}

-- The next number behind a numbering of that many.
next_blocker :
    (bs cs : List Blocker) (b : Blocker)
    → blocker_ids cs ≡ blocker_ids bs
    → b.id ≡ length cs + 1
    → Added (blocker_ids bs) (blocker_ids (cs ++ b ∷ []))
next_blocker bs cs b e n =
    inr (ground (arith, blocker_ids-append cs b, length-blocker_ids cs, e, n))

next_task :
    (ts : List Task) (t : Task)
    → t.id ≡ length ts + 1
    → Added (task_ids ts) (task_ids (ts ++ t ∷ []))
next_task ts t n = inr (ground (arith, task_ids-append ts t, length-task_ids ts, n))

pub add_blocker_body-Keeps :
    (now : ℕ) (phase_id question : String) (options : List String) (context kind : String)
    (token phase : Option String)
    → Keeps (add_blocker_body now phase_id question options context kind token phase)
unfolding add_blocker_body
add_blocker_body-Keeps now phase_id question options context kind token phase row row' seq seq' a
      h =
    elim (Result-cases (release_if_asked token phase row)) [
      | inr (e, failed) ↦ absurd (ground (arith, failed, h))
      | inl (r, freed) ↦
          let q = release_if_asked-IsQuiet token phase row r freed in
          let n = length r.plan.blockers + 1 in
          let b = new_blocker now n phase_id question options context kind in
          finish-Extends n a row (on_row_plan (λ p. record p { blockers = p.blockers ++ b ∷ [] }) r)
            row' seq seq' (blocked_event now phase_id n question ∷ []) q.logged
            (next_blocker row.plan.blockers r.plan.blockers b q.blockers refl) (inl q.tasks)
            (ground (arith, freed, h))
    ]

pub answer_body-Keeps : (now n : ℕ) (raw : String) → Keeps (answer_body now n raw)
unfolding answer_body
answer_body-Keeps now n raw row row' seq seq' a h =
    elim (Option-cases (unanswered_options n row.plan.blockers)) [
      | inl gone ↦ absurd (ground (arith, gone, h))
      | inr (options, found) ↦
          let text = resolve_answer options raw in
          finish-quiet text a row
            (on_row_plan (λ p. record p { blockers = set_answer now n text p.blockers }) row) row'
            seq seq' (answered_event now n text ∷ [])
            (record {
              logged = refl;
              blockers = blocker_ids-set_answer now n text row.plan.blockers;
              tasks = refl;
            })
            (ground (arith, found, h))
    ]

pub spawn_body-Keeps :
    (now : ℕ) (source by : Option String) (status : String) (token phase : Option String)
    → Keeps (spawn_body now source by status token phase)
unfolding spawn_body
spawn_body-Keeps now source by status token phase row row' seq seq' a h =
    elim (Result-cases (check_token token phase row)) [
      | inr (e, failed) ↦ absurd (ground (arith, failed, h))
      | inl (t, held) ↦
          let n = length row.plan.spawned_tasks + 1 in
          let task : Task = record {
            id = n;
            status = status;
            source = source;
            spawned_by_phase = by;
            completed_at = none;
          } in
          finish-Extends n a row
            (on_row_plan (λ p. record p { spawned_tasks = p.spawned_tasks ++ task ∷ [] }) row) row'
            seq seq' (spawned_event now n source by ∷ []) refl (inl refl)
            (next_task row.plan.spawned_tasks task refl) (ground (arith, held, h))
    ]

pub complete_task_body-Keeps :
    (now n : ℕ) (token phase : Option String) (events : List Event)
    → Keeps (complete_task_body now n token phase events)
unfolding complete_task_body
complete_task_body-Keeps now n token phase events row row' seq seq' a h =
    elim (Result-cases (check_token token phase row)) [
      | inr (e, failed) ↦ absurd (ground (arith, failed, h))
      | inl (u, held) ↦ elim (Option-cases (find_task n row.plan.spawned_tasks)) [
        | inl gone ↦ absurd (ground (arith, held, gone, h))
        | inr (t, found) ↦ elim (Bool-cases (t.status == "done")) [
          | inl done ↦
              Extends-transport (ground (arith, held, found, done, h))
                (ground (arith, held, found, done, h))
                (Extends-quiet row row seq (IsQuiet-refl row))
          | inr pending ↦
              finish-quiet tt a row
                (on_row_plan (λ p. record p { spawned_tasks = complete_in now n p.spawned_tasks })
                  row)
                row' seq seq' events
                (record {
                  logged = refl;
                  blockers = refl;
                  tasks = task_ids-complete_in now n row.plan.spawned_tasks;
                })
                (ground (arith, held, found, pending, h))
        ]
      ]
    ]

pub set_status_body-Keeps :
    (status : Status) (events : List Event) (token phase : Option String)
    → Keeps (set_status_body status events token phase)
unfolding set_status_body
set_status_body-Keeps status events token phase row row' seq seq' a h =
    elim (Result-cases (release_if_asked token phase row)) [
      | inr (e, failed) ↦ absurd (ground (arith, failed, h))
      | inl (r, freed) ↦
          let q = release_if_asked-IsQuiet token phase row r freed in
          finish-quiet tt a row (on_row_plan (λ p. record p { status = status }) r) row' seq seq'
            events (record { logged = q.logged; blockers = q.blockers; tasks = q.tasks })
            (ground (arith, freed, h))
    ]

pub refuse_body-Keeps :
    (now : ℕ) (phase gate head_sha : String) → Keeps (refuse_body now phase gate head_sha)
unfolding refuse_body
refuse_body-Keeps now phase gate head_sha row row' seq seq' a h =
    let fresh = stamped_sha gate row.plan.current_claim in
    elim (Bool-cases (fresh == some head_sha)) [
      | inl stamped ↦
          Extends-transport (ground (arith, stamped, h)) (ground (arith, stamped, h))
            (Extends-quiet row row seq (IsQuiet-refl row))
      | inr stale ↦
          finish-Keeps (fresh, true) (refused_event now phase gate fresh head_sha ∷ []) row row' seq
            seq' a (ground (arith, stale, h))
    ]

-- The archive moves the events and loses none.
pub archive_body-Keeps : Keeps archive_body
unfolding archive_body
archive_body-Keeps row row' seq seq' a h = Extends-transport (cc h) (cc h) (
    Extends-quiet row
      (record row {
        plan = record row.plan { events = [] };
        archived = row.archived ++ row.plan.events;
      })
      seq
      (record {
        logged = append_nil_right (row.archived ++ row.plan.events);
        blockers = refl;
        tasks = refl;
      }))

write_head-IsQuiet :
    (f : HeadField) (row : Row) (plan : Plan)
    → write_head f row.plan ≡ ok plan
    → IsQuiet row (record row { plan = plan })
unfolding write_head
write_head-IsQuiet f row plan h = ground (arith, h)

remove_head-IsQuiet :
    (n : HeadName) (row : Row) (plan : Plan)
    → remove_head n row.plan ≡ ok plan
    → IsQuiet row (record row { plan = plan })
unfolding remove_head
remove_head-IsQuiet n row plan h = ground (arith, h)

write_heads-IsQuiet :
    (fields : List HeadField) (row : Row) (plan : Plan)
    → write_heads fields row.plan ≡ ok plan
    → IsQuiet row (record row { plan = plan })
unfolding write_heads
write_heads-IsQuiet [] row plan h = ground (arith, h)
write_heads-IsQuiet (f ∷ rest) row plan h = elim (Result-cases (write_head f row.plan)) [
  | inr (e, failed) ↦ absurd (ground (arith, failed, h))
  | inl (p, done) ↦
      IsQuiet-trans (write_head-IsQuiet f row p done)
        (write_heads-IsQuiet rest (record row { plan = p }) plan (ground (arith, done, h)))
]

remove_heads-IsQuiet :
    (names : List HeadName) (row : Row) (plan : Plan)
    → remove_heads names row.plan ≡ ok plan
    → IsQuiet row (record row { plan = plan })
unfolding remove_heads
remove_heads-IsQuiet [] row plan h = ground (arith, h)
remove_heads-IsQuiet (n ∷ rest) row plan h = elim (Result-cases (remove_head n row.plan)) [
  | inr (e, failed) ↦ absurd (ground (arith, failed, h))
  | inl (p, done) ↦
      IsQuiet-trans (remove_head-IsQuiet n row p done)
        (remove_heads-IsQuiet rest (record row { plan = p }) plan (ground (arith, done, h)))
]

pub set_fields_body-Keeps :
    (fields : List HeadField) (names : List HeadName) (events : List Event)
    → Keeps (set_fields_body fields names events)
unfolding set_fields_body set_head_fields
set_fields_body-Keeps fields names events row row' seq seq' a h =
    elim (Result-cases (write_heads fields row.plan)) [
      | inr (e, failed) ↦ absurd (ground (arith, failed, h))
      | inl (p, wrote) ↦ elim (Result-cases (remove_heads names p)) [
        | inr (e, failed) ↦ absurd (ground (arith, wrote, failed, h))
        | inl (plan, removed) ↦
            finish-quiet tt a row (record row { plan = plan }) row' seq seq' events
              (IsQuiet-trans (write_heads-IsQuiet fields row p wrote)
                (remove_heads-IsQuiet names (record row { plan = p }) plan removed))
              (ground (arith, wrote, removed, h))
      ]
    ]
