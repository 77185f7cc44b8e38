-- ===== src/Store/PlanOps.antt =====
-- The operations of end_of_line/plan_store.py on blockers, spawned tasks, the status, the
-- attestation gate, the worktree and the event log, one transaction each.
pub mod Once
use end_of_line.Shared.{
  ℕ, zero, suc, ◌+◌, String, Option, none, some, List, [], ◌∷◌, ◌++◌, Bool, true, false,
  if◌then◌else◌, Result, ok, err, ◌>>=◌, ◌>>◌, key_error, file_exists, file_not_found, invalid_slug,
  ◌==◌, nat_eq, string_eq, length, lookup, insert,
}
use end_of_line.State
use end_of_line.State.{
  Plan, Claim, Event, Blocker, Task, Status, Value, text, num, null, Worktree, Attestation, utcnow,
  phase_blocked, blocker_answered, task_spawned, attestation_refused, option_text_eq,
}
use end_of_line.State.Slug.{validate_slug}
use end_of_line.State.Blockers.{
  new_blocker, blocked_event, answered_event, answer_first, is_unanswered, resolve_answer,
}
use end_of_line.Store.{Row, Db}
use end_of_line.Store.Transaction.{
  PlanTxn, plan_txn, insert_events, finish, release_in_txn, on_row_plan,
}
use end_of_line.Store.ClaimOps.{check_token}

-- A release in the same transaction, asked for by either piece of the pair.
unfoldable pub release_if_asked : Option String → Option String → Row → Result Row
release_if_asked none none row = ok row
release_if_asked token phase row = do released ← release_in_txn token phase row; ok released.1

unfoldable pub add_blocker_body :
    ℕ → String → String → List String → String → String → Option String → Option String → PlanTxn ℕ
unfolding release_if_asked
add_blocker_body now phase_id question options context kind token phase row seq = do
  row' ← release_if_asked token phase row
  let n = length row'.plan.blockers + 1
  let added =
      on_row_plan
        (λ p. record p {
          blockers = p.blockers ++ new_blocker now n phase_id question options context kind ∷ [];
        })
        row'
  finish n (blocked_event now phase_id n question ∷ []) added seq

unfoldable pub op_add_blocker :
    ℕ
    → String
    → String
    → String
    → List String
    → String
    → String
    → Option String
    → Option String
    → Db
    → Result (ℕ × Db)
unfolding add_blocker_body
op_add_blocker now slug phase_id question options context kind token phase db =
    plan_txn slug (add_blocker_body now phase_id question options context kind token phase) db

-- The options of the first unanswered blocker of that id.
unfoldable pub unanswered_options : ℕ → List Blocker → Option (List String)
unanswered_options n [] = none
unanswered_options n (b ∷ rest) =
    let later = unanswered_options n rest in
    if b.id == n then (if is_unanswered b then some b.options else later) else later

-- `UPDATE blockers SET answer … WHERE blocker_id = ? AND answer IS NULL`
unfoldable pub set_answer : ℕ → ℕ → String → List Blocker → List Blocker
set_answer now n answer [] = []
set_answer now n answer (b ∷ rest) =
    (if b.id == n
      then (if is_unanswered b
          then record b { answer = some answer; answered_at = some (utcnow now) }
          else b)
      else b)
    ∷ set_answer now n answer rest

unfoldable pub answer_body : ℕ → ℕ → String → PlanTxn String
unfolding unanswered_options set_answer
answer_body now n raw row seq = elim (unanswered_options n row.plan.blockers) [
  | none ↦ err key_error
  | some options ↦
      let resolved = resolve_answer options raw in
      finish resolved (answered_event now n resolved ∷ [])
        (on_row_plan (λ p. record p { blockers = set_answer now n resolved p.blockers }) row) seq
]

unfoldable pub op_answer_blocker : ℕ → String → ℕ → String → Db → Result (String × Db)
unfolding answer_body
op_answer_blocker now slug n raw db = plan_txn slug (answer_body now n raw) db

-- Merged under the channel; an unknown blocker is a no-op.
unfoldable pub stamp_metadata : ℕ → String → String → List Blocker → List Blocker
stamp_metadata n channel metadata [] = []
stamp_metadata n channel metadata (b ∷ rest) =
    (if b.id == n
      then record b { notify_metadata = insert channel metadata b.notify_metadata }
      else b)
    ∷ stamp_metadata n channel metadata rest

unfoldable pub op_stamp_blocker_metadata :
    String → ℕ → String → String → Db → Result (Unit {0} × Db)
unfolding stamp_metadata
op_stamp_blocker_metadata slug n channel metadata db =
    plan_txn slug
      (λ row seq. ok (
        tt,
        on_row_plan (λ p. record p { blockers = stamp_metadata n channel metadata p.blockers }) row,
        seq,
      ))
      db

abbrev pub spawned_event : ℕ → ℕ → Option String → Option String → Event
spawned_event now n source by = record (State.event now task_spawned) {
  fields = ("task", num n) ∷ ("source", optional source) ∷ ("spawned_by_phase", optional by) ∷ [];
}
  where
    optional : Option String → Value
    optional none = null
    optional (some t) = text t

unfoldable pub spawn_body :
    ℕ → Option String → Option String → String → Option String → Option String → PlanTxn ℕ
spawn_body now source by status token phase row seq = do
  check_token token phase row
  let n = length row.plan.spawned_tasks + 1
  let added =
      on_row_plan
        (λ p. record p {
          spawned_tasks =
              p.spawned_tasks
              ++ record {
                id = n;
                status = status;
                source = source;
                spawned_by_phase = by;
                completed_at = none;
              }
                ∷ [];
        })
        row
  finish n (spawned_event now n source by ∷ []) added seq

unfoldable pub op_spawn_task :
    ℕ
    → String
    → Option String
    → Option String
    → String
    → Option String
    → Option String
    → Db
    → Result (ℕ × Db)
unfolding spawn_body
op_spawn_task now slug source by status token phase db =
    plan_txn slug (spawn_body now source by status token phase) db

unfoldable pub find_task : ℕ → List Task → Option Task
find_task n [] = none
find_task n (t ∷ rest) = let later = find_task n rest in if t.id == n then some t else later

unfoldable pub complete_in : ℕ → ℕ → List Task → List Task
complete_in now n [] = []
complete_in now n (t ∷ rest) =
    (if t.id == n then record t { status = "done"; completed_at = some (utcnow now) } else t)
    ∷ complete_in now n rest

unfoldable pub complete_task_body :
    ℕ → ℕ → Option String → Option String → List Event → PlanTxn (Unit {0})
unfolding find_task complete_in
complete_task_body now n token phase events row seq = do
  check_token token phase row
  elim (find_task n row.plan.spawned_tasks) [
    | none ↦ err key_error
    | some t ↦
        if t.status == "done"
        then ok (tt, row, seq)
        else finish tt events
            (on_row_plan (λ p. record p { spawned_tasks = complete_in now n p.spawned_tasks }) row)
            seq
  ]

unfoldable pub op_complete_task :
    ℕ → String → ℕ → Option String → Option String → List Event → Db → Result (Unit {0} × Db)
unfolding complete_task_body
op_complete_task now slug n token phase events db =
    plan_txn slug (complete_task_body now n token phase events) db

unfoldable pub set_status_body :
    Status → List Event → Option String → Option String → PlanTxn (Unit {0})
set_status_body status events token phase row seq = do
  row' ← release_if_asked token phase row
  finish tt events (on_row_plan (λ p. record p { status = status }) row') seq

unfoldable pub op_set_status :
    String → Status → List Event → Option String → Option String → Db → Result (Unit {0} × Db)
unfolding set_status_body
op_set_status slug status events token phase db =
    plan_txn slug (set_status_body status events token phase) db

-- `attestations[gate].commit_sha` of the live claim.
unfoldable pub stamped_sha : String → Option Claim → Option String
stamped_sha gate none = none
stamped_sha gate (some claim) = elim (lookup gate claim.attestations) [
  | none ↦ none
  | some a ↦ some a.commit_sha
]

abbrev text_or_null : Option String → Value
text_or_null none = null
text_or_null (some t) = text t

abbrev pub refused_event : ℕ → String → String → Option String → String → Event
refused_event now phase gate stamped head_sha = record (State.event now attestation_refused) {
  phase = some phase;
  fields =
      ("gate", text gate) ∷ ("stamped_at", text_or_null stamped) ∷ ("head_sha", text head_sha) ∷ [];
}

unfoldable pub refuse_body : ℕ → String → String → String → PlanTxn (Option String × Bool)
unfolding stamped_sha
refuse_body now phase gate head_sha row seq =
    let fresh = stamped_sha gate row.plan.current_claim in
    if fresh == some head_sha
    then ok ((none, false), row, seq)
    else finish (fresh, true) (refused_event now phase gate fresh head_sha ∷ []) row seq

unfoldable pub op_refuse_attestation :
    ℕ → String → String → String → String → Db → Result ((Option String × Bool) × Db)
unfolding refuse_body
op_refuse_attestation now slug phase gate head_sha db =
    plan_txn slug (refuse_body now phase gate head_sha) db

unfoldable pub op_set_worktree : String → Option Worktree → List Event → Db → Result (Unit {0} × Db)
op_set_worktree slug worktree events db =
    plan_txn slug
      (λ row seq. finish tt events (on_row_plan (λ p. record p { worktree = worktree }) row) seq) db

-- The hot events move, ids and order kept, behind what was archived before.
unfoldable pub archive_body : PlanTxn ℕ
archive_body row seq = ok (
  length row.plan.events,
  record row { plan = record row.plan { events = [] }; archived = row.archived ++ row.plan.events },
  seq,
)

unfoldable pub op_archive_events : String → Db → Result (ℕ × Db)
unfolding archive_body
op_archive_events slug db = plan_txn slug archive_body db

-- The insert is the duplicate check: a slug that is taken raises FileExistsError.
unfoldable pub create : Plan → Db → Result (Unit {0} × Db)
unfolding insert_events
create plan db =
    if validate_slug plan.plan_slug
    then elim (lookup plan.plan_slug db.plans) [
      | some row ↦ err file_exists
      | none ↦
          let (row, seq) =
            insert_events plan.events
              (record { plan = record plan { events = [] }; version = 0; archived = [] })
              db.event_seq in
          ok (tt, record { plans = insert plan.plan_slug row db.plans; event_seq = seq })
    ]
    else err invalid_slug

unfoldable pub snapshot : String → Db → Result Plan
snapshot slug db = elim (lookup slug db.plans) [
  | none ↦ err file_not_found
  | some row ↦ ok row.plan
]
