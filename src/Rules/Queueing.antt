-- ===== src/Rules/Queueing.antt =====
-- `queue_advancement_rule` of end_of_line/cross_plan_rules.py, with the pops of end_of_line/queue.py.
use end_of_line.Shared.{
  ℕ, String, Option, none, some, List, [], ◌∷◌, Bool, true, false, not, ◌&&◌, ◌||◌, any,
  if◌then◌else◌, ◌==◌, string_eq, Result, ok, err, lookup,
}
use end_of_line.State
use end_of_line.State.{
  Plan, Event, Status, Stamp, Extra, text, num, running, done, halted, halted_for_replan, paused,
  queue_popped, empty_state, status_eq, option_text_eq,
}
use end_of_line.State.Slug.{validate_slug}
use end_of_line.State.Claims.{append_event}
use end_of_line.Store.{Db}
use end_of_line.Store.PlanOps.{create}
use end_of_line.Queue
use end_of_line.Queue.{Entry, Queue, pending, pop_head_in_txn}
use end_of_line.Registry.{register}
use end_of_line.Rules.{ProjectPlan, Notice, queue_skipped, Project, Answer, quiet, plain_result}

abbrev pub is_frozen : Status → Bool
is_frozen s = s == halted || s == halted_for_replan || s == paused

abbrev pub is_over : Status → Bool
is_over s = s == done || s == running

abbrev is_in : (Status → Bool) → Option Status → Bool
is_in test none = false
is_in test (some s) = test s

abbrev pub has_claim : ProjectPlan → Bool
has_claim p = elim p.state.current_claim [ none ↦ false | some c ↦ true ]

abbrev pub is_slug : String → ProjectPlan → Bool
is_slug slug p = p.slug == slug

-- What the queue rule finds outside the stores: `queue_readable` and `state_readable` are false where
-- a read fails, `plan_file` says whether the plan's file is there.
pub record Site : Type 0 where
  pub now : ℕ
  pub root : String
  pub plan_dir : String
  pub resolve : String → String
  pub is_dir : String → Bool
  pub plan_file : String → Bool
  pub queue_readable : Bool
  pub state_readable : Bool

abbrev pub existing_status : Site → String → Db → Option Status
existing_status site slug db =
    if site.state_readable
    then elim (lookup slug db.plans) [ none ↦ none | some row ↦ some row.plan.status ]
    else none

abbrev stamp_or_null : Option Stamp → State.Value
stamp_or_null none = State.null
stamp_or_null (some ts) = State.time ts

abbrev text_or : String → Option String → State.Value
text_or other none = text other
text_or other (some t) = text t

-- `head.get("batch_id")`, where an empty one is none.
abbrev batch_of : Option String → Option String
batch_of none = none
batch_of (some b) = if b == "" then none else some b

unfoldable pub fresh_plan : Site → Entry → Plan
unfolding empty_state append_event
fresh_plan site head =
    append_event
      (record (State.event site.now queue_popped) {
        fields =
            ("slug", text head.slug)
            ∷ ("added_at", stamp_or_null head.added_at)
            ∷ ("added_by", text_or "operator" head.added_by)
            ∷ ("position", num 1)
            ∷ [];
      })
      (record (empty_state site.now head.slug site.plan_dir) { batch_id = batch_of head.batch_id })

-- A plan that is there already stays, and its pop commits.
abbrev pub created : Result (Unit {0} × Db) → Db → Db
created (ok (u, db')) db = db'
created (err e) db = db

-- Transaction two, on the host database, and the tick of the new plan, which is named in the result and
-- not run here. Where the registration refuses the project the first transaction stays; a host database
-- that cannot be written, or a process that ends, leaves the same, the project of `popped_in_txn`.
unfoldable pub registered : Site → Entry → Project → Answer
unfolding register
registered site head popped =
    elim (register site.resolve site.is_dir site.now site.root head.slug popped.registry) [
      | err e ↦ (err e, popped)
      | ok (added, registry) ↦ (
        ok (some (record (plain_result "queue_advancement" []) { ticked = some head.slug })),
        record popped { registry = registry },
      )
    ]

-- Transaction one, on the project's database: whether it found the head, and what it leaves then. A
-- process that ends behind it leaves that.
unfoldable pub popped_in_txn : Site → Entry → Project → Bool × Project
unfolding pop_head_in_txn create fresh_plan
popped_in_txn site head p =
    let (moved, queue) = pop_head_in_txn site.now head.slug Queue.popped [] p.queue in
    (moved, record p { db = created (create (fresh_plan site head) p.db) p.db; queue = queue })

-- The two transactions of the pop and the tick of the new plan, in order.
unfoldable pub pop_plan : Site → Entry → Project → Answer
unfolding popped_in_txn registered
pop_plan site head p =
    let (moved, popped) = popped_in_txn site head p in
    if moved then registered site head popped else quiet p

-- `pop_head_if`, for the heads that leave without a plan.
unfoldable pub drop_head : Site → Entry → Queue.Outcome → List Notice → Project → Answer
unfolding pop_head_in_txn
drop_head site head outcome notifies p =
    let (moved, queue) = pop_head_in_txn site.now head.slug outcome [] p.queue in
    if moved
    then (ok (some (plain_result "queue_advancement" notifies)), record p { queue = queue })
    else quiet p

unfoldable pub advance : Site → List ProjectPlan → Entry → Project → Answer
unfolding pop_plan drop_head
advance site plans head p =
    let status = existing_status site head.slug p.db in
    let is_registered = any (is_slug head.slug) plans in
    if not (validate_slug head.slug)
    then quiet p
    else if is_registered && is_in is_frozen status
    then quiet p
    else if is_registered && is_in is_over status
    then drop_head site head Queue.absorbed [] p
    else if not (site.plan_file head.slug)
    then drop_head site head Queue.abandoned (queue_skipped head.slug ∷ []) p
    else pop_plan site head p

unfoldable pub queue_advancement_rule : Site → List ProjectPlan → Project → Answer
unfolding advance pending
queue_advancement_rule site plans p =
    if any has_claim plans
    then quiet p
    else if site.queue_readable
    then elim (pending p.queue) [ [] ↦ quiet p | head ∷ rest ↦ advance site plans head p ]
    else quiet p
