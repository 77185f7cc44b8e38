-- ===== src/Command/Chaining.antt =====
-- `_cmd_queue_add_worker` of end_of_line/cli.py: a worker queues the next plan, under its claim on the
-- plan that it works for.
pub mod Capped
use end_of_line.Shared.{
  ℕ, ◌+◌, String, Option, none, some, List, [], ◌∷◌, ◌++◌, Bool, true, false, ◌&&◌, map, filter,
  length, contains, if◌then◌else◌, leb, ◌==◌, string_eq, Result, ok, err, ◌>>=◌, ◌>>◌, lookup,
}
use end_of_line.State
use end_of_line.State.{
  Plan, Event, text, queue_appended, queue_rejected, default_max_queue_adds_per_phase,
  option_text_eq, utcnow,
}
use end_of_line.State.Slug.{validate_slug}
use end_of_line.State.Claims.{assert_claim_match, get_or_default}
use end_of_line.Store.{Db}
use end_of_line.Store.ClaimOps.{op_append_events}
use end_of_line.Queue.{Entry, Left, Queue, pending, slugs, insert_in_txn}
use end_of_line.Command.Exit.{ExitCode}
use end_of_line.Command.{Outcome, die, leave, translate_claim_mismatch}

-- The arguments, with what the command finds outside the store: whether the plan file is there,
-- whether the plan runs already, whether the queue can be read, and the token's fingerprint.
pub record Chain : Type 0 where
  pub now : ℕ
  pub slug : String
  pub source_plan : String
  pub source_phase : String
  pub token : String
  pub token_fp : String
  pub reason : Option String
  pub has_plan_file : Bool
  pub running : Bool
  pub readable : Bool

abbrev reason_field : Option String → List (String × String)
reason_field none = []
reason_field (some r) = ("reason", r) ∷ []

abbrev pub chain_entry : Chain → Entry
chain_entry c = record {
  slug = c.slug;
  added_at = some (utcnow c.now);
  added_by = some "worker";
  batch_id = none;
  extra =
      ("position_at_add", "tail")
      ∷ ("source_plan", c.source_plan)
      ∷ ("source_phase", c.source_phase)
      ∷ ("source_token_fp", c.token_fp)
      ∷ reason_field c.reason;
}

abbrev pub is_sourced : String → String → Entry → Bool
is_sourced plan phase e =
    lookup "source_plan" e.extra == some plan && lookup "source_phase" e.extra == some phase

abbrev pub left_entry : Left → Entry
left_entry l = l.entry

-- The entries that a phase has added, pending and in history.
unfoldable pub existing_count : String → String → Queue → ℕ
unfolding pending
existing_count plan phase q =
    length (filter (is_sourced plan phase) (pending q ++ map left_entry q.history))

pub data Verdict : Type 0 where
  cap pending_already running_already in_history queued : Verdict

-- The checks of the queue's transaction, in their order.
unfoldable pub judge : ℕ → Chain → Queue → Verdict
unfolding existing_count pending slugs
judge limit c q =
    if leb limit (existing_count c.source_plan c.source_phase q)
    then cap
    else if contains c.slug (slugs (pending q))
    then pending_already
    else if c.running
    then running_already
    else if contains c.slug (slugs (map left_entry q.history))
    then in_history
    else queued

abbrev pub rejected_event : Chain → String → Event
rejected_event c reason = record (State.event c.now queue_rejected) {
  fields =
      ("slug", text c.slug) ∷ ("source_phase", text c.source_phase) ∷ ("reason", text reason) ∷ [];
}

abbrev texts_of : List (String × String) → List (String × State.Value)
texts_of [] = []
texts_of ((k, t) ∷ rest) = (k, text t) ∷ texts_of rest

abbrev pub appended_event : Chain → Event
appended_event c = record (State.event c.now queue_appended) {
  fields =
      ("slug", text c.slug)
      ∷ ("source_phase", text c.source_phase)
      ∷ ("token_fp", text c.token_fp)
      ∷ texts_of (reason_field c.reason);
}

-- An event under the source's claim, then the exit code.
unfoldable pub recorded : Chain → Event → ExitCode → Db → Result Outcome
unfolding op_append_events
recorded c evt code current = do
  wrote ← op_append_events c.source_plan (evt ∷ []) (some c.token) (some c.source_phase) current
  die code wrote.1

-- The insert commits ahead of the event, in a transaction of its own.
unfoldable pub on_verdict : Chain → Verdict → Db → Queue → Result Outcome × Queue
unfolding recorded insert_in_txn
on_verdict c cap current q = (recorded c (rejected_event c "cap") ExitCode.queue_cap current, q)
on_verdict c pending_already current q = (leave current [], q)
on_verdict c running_already current q = (leave current [], q)
on_verdict c in_history current q = (die ExitCode.status_transition current, q)
on_verdict c queued current q = elim (insert_in_txn (chain_entry c) false q) [
  | err e ↦ (err e, q)
  | ok (position, q') ↦ (recorded c (appended_event c) ExitCode.ok current, q')
]

abbrev pub queue_cap_of : Plan → ℕ
queue_cap_of plan =
    get_or_default default_max_queue_adds_per_phase plan.config.max_queue_adds_per_phase

-- After the claim was found to match in the snapshot.
unfoldable pub chained : Chain → Plan → Db → Queue → Result Outcome × Queue
unfolding on_verdict judge recorded
chained c seen current q =
    if c.has_plan_file
    then (if c.readable
        then on_verdict c (judge (queue_cap_of seen) c q) current q
        else (die ExitCode.generic current, q))
    else (recorded c (rejected_event c "missing_plan_file") ExitCode.unknown_task current, q)

abbrev pub with_claim : Chain → Result (Unit {0}) → Plan → Db → Queue → Result Outcome × Queue
with_claim c (err e) seen current q = (err e, q)
with_claim c (ok _) seen current q = chained c seen current q

abbrev pub is_well_named : Chain → Bool
is_well_named c =
    validate_slug c.slug && validate_slug c.source_plan && validate_slug c.source_phase

abbrev pub translate : Db → Result Outcome × Queue → Result Outcome × Queue
translate current (r, q) = (translate_claim_mismatch current r, q)

unfoldable pub cmd_queue_add_worker : Chain → Db → Db → Queue → Result Outcome × Queue
unfolding chained assert_claim_match
cmd_queue_add_worker c before current q =
    if is_well_named c
    then elim (lookup c.source_plan before.plans) [
      | none ↦ (die ExitCode.unknown_task current, q)
      | some row ↦ translate current (
          with_claim c (assert_claim_match row.plan.current_claim c.token c.source_phase) row.plan
            current q)
    ]
    else (die ExitCode.invalid_slug current, q)
