-- ===== src/Store/History/Steps.antt =====
-- The transactions of end_of_line/plan_store.py as steps of one store, by the supervisor's ticks,
-- the workers and the operator, and what one step may do to each plan.
use end_of_line.Shared.{
  ℕ, suc, ◌≤◌, String, Option, none, some, List, [], Bool, ◌≡◌, ◌⊎◌, sym, ap, subst, ok, arith, inl,
  inr, lookup, string_eq, ◌==◌, Bool-cases,
}
use end_of_line.State.{Plan, Event, Status, Stamp, Worktree, Claim}
use end_of_line.Quota.{Pause}
use end_of_line.Store.{Row, Db}
use end_of_line.Store.Fields.{FieldName, ClaimField}
use end_of_line.Store.Head.{HeadField, HeadName, op_set_fields}
use end_of_line.Store.Transaction.{PlanTxn, plan_txn}
use end_of_line.Store.Transaction.Isolation.{plan_txn-ok, plan_txn-other}
use end_of_line.Store.ClaimOps.{
  Activity, op_heartbeat, op_activity, op_stamp_claim_fields, op_append_events, op_release_claim,
  op_stamp_attestation, op_extend_lease,
}
use end_of_line.Store.PlanOps.{
  op_add_blocker, op_answer_blocker, op_stamp_blocker_metadata, op_spawn_task, op_complete_task,
  op_set_status, op_refuse_attestation, op_set_worktree, op_archive_events, create,
}
use end_of_line.Supervisor.Work.{Config, World}
use end_of_line.Supervisor.Tick.{Outcome, tick_on}
use end_of_line.Store.History.{Extends}
use end_of_line.Store.History.Order.{IsSoundRow}
use end_of_line.Store.History.ClaimBodies.{Keeps}

-- One transaction of any process on the store. A plan is created without blockers and tasks, as
-- `clu init` and the queue's pop do; a tick acts on a snapshot that may be old.
pub data Step (db db' : Db) : Type 0 where
  heartbeat :
      (now : ℕ) (slug token phase : String) (r : Stamp)
      → op_heartbeat now slug token phase db ≡ ok (r, db')
      → Step db db'
  activity :
      (busy : Bool) (now : ℕ) (slug token phase : String) (action : Activity) (r : Bool)
      → op_activity busy now slug token phase action db ≡ ok (r, db')
      → Step db db'
  stamp_claim_fields :
      (slug token : String) (phase : Option String) (fields : List ClaimField)
      (if_unset : Option FieldName) (events : List Event) (r : Bool)
      → op_stamp_claim_fields slug token phase fields if_unset events db ≡ ok (r, db')
      → Step db db'
  append_events :
      (slug : String) (events : List Event) (token phase : Option String) (r : Unit {0})
      → op_append_events slug events token phase db ≡ ok (r, db')
      → Step db db'
  release_claim :
      (slug : String) (token phase : Option String) (events : List Event) (r : Option Claim)
      → op_release_claim slug token phase events db ≡ ok (r, db')
      → Step db db'
  stamp_attestation :
      (now : ℕ) (slug : String) (token phase : Option String) (kind sha : String)
      (events : List Event) (r : Unit {0})
      → op_stamp_attestation now slug token phase kind sha events db ≡ ok (r, db')
      → Step db db'
  extend_lease :
      (now : ℕ) (slug phase : String) (minutes : ℕ) (r : Stamp)
      → op_extend_lease now slug phase minutes db ≡ ok (r, db')
      → Step db db'
  add_blocker :
      (now : ℕ) (slug phase_id question : String) (options : List String) (context kind : String)
      (token phase : Option String) (r : ℕ)
      → op_add_blocker now slug phase_id question options context kind token phase db ≡ ok (r, db')
      → Step db db'
  answer_blocker :
      (now : ℕ) (slug : String) (n : ℕ) (raw r : String)
      → op_answer_blocker now slug n raw db ≡ ok (r, db')
      → Step db db'
  stamp_blocker_metadata :
      (slug : String) (n : ℕ) (channel metadata : String) (r : Unit {0})
      → op_stamp_blocker_metadata slug n channel metadata db ≡ ok (r, db')
      → Step db db'
  spawn_task :
      (now : ℕ) (slug : String) (source by : Option String) (status : String)
      (token phase : Option String) (r : ℕ)
      → op_spawn_task now slug source by status token phase db ≡ ok (r, db')
      → Step db db'
  complete_task :
      (now : ℕ) (slug : String) (n : ℕ) (token phase : Option String) (events : List Event)
      (r : Unit {0})
      → op_complete_task now slug n token phase events db ≡ ok (r, db')
      → Step db db'
  set_status :
      (slug : String) (status : Status) (events : List Event) (token phase : Option String)
      (r : Unit {0})
      → op_set_status slug status events token phase db ≡ ok (r, db')
      → Step db db'
  refuse_attestation :
      (now : ℕ) (slug phase gate head_sha : String) (r : Option String × Bool)
      → op_refuse_attestation now slug phase gate head_sha db ≡ ok (r, db')
      → Step db db'
  set_fields :
      (slug : String) (fields : List HeadField) (names : List HeadName) (events : List Event)
      (r : Unit {0})
      → op_set_fields slug fields names events db ≡ ok (r, db')
      → Step db db'
  set_worktree :
      (slug : String) (worktree : Option Worktree) (events : List Event) (r : Unit {0})
      → op_set_worktree slug worktree events db ≡ ok (r, db')
      → Step db db'
  archive_events : (slug : String) (r : ℕ) → op_archive_events slug db ≡ ok (r, db') → Step db db'
  create_plan :
      (plan : Plan) (r : Unit {0})
      → plan.blockers ≡ []
      → plan.spawned_tasks ≡ []
      → create plan db ≡ ok (r, db')
      → Step db db'
  tick :
      (cfg : Config) (world : World) (seen : Plan) (pause : Option Pause) (o : Outcome)
      → tick_on cfg world seen pause db ≡ ok o
      → o.db ≡ db'
      → Step db db'

-- Any number of such transactions.
pub data Run (db : Db) : Db → Type 0 where
  stop : Run db db
  next : {mid later : Db} → Run db mid → Step mid later → Run db later

-- What one step does to the plan of that slug: nothing, an extension, or its creation.
pub data Change (slug : String) (db db' : Db) : Type 0 where
  same : lookup slug db'.plans ≡ lookup slug db.plans → Change slug db db'
  extended :
      (row row' : Row)
      → lookup slug db.plans ≡ some row
      → lookup slug db'.plans ≡ some row'
      → Extends row db.event_seq row' db'.event_seq
      → Change slug db db'
  created :
      (row' : Row)
      → lookup slug db.plans ≡ none
      → lookup slug db'.plans ≡ some row'
      → IsSoundRow db'.event_seq row'
      → Change slug db db'

-- The law of one step: the counter never falls, and every plan changes in one of the three ways.
pub record IsLawful (db db' : Db) : Type 0 where
  pub counted : db.event_seq ≤ db'.event_seq
  pub changed : (slug : String) → Change slug db db'

-- The version that the transaction bumps is no part of the history.
unbump :
    (row row' : Row) (version seq seq' : ℕ)
    → Extends (record row { version = version }) seq row' seq'
    → Extends row seq row' seq'
unbump row row' version seq seq' e = record {
  new = e.new;
  logged = e.logged;
  counted = e.counted;
  blockers = e.blockers;
  tasks = e.tasks;
}

pub other_or_same : (s t : String) → (s ≡ t) ⊎ ((s ≡ t) → ⊥)
other_or_same s t = elim (Bool-cases (s == t)) [
  | inl y ↦ inl (ground (arith, y))
  | inr n ↦ inr (λ e. ground (arith, n, e))
]

pub Keeps-IsLawful :
    {A : Type 0} (slug : String) (body : PlanTxn A) (db db' : Db) (a : A)
    → Keeps body
    → plan_txn slug body db ≡ ok (a, db')
    → IsLawful db db'
Keeps-IsLawful slug body db db' a keeps h =
    let (row, row', found, ran, left) = plan_txn-ok slug body db db' a h in
    let e =
      unbump row row' (suc row.version) db.event_seq db'.event_seq
        (keeps (record row { version = suc row.version }) row' db.event_seq db'.event_seq a ran) in
    record {
      counted = omega (arith, e.counted);
      changed = λ s. elim (other_or_same s slug) [
        | inl y ↦ subst (λ t. Change t db db') (sym y) (extended row row' found left e)
        | inr n ↦ same (plan_txn-other slug s body db db' a n h)
      ];
    }

pub unchanged-IsLawful : (db db' : Db) → db ≡ db' → IsLawful db db'
unchanged-IsLawful db db' e = record {
  counted = omega (arith, ap (λ d. d.event_seq) e);
  changed = λ slug. same (ap (λ d. lookup slug d.plans) (sym e));
}
