-- ===== src/Rules.antt =====
-- The chain of the cross-plan rules of end_of_line/cross_plan_rules.py: `run_rules` and `_apply`. A
-- plan's slug stands for its `state_path`.
pub mod Queueing
pub mod Shipping
pub mod Settling
pub mod Advancing
pub mod Stranding
use end_of_line.Shared.{String, Option, none, some, List, [], ◌∷◌, Result, ok, err, ◌>>◌}
use end_of_line.State.{Plan}
use end_of_line.Store.{Db}
use end_of_line.Store.Head.{HeadField, op_set_fields}
use end_of_line.Queue.{Queue}
use end_of_line.Registry.{PlanEntry}

pub record ProjectPlan : Type 0 where
  pub slug : String
  pub state : Plan

pub data Notice : Type 0 where
  queue_skipped : String → Notice
  ready_to_ship : List String → Notice
  plan_auto_archived : String → String → Notice

-- `ticked` is the plan that the rule ticked after its pop.
pub record RuleResult : Type 0 where
  pub rule_name : String
  pub notifies : List Notice
  pub field_updates_per_plan : List (String × List HeadField)
  pub ticked : Option String

-- What the rules write: the project's plans, its queue, and the host's registry.
pub record Project : Type 0 where
  pub db : Db
  pub queue : Queue
  pub registry : List PlanEntry

abbrev pub Answer : Type 0
Answer = Result (Option RuleResult) × Project

abbrev pub quiet : Project → Answer
quiet p = (ok none, p)

abbrev pub plain_result : String → List Notice → RuleResult
plain_result name notifies = record {
  rule_name = name;
  notifies = notifies;
  field_updates_per_plan = [];
  ticked = none;
}

-- `_apply`: one transaction for each plan; a failure leaves those before it written.
unfoldable pub apply_updates : List (String × List HeadField) → Db → Result (Unit {0}) × Db
unfolding op_set_fields
apply_updates [] db = (ok tt, db)
apply_updates ((slug, fields) ∷ rest) db = elim (op_set_fields slug fields [] [] db) [
  | err e ↦ (err e, db)
  | ok (u, db') ↦ apply_updates rest db'
]

unfoldable pub apply_result : RuleResult → Project → Answer
unfolding apply_updates
apply_result r p =
    let (wrote, db) = apply_updates r.field_updates_per_plan p.db in
    (wrote >> ok (some r), record p { db = db })

-- The first rule that answers ends the chain.
unfoldable pub run_rules : List (Project → Answer) → Project → Answer
unfolding apply_result
run_rules [] p = quiet p
run_rules (rule ∷ rest) p =
    let (answer, p') = rule p in
    elim answer [
      | err e ↦ (err e, p')
      | ok result ↦ elim result [ none ↦ run_rules rest p' | some r ↦ apply_result r p' ]
    ]
