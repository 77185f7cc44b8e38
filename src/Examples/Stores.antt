-- ===== src/Examples/Stores.antt =====
-- The operations of end_of_line/plan_store.py on the sample plans.
use end_of_line.Shared.{
  ℕ, String, Option, none, some, [], ◌∷◌, ◌++◌, ◌≡◌, refl, Result, ok, err, string_eq,
  String-discrete, length, nat_eq,
}
use end_of_line.State.Slug.{is_slug_char, validate_slug}
use end_of_line.State.Claims.{claim_phase}
use end_of_line.Store.Transaction.{plan_txn}
use end_of_line.Store.Conditions.{
  Holder-discrete, claim_as_expected, fields_as_expected, events_as_expected, blockers_as_expected,
  status_as_expected, assert_preconditions,
}
use end_of_line.Store.PlanOps.{add_blocker_body, archive_body, op_archive_events}
use end_of_line.Store.Apply.{
  apply_claim_updates, apply_blocker_updates, claim_in_txn, apply_tick_delta,
}
use end_of_line.State.{Plan, Claim, Event, option_text_eq, at, event, blocker_answered}
use end_of_line.State.Claims.{started_event}
use end_of_line.Store.{Row, Db}
use end_of_line.Store.Fields.{ClaimField}
use end_of_line.Store.Conditions.{Conditions, unchecked}
use end_of_line.Store.Apply.Effects.{apply_tick_delta-ok, IsApplied}
use end_of_line.Store.PlanOps.Once.{archive_body_lem}
use end_of_line.Supervisor.Delta.{Delta, empty_delta}
use end_of_line.Examples.{idle_plan, claimed_plan, row_of, db_of, noon}

abbrev db_after {ℓ} : {A : Type ℓ} → Result (A × Db) → Db
db_after (ok (a, db)) = db
db_after (err e) = db_of idle_plan

abbrev row_after {ℓ} : {A : Type ℓ} → Result (A × Row × ℕ) → Row
row_after (ok (a, row, seq)) = row
row_after (err e) = row_of idle_plan

abbrev token_of : Option Claim → Option String
token_of none = none
token_of (some c) = c.claimed_by

-- A delta that asks for phase `a` on a plan that was seen without a claim.
abbrev ask : Delta
ask = record (empty_delta unchecked none) {
  claim_phase = some "a";
  lease_minutes = some 60;
  claim_attempts = some 2;
  pre = record unchecked { expect_claim = some none };
}

abbrev lease_judged : Conditions
lease_judged = record unchecked {
  expect_claim_fields = ClaimField.lease_expires (some (at 946683000)) ∷ [];
}

abbrev answered : Event
answered = event noon blocker_answered

abbrev task_plan : Plan
task_plan = record idle_plan {
  spawned_tasks =
      record {
        id = 1;
        status = "pending";
        source = none;
        spawned_by_phase = none;
        completed_at = none;
      }
      ∷ [];
}

abbrev old_plan : Plan
old_plan = record idle_plan { events = started_event noon "tok" "a" ∷ [] }

abbrev asked : Result (ℕ × Row × ℕ)
asked =
    add_blocker_body noon "a" "left or right?" ("left" ∷ []) "" "question" (some "tok") (some "a")
      (row_of claimed_plan) 10

abbrev two_plans : Db
two_plans = record {
  plans = ("other", row_of idle_plan) ∷ ("demo", row_of claimed_plan) ∷ [];
  event_seq = 10;
}

apply_tick_delta-ok_example :
    IsApplied noon "tok2" "demo" ask
      (db_of idle_plan)
      (db_after (apply_tick_delta noon "tok2" "demo" ask (db_of idle_plan)))
      (some "tok2")
unfolding is_slug_char validate_slug claim_phase plan_txn Holder-discrete claim_as_expected
    fields_as_expected events_as_expected blockers_as_expected status_as_expected
    assert_preconditions apply_claim_updates apply_blocker_updates claim_in_txn apply_tick_delta
    String-discrete
apply_tick_delta-ok_example =
    apply_tick_delta-ok noon "tok2" "demo" ask (db_of idle_plan)
      (db_after (apply_tick_delta noon "tok2" "demo" ask (db_of idle_plan))) (some "tok2") refl

archive_body_lem_example :
    ((row_after (archive_body (row_of old_plan) 10)).archived
        ++ (row_after (archive_body (row_of old_plan) 10)).plan.events
      ≡ (row_of old_plan).archived ++ old_plan.events)
    × (1 ≡ length old_plan.events)
    × ◌≡◌ {A = ℕ} 0 0
    × ((row_after (archive_body (row_of old_plan) 10)).archived
        ≡ (row_after (archive_body (row_of old_plan) 10)).archived)
unfolding op_archive_events
archive_body_lem_example =
    archive_body_lem (row_of old_plan) (row_after (archive_body (row_of old_plan) 10))
      (row_after (archive_body (row_of old_plan) 10)) 10 10 10 1 0 refl refl
