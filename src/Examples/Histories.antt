-- ===== src/Examples/Histories.antt =====
-- Runs of the store on the sample plans.
use end_of_line.Shared.{
  none, some, [], refl, ap, arith, ◌==◌, ℕ_discrete, lookup, Result, ok, err, string_eq,
  String-discrete,
}
use end_of_line.State.{option_text_eq, utcnow, OptionText-discrete, Status-discrete}
use end_of_line.State.Slug.{is_slug_char, validate_slug}
use end_of_line.Store.{Row, Db, stamp_events, max_event_id}
use end_of_line.Store.Transaction.{plan_txn, insert_events, finish, match_claim, release_in_txn}
use end_of_line.Store.ClaimOps.{heartbeat_body, op_heartbeat, release_body, op_release_claim}
use end_of_line.Store.PlanOps.{create}
use end_of_line.State.Claims.{claim_phase}
use end_of_line.State.Attempts.{attempts_for_phase}
use end_of_line.State.Blockers.{stuck_blocker_repings}
use end_of_line.Store.Conditions.{
  Holder-discrete, claim_as_expected, fields_as_expected, events_as_expected, blockers_as_expected,
  status_as_expected, assert_preconditions, Identity,
}
use end_of_line.Store.Apply.{apply_claim_updates, apply_blocker_updates, claim_in_txn}
use end_of_line.Supervisor.Watchdogs.{reping_all}
use end_of_line.Supervisor.Tick.{Outcome, tick_on, tick}
use end_of_line.Examples.Ticks.{outcome_of, before}
use end_of_line.Store.History.Steps.{Step, stop, next}
use end_of_line.Store.History.Runs.{Run-history_grows, HasGrown, Run-IsSound, IsSound}
use end_of_line.Store.History.Handover.{Run-FreeBetween, FreeBetween}
use end_of_line.Examples.{idle_plan, claimed_plan, old_claim, row_of, db_of, noon, settings, world}

abbrev db_after {ℓ} : {A : Type ℓ} → Result (A × Db) → Db
db_after (ok (a, db)) = db
db_after (err e) = db_of idle_plan

abbrev beaten : Db
beaten = db_after (op_heartbeat noon "demo" "tok" "a" (db_of claimed_plan))

abbrev started : Db
started = db_after (create idle_plan (record { plans = []; event_seq = 5 }))

Run-history_grows_example : HasGrown "demo" (row_of claimed_plan) beaten
unfolding is_slug_char validate_slug plan_txn match_claim heartbeat_body op_heartbeat
    String-discrete OptionText-discrete
Run-history_grows_example =
    Run-history_grows "demo" (row_of claimed_plan) (db_of claimed_plan) beaten refl
      (next stop (Step.heartbeat noon "demo" "tok" "a" (utcnow noon) refl))

Run-IsSound_example : IsSound started
unfolding is_slug_char validate_slug create insert_events stamp_events String-discrete
Run-IsSound_example =
    Run-IsSound 5 started (next stop (Step.create_plan idle_plan tt refl refl refl))

-- The operator frees the plan, and a tick hands it to the next worker.
abbrev freed : Db
freed = db_after (op_release_claim "demo" none none [] (db_of claimed_plan))

abbrev claim_row : Db → Row
claim_row db = elim (lookup "demo" db.plans) [ none ↦ row_of idle_plan | some row ↦ row ]

abbrev first_hand : Outcome
first_hand = outcome_of before (tick_on settings world idle_plan none freed)

Run-FreeBetween_example : FreeBetween "demo" (db_of claimed_plan) first_hand.db
unfolding Status-discrete is_slug_char validate_slug claim_phase attempts_for_phase
    stuck_blocker_repings max_event_id plan_txn Holder-discrete claim_as_expected fields_as_expected
    events_as_expected blockers_as_expected status_as_expected assert_preconditions
    apply_claim_updates apply_blocker_updates claim_in_txn reping_all tick String-discrete
    ℕ_discrete OptionText-discrete release_in_txn release_body op_release_claim insert_events finish
Run-FreeBetween_example =
    Run-FreeBetween "demo" (db_of claimed_plan) (row_of claimed_plan) (claim_row first_hand.db)
      first_hand.db (some "tok", "a") (some "tok2", "a") refl refl refl refl
      (λ e. ground (arith, ap (λ (i : Identity). i.0 == some "tok") e))
      (next (next stop (Step.release_claim "demo" none none [] (some old_claim) refl))
        (Step.tick settings world idle_plan none first_hand refl refl))
