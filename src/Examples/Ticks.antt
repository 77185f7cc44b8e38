-- ===== src/Examples/Ticks.antt =====
-- Whole ticks of end_of_line/supervisor.py on the sample plans.
use end_of_line.Shared.{
  ◌+◌, some, ◌≢◌, none, [], ◌≡◌, refl, Result, ok, err, lookup, string_eq, String-discrete,
  ℕ_discrete, nat_eq,
}
use end_of_line.State.{Status-discrete, EventKind-discrete, OptionText-discrete, empty_state}
use end_of_line.State.Slug.{is_slug_char, slug_tail, matches_slug, validate_slug}
use end_of_line.State.Claims.{
  append_event, lease_ttl_for_phase, stalled_threshold_for_phase, lease_past, release_if_expired,
  started_count, claim_phase, assert_claim_match, record_heartbeat, last_beat, is_claim_stalled,
  release_claim, terminalize,
}
use end_of_line.State.Attempts.{
  completed_phase_ids, latest_event, floor_loop, forgiven_tokens, attempts_in, attempts_for_phase,
  most_recent_halted_phase,
}
use end_of_line.State.Blockers.{
  add_blocker, answer_first, answer_blocker, digits, parse_index, resolve_answer, open_blockers,
  phase_has_open_blocker, process_answered_blockers, stuck_blocker_repings,
}
use end_of_line.Store.{stamp_events, max_event_id}
use end_of_line.Store.Fields.{
  ClaimField-discrete, read_field, write_field, write_fields, field_holds,
}
use end_of_line.Store.Transaction.{plan_txn, insert_events, finish, match_claim, release_in_txn}
use end_of_line.Store.Conditions.{
  Holder-discrete, BlockerState-discrete, claim_as_expected, fields_as_expected, events_as_expected,
  blockers_as_expected, status_as_expected, assert_preconditions, observed_conditions,
}
use end_of_line.Store.Apply.{
  apply_claim_updates, update_blockers, apply_blocker_updates, claim_in_txn, apply_body,
  apply_tick_delta,
}
use end_of_line.Quota.{
  record_quota_pause, clear_pause, decide_canary, decide_in_txn, gate_decision, record_quota_death,
}
use end_of_line.Supervisor.Delta.{
  is_empty, require_claim, require_claim_field, require_event_log, require_blocker, require_status,
}
use end_of_line.Supervisor.Tree.{unseen, walk, walk_worker_tree}
use end_of_line.Supervisor.Work.{
  delta_event, carry_events, stamp_claim, record_claim, stamp_first, stamp_blocker, set_status,
  release,
}
use end_of_line.Supervisor.Watchdogs.{
  emit_stalled_claim_notify, reping, reping_all, emit_stuck_blocker_repings,
  tool_stuck_already_emitted, is_stuck, report_stuck, stuck_loop, emit_stuck_tool, sample_tree,
  report_idle, is_idle, emit_worker_idle, gap_fill,
}
use end_of_line.Supervisor.Deaths.{
  harvest, on_lease_expired, on_worker_dead, detect_death, OptionStamp-discrete, report_stalled,
  is_newly_stalled, detect_stalled,
}
use end_of_line.Supervisor.Lane.{
  overdue, on_overdue, escalate, consume, consume_all, consume_answers, first_due, on_exhausted,
  ask_claim, dispatch_of, try_phase, on_done, wind_down, choose_phase, settle,
}
use end_of_line.Supervisor.Tick.{start, decide, apply, commit, tick_on, tick}
use end_of_line.Supervisor.Deaths.{Action, blank}
use end_of_line.Supervisor.Tick.{Outcome}
use end_of_line.Supervisor.Tick.Dispatch.{tick_dispatch, IsDispatched}
use end_of_line.Store.{Db, Row}
use end_of_line.State.{Claim}
use end_of_line.Supervisor.Work.{World}
use end_of_line.Supervisor.Tick.Twice.{no_second_dispatch}
use end_of_line.Examples.{idle_plan, claimed_plan, db_of, settings, world}

abbrev pub outcome_of : Outcome → Result Outcome → Outcome
outcome_of d (ok o) = o
outcome_of d (err e) = d

abbrev pub before : Outcome
before = record {
  result = record {
    action = Action.idle;
    detail = blank;
    phase_id = none;
    token = none;
    notify_body = none;
  };
  side_notifies = [];
  inbox_events = [];
  post_commit = [];
  worktree = none;
  pause = none;
  db = db_of idle_plan;
}

-- A tick that dispatches, and one whose plan was claimed behind its back.
abbrev first_tick : Outcome
first_tick = outcome_of before (tick_on settings world idle_plan none (db_of idle_plan))

abbrev late_tick : Outcome
late_tick = outcome_of before (tick_on settings world idle_plan none (db_of claimed_plan))

abbrev empty_db : Db
empty_db = record { plans = []; event_seq = 0 }

tick_dispatch_example : IsDispatched settings world idle_plan none (db_of idle_plan) first_tick
unfolding Status-discrete is_slug_char validate_slug claim_phase attempts_for_phase
    stuck_blocker_repings max_event_id plan_txn Holder-discrete claim_as_expected fields_as_expected
    events_as_expected blockers_as_expected status_as_expected assert_preconditions
    apply_claim_updates apply_blocker_updates claim_in_txn reping_all tick String-discrete
    ℕ_discrete
tick_dispatch_example =
    tick_dispatch settings world idle_plan none (db_of idle_plan) first_tick refl refl

-- The clock and the token of the second tick.
abbrev later_world : World
later_world = record world { now = world.now + 60000000; minted = "tok3" }

abbrev second_tick : Outcome
second_tick = outcome_of before (tick_on settings later_world idle_plan none first_tick.db)

no_second_dispatch_example :
    (second_tick.result.action ≢ Action.dispatch)
    × ((row : Row) × ((c : Claim) × ((lookup "demo" first_tick.db.plans ≡ some row)
            × (row.plan.current_claim ≡ some c)
            × (c.claimed_by ≡ some "tok2"))))
unfolding BlockerState-discrete ClaimField-discrete EventKind-discrete Holder-discrete
    OptionStamp-discrete OptionText-discrete Status-discrete String-discrete add_blocker
    answer_blocker answer_first append_event apply apply_blocker_updates apply_body
    apply_claim_updates apply_tick_delta ask_claim assert_claim_match assert_preconditions
    attempts_for_phase attempts_in blockers_as_expected carry_events choose_phase claim_as_expected
    claim_in_txn claim_phase clear_pause commit completed_phase_ids consume consume_all
    consume_answers decide decide_canary decide_in_txn delta_event detect_death detect_stalled
    digits dispatch_of emit_stalled_claim_notify emit_stuck_blocker_repings emit_stuck_tool
    emit_worker_idle empty_state escalate events_as_expected field_holds fields_as_expected finish
    first_due floor_loop forgiven_tokens gap_fill gate_decision harvest insert_events
    is_claim_stalled is_empty is_idle is_newly_stalled is_slug_char is_stuck last_beat latest_event
    lease_past lease_ttl_for_phase match_claim matches_slug max_event_id most_recent_halted_phase
    observed_conditions on_done on_exhausted on_lease_expired on_overdue on_worker_dead
    open_blockers overdue parse_index phase_has_open_blocker plan_txn process_answered_blockers
    read_field record_claim record_heartbeat record_quota_death record_quota_pause release
    release_claim release_if_expired release_in_txn reping reping_all report_idle report_stalled
    report_stuck require_blocker require_claim require_claim_field require_event_log require_status
    resolve_answer sample_tree set_status settle slug_tail stalled_threshold_for_phase stamp_blocker
    stamp_claim stamp_events stamp_first start started_count status_as_expected
    stuck_blocker_repings stuck_loop terminalize tick tick_on tool_stuck_already_emitted try_phase
    unseen update_blockers validate_slug walk walk_worker_tree wind_down write_field write_fields
    ℕ_discrete
no_second_dispatch_example =
    no_second_dispatch settings settings world later_world idle_plan idle_plan none none
      (db_of idle_plan) first_tick second_tick refl refl refl refl
