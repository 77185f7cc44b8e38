-- ===== src/Examples/Commands.antt =====
-- The commands of end_of_line/cli.py on the sample plans.
use end_of_line.Shared.{
  suc, ◌+◌, ◌≤◌, max, String, Option, none, some, [], ◌∷◌, true, false, ◌≡◌, refl, ap, arith,
  nat_eq, ok, err, Result, String-discrete, ◌==◌, string_eq, lookup, pos, ◌∙◌,
}
use end_of_line.State.{Plan, Status-discrete, OptionText-discrete, option_text_eq, Claim}
use end_of_line.State.Slug.{is_slug_char, validate_slug}
use end_of_line.State.Claims.{assert_claim_match, fresh_claim}
use end_of_line.Store.{Db, Row}
use end_of_line.Store.Transaction.{plan_txn, finish, match_claim, release_in_txn}
use end_of_line.Store.ClaimOps.{check_token}
use end_of_line.Queue.{Queue}
use end_of_line.Command.{Outcome, Surroundings, Settings, die}
use end_of_line.Command.Exit.{ExitCode}
use end_of_line.Command.Status.{cmd_release_claim}
use end_of_line.Command.Status.Release.{cmd_release_claim_lem, IsForcedRelease}
use end_of_line.Command.Completion.{completion_events, cmd_complete}
use end_of_line.Command.Completion.Decided.{IsReleased}
use end_of_line.Command.Completion.Finished.{cmd_complete_finishes}
use end_of_line.Command.Completion.Force.{cmd_force_complete}
use end_of_line.Command.Callbacks.{cmd_spawn, spawn_cap}
use end_of_line.Command.Callbacks.Guarded.{Report, run_report, run_report-stale}
use end_of_line.Command.Callbacks.Caps.{cmd_spawn_capped, spawned_count}
use end_of_line.Command.Deaths.{Scene, cmd_notify_worker_dead}
use end_of_line.Command.Deaths.Released.{cmd_notify_worker_dead_lem, IsReportedDeath}
use end_of_line.Command.Chaining.{Chain, cmd_queue_add_worker, existing_count, queue_cap_of, judge}
use end_of_line.Command.Chaining.Capped.{
  cmd_queue_add_worker_capped, cmd_queue_add_worker_unrecorded,
}
use end_of_line.State.Claims.{lease_ttl_for_phase}
use end_of_line.Examples.{idle_plan, claimed_plan, old_claim, row_of, db_of, noon}

abbrev surroundings : Surroundings
surroundings = record {
  now = noon;
  head = some "abc";
  diff = λ base. (0, 0);
  known_sha = λ sha. true;
  phases = some ("a" ∷ "b" ∷ []);
  reachable = λ sha. true;
  minted_text = "x";
}

abbrev lenient : Settings
lenient = record {
  coolant_enabled = true;
  verify_required = false;
  simplify_threshold = none;
  verify_command = none;
  test_command = none;
  keep_remote_branches = false;
}

abbrev same_db : Db → Db
same_db db = db

abbrev result_of : Result Outcome → Outcome
result_of (ok o) = o
result_of (err e) = record { code = ExitCode.generic; db = db_of idle_plan; effects = [] }

abbrev freed : Result Outcome
freed =
    cmd_release_claim noon true "demo" true none false none false (db_of claimed_plan)
      (db_of claimed_plan)

cmd_release_claim_lem_example :
    IsForcedRelease noon "demo" true none false none false claimed_plan
      (db_of claimed_plan)
      (result_of freed)
unfolding cmd_release_claim String-discrete Status-discrete lease_ttl_for_phase plan_txn
    validate_slug is_slug_char release_in_txn finish
cmd_release_claim_lem_example =
    cmd_release_claim_lem noon true "demo" true none false none false claimed_plan
      (db_of claimed_plan) (db_of claimed_plan) (result_of freed) refl refl

abbrev completed : Result Outcome
completed =
    cmd_complete lenient surroundings "demo" "tok" "a" ("abc" ∷ []) false false same_db
      (db_of claimed_plan) (db_of claimed_plan)

abbrev forced : Result Outcome
forced =
    cmd_force_complete lenient surroundings "demo" "a" ("abc" ∷ []) "done by hand" false same_db
      (db_of claimed_plan) (db_of claimed_plan)

abbrev token_of : Option Claim → Option String
token_of none = none
token_of (some c) = c.claimed_by

abbrev stale_beat : Outcome
stale_beat = result_of (
    run_report lenient surroundings "demo" "old" "a" Report.heartbeat (db_of claimed_plan)
      (db_of claimed_plan))

run_report-stale_example : stale_beat.db ≡ db_of claimed_plan
unfolding run_report String-discrete OptionText-discrete plan_txn validate_slug is_slug_char
    match_claim
run_report-stale_example =
    run_report-stale lenient surroundings "demo" "old" "a" Report.heartbeat (db_of claimed_plan)
      (db_of claimed_plan) (row_of claimed_plan) stale_beat refl
      (λ held. ground (arith, ap (λ t. t == some "old") (ap token_of held.1.0 ∙ held.1.1))) refl
      refl

abbrev minted_plan : Plan
minted_plan = record idle_plan { current_claim = some (fresh_claim noon "tok" "a" 30 1) }

abbrev scene : Scene
scene = record {
  now = noon;
  coolant_enabled = true;
  classify_log_tail = λ path. none;
  parse_reset = λ found. none;
  readable = true;
  busy = false;
}

abbrev reported : Outcome
reported =
    result_of
      (cmd_notify_worker_dead scene "demo" "a" "tok" none (db_of claimed_plan)
        (db_of claimed_plan)).0

cmd_notify_worker_dead_lem_example :
    IsReportedDeath scene "demo" "a" "tok" claimed_plan none none (db_of claimed_plan) reported
unfolding cmd_notify_worker_dead String-discrete validate_slug is_slug_char OptionText-discrete
    plan_txn release_in_txn finish
cmd_notify_worker_dead_lem_example =
    cmd_notify_worker_dead_lem scene "demo" "a" "tok" claimed_plan none none (db_of claimed_plan)
      (db_of claimed_plan) reported refl refl

abbrev spawned : Outcome
spawned =
    result_of
      (cmd_spawn noon "demo" "tok" "a" "docs/x.md" (db_of claimed_plan) (db_of claimed_plan))

cmd_spawn_capped_example :
    (row' : Row) × ((lookup {K = String} "demo" spawned.db.plans ≡ some row')
      × (spawned_count "a" row'.plan ≡ spawned_count "a" claimed_plan + 1)
      × (spawned_count "a" row'.plan ≤ spawn_cap row'.plan))
unfolding cmd_spawn String-discrete OptionText-discrete plan_txn validate_slug is_slug_char
    check_token match_claim finish
cmd_spawn_capped_example =
    cmd_spawn_capped noon "demo" "a" "tok" "docs/x.md" (db_of claimed_plan) (row_of claimed_plan)
      spawned refl refl refl

abbrev chain : String → Chain
chain token = record {
  now = noon;
  slug = "next";
  source_plan = "demo";
  source_phase = "a";
  token = token;
  token_fp = "00";
  reason = none;
  has_plan_file = true;
  running = false;
  readable = true;
}

abbrev no_queue : Queue
no_queue = record { rows = []; seq = pos 0; history = [] }

cmd_queue_add_worker_capped_example :
    existing_count "demo" "a"
      (cmd_queue_add_worker (chain "tok") (db_of claimed_plan) (db_of claimed_plan) no_queue).1
    ≤ max (existing_count "demo" "a" no_queue) (queue_cap_of claimed_plan)
unfolding String-discrete
cmd_queue_add_worker_capped_example =
    cmd_queue_add_worker_capped (chain "tok") (db_of claimed_plan) (db_of claimed_plan) no_queue
      (row_of claimed_plan) refl

cmd_queue_add_worker_unrecorded_example :
    ((cmd_queue_add_worker (chain "tok") (db_of claimed_plan) (db_of idle_plan) no_queue).0
      ≡ die ExitCode.claim_mismatch (db_of idle_plan))
    × (existing_count "demo" "a"
          (cmd_queue_add_worker (chain "tok") (db_of claimed_plan) (db_of idle_plan) no_queue).1
        ≡ suc (existing_count "demo" "a" no_queue))
unfolding String-discrete validate_slug is_slug_char assert_claim_match OptionText-discrete judge
cmd_queue_add_worker_unrecorded_example =
    cmd_queue_add_worker_unrecorded (chain "tok") (db_of claimed_plan) (db_of idle_plan) no_queue
      (row_of claimed_plan) (row_of idle_plan) refl refl refl refl refl refl refl
      (λ held. ground (arith, held.1.0))

cmd_complete_finishes_example :
    (o : Outcome) × ((completed ≡ ok o)
      × (o.code ≡ ExitCode.ok)
      × IsReleased "demo" "tok" "a"
          (completion_events lenient noon "a" ("abc" ∷ []) false false)
          (db_of claimed_plan)
          o.db)
unfolding cmd_complete validate_slug is_slug_char String-discrete OptionText-discrete match_claim
cmd_complete_finishes_example =
    cmd_complete_finishes lenient surroundings "demo" "tok" "a" ("abc" ∷ []) false false same_db
      claimed_plan (db_of claimed_plan) (db_of claimed_plan) (row_of claimed_plan) old_claim refl
      refl refl refl refl refl refl refl
