-- ===== src/Examples/Services.antt =====
-- The inbox, the registry, the heartbeat daemon and the cross-plan rules on small samples.
use end_of_line.Shared.{
  any, lookup, String, none, some, List, [], ◌∷◌, ◌++◌, Bool, true, false, ◌≡◌, refl, arith,
  if◌then◌else◌, contains, nat_eq, ok, err, Result, pos, String-discrete, ℕ_discrete, string_eq,
}
use end_of_line.State.{Plan, Worktree, Status-discrete, OptionText-discrete, done, utcnow}
use end_of_line.State.Slug.{is_slug_char, validate_slug}
use end_of_line.Store.{Db, Row}
use end_of_line.Store.Head.{set_head_fields}
use end_of_line.Inbox.{
  Inbox, Payload, write_event, newest, claimed_ids, claim_for_project, list_for_project,
}
use end_of_line.Inbox.Steps.{Step, start, next}
use end_of_line.Inbox.Surfacing.{waiting_ids, claimed_once, claim_for_project-waiting}
use end_of_line.Inbox.Readback.{list_for_project-write_event}
use end_of_line.Registry.{PlanEntry, is_pair, register}
use end_of_line.Registry.Pairs.{AreOnce, IsUndone, register-unregister}
use end_of_line.Heartbeat.{
  Moment, Action, notify_failure, report_death, tick_once, run_loop, daemon,
}
use end_of_line.Heartbeat.Beating.{run_loop-burst, daemon-reports_death, AreFailures, calls_after}
use end_of_line.Queue.{Entry, pending, entries}
use end_of_line.Rules.{ProjectPlan, Project}
use end_of_line.Rules.Queueing.{Site, popped_in_txn}
use end_of_line.Rules.Shipping.{Git, shippable, announcement}
use end_of_line.Rules.Settling.{ready_to_ship_once}
use end_of_line.Rules.Stranding.{run_again, queue_advancement_strands}
use end_of_line.Dispatch.{Attempt, Ticket, exited}
use end_of_line.Examples.{idle_plan, claimed_plan, db_of, noon}

abbrev same_path : String → String
same_path path = path

abbrev no_inbox : Inbox
no_inbox = record { rows = []; next_id = 1 }

abbrev one_event : Inbox
one_event = (write_event same_path noon "evt-1" "stalled_claim" "demo" "/p" "stalled" [] no_inbox).1

abbrev shown : List Payload
shown = (claim_for_project same_path noon "/p" 20 one_event).0

abbrev surfaced : Inbox
surfaced = (claim_for_project same_path noon "/p" 20 one_event).1

claimed_once_example : contains 1 (waiting_ids same_path "/p" surfaced) ≡ false
unfolding write_event claim_for_project claimed_ids newest String-discrete ℕ_discrete
claimed_once_example =
    claimed_once same_path 1 noon 1 20 "/p" "/p" shown one_event surfaced surfaced
      (next start (Step.write noon "evt-1" "stalled_claim" "demo" "/p" "stalled" [] "evt-1" refl))
      refl refl start

claim_for_project-waiting_example : contains 1 (waiting_ids same_path "/p" surfaced) ≡ (
    if contains 1 (claimed_ids same_path "/p" 20 one_event)
    then false
    else contains 1 (waiting_ids same_path "/p" one_event))
claim_for_project-waiting_example =
    claim_for_project-waiting same_path noon 1 20 "/p" "/p" shown one_event surfaced refl

abbrev demo_entry : PlanEntry
demo_entry = record { project_root = "/p"; plan_slug = "demo"; registered_at = utcnow noon }

abbrev other_entry : PlanEntry
other_entry = record { project_root = "/p"; plan_slug = "other"; registered_at = utcnow noon }

register-unregister_example :
    AreOnce (other_entry ∷ demo_entry ∷ [])
    × IsUndone same_path "/p" "demo" true (other_entry ∷ []) (other_entry ∷ demo_entry ∷ [])
unfolding register is_slug_char validate_slug String-discrete
register-unregister_example =
    register-unregister same_path (λ path. true) noon "/p" "demo" true (other_entry ∷ [])
      (other_entry ∷ demo_entry ∷ []) (refl, tt) refl

abbrev moment : Bool → Bool → Moment
moment alive reachable = record {
  now = noon;
  alive = alive;
  reachable = reachable;
  db = db_of claimed_plan;
}

abbrev sees : Moment → Action
sees m = (tick_once "demo" "a" "tok" m).0

abbrev lost_pings : List Moment
lost_pings = moment true false ∷ moment true false ∷ moment true false ∷ []

run_loop-burst_example :
    run_loop sees 0 (lost_pings ++ moment false true ∷ [])
    ≡ (notify_failure ∷ []) ++ calls_after (sees (moment false true)) (run_loop sees 0 [])
unfolding tick_once ℕ_discrete
run_loop-burst_example =
    run_loop-burst sees lost_pings (moment false true) [] (refl, (refl, (refl, tt)))
      (λ e. ground (arith, e))

daemon-reports_death_example :
    (daemon "demo" "a" "tok" (lost_pings ++ moment false true ∷ [])
      ≡ daemon "demo" "a" "tok" lost_pings ++ report_death ∷ [])
    × AreFailures (daemon "demo" "a" "tok" lost_pings)
unfolding tick_once
daemon-reports_death_example =
    daemon-reports_death "demo" "a" "tok" lost_pings [] (moment false true)
      (
        (λ e. ground (arith, e)),
        (λ e. ground (arith, e)),
        (
          (λ e. ground (arith, e)),
          (λ e. ground (arith, e)),
          ((λ e. ground (arith, e)), (λ e. ground (arith, e)), tt),
        ),
      )
      refl

abbrev tree : Worktree
tree = record { path = "/w"; branch = "b"; base_ref = "main" }

abbrev finished : ProjectPlan
finished = record {
  slug = "demo";
  state = record idle_plan { status = done; worktree = some tree };
}

abbrev git_at : String → Git
git_at sha = record { is_branch_merged = λ branch. false; rev_parse = λ branch. some sha }

abbrev stamped_plan : Result Plan → Plan
stamped_plan (ok plan) = plan
stamped_plan (err e) = idle_plan

abbrev announced : Plan
announced = stamped_plan (set_head_fields (announcement ("demo", "abc")).1 [] finished.state)

ready_to_ship_once_example :
    shippable (git_at "def") (record finished { state = announced }) ≡ some ("demo", "def")
unfolding shippable set_head_fields Status-discrete OptionText-discrete String-discrete
ready_to_ship_once_example =
    ready_to_ship_once (git_at "abc") (git_at "def") finished tree "demo" "abc" "def" announced refl
      refl refl refl refl

abbrev queued_entry : String → Entry
queued_entry slug = record {
  slug = slug;
  added_at = none;
  added_by = none;
  batch_id = none;
  extra = [];
}

abbrev site : Bool → Site
site there = record {
  now = noon;
  root = "/p";
  plan_dir = "docs";
  resolve = same_path;
  is_dir = λ path. there;
  plan_file = λ slug. true;
  queue_readable = true;
  state_readable = true;
}

abbrev project : Project
project = record {
  db = record { plans = []; event_seq = 10 };
  queue = record {
    rows = (pos 1, queued_entry "demo") ∷ (pos 2, queued_entry "other") ∷ [];
    seq = pos 2;
    history = [];
  };
  registry = [];
}

-- The runs of the rule after a pop of "demo" that broke off.
abbrev later_runs : List (Site × List ProjectPlan)
later_runs = (site true, []) ∷ (site true, []) ∷ []

queue_advancement_strands_example :
    ((popped_in_txn (site true) (queued_entry "demo") project).0 ≡ true)
    × (pending (popped_in_txn (site true) (queued_entry "demo") project).1.queue
        ≡ queued_entry "other" ∷ [])
    × ((row : Row) × (lookup "demo"
            (popped_in_txn (site true) (queued_entry "demo") project).1.db.plans
          ≡ some row))
    × (any
          (is_pair "/p" "demo")
          (run_again later_runs
            (popped_in_txn (site true) (queued_entry "demo") project).1).registry
        ≡ any (is_pair "/p" "demo") project.registry)
unfolding pending entries is_slug_char validate_slug String-discrete
queue_advancement_strands_example =
    queue_advancement_strands (site true) later_runs (queued_entry "demo")
      (queued_entry "other" ∷ []) "/p" project refl refl refl

list_for_project-write_event_example :
    list_for_project same_path true "/p"
      (write_event same_path noon "evt-2" "tool_stuck" "demo" "/p" "stuck" [] one_event).1
    ≡ list_for_project same_path true "/p" one_event
      ++ record {
        id = "evt-2";
        schema_version = 1;
        kind = "tool_stuck";
        plan_slug = "demo";
        project_root = "/p";
        timestamp = utcnow noon;
        summary = "stuck";
        details = [];
      }
        ∷ []
unfolding list_for_project write_event String-discrete
list_for_project-write_event_example =
    list_for_project-write_event same_path noon "evt-2" "tool_stuck" "demo" "/p" "stuck" "/p" []
      one_event

abbrev attempt : Attempt
attempt = record {
  now = noon;
  has_command = true;
  is_shell = true;
  setup_error = none;
  worktree_alive = true;
  spawn = exited "worker exited rc=1";
  log_path = "/p/logs/a.tok.log";
  classify_log_tail = none;
  parse_reset = λ found. none;
  systemic_signature = none;
  writable = true;
}

abbrev ticket : Ticket
ticket = record { slug = "demo"; phase_id = "a"; token = "tok"; worktree = none }

abbrev same_db : Db → Db
same_db db = db
