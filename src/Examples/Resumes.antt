-- ===== src/Examples/Resumes.antt =====
-- The end of a quota pause on a tick whose plan was claimed behind its back.
use end_of_line.Shared.{none, some, ◌≡◌, refl, ok, string_eq, String-discrete, ℕ_discrete, nat_eq}
use end_of_line.State.{Status-discrete}
use end_of_line.State.Slug.{is_slug_char, validate_slug}
use end_of_line.State.Attempts.{attempts_for_phase}
use end_of_line.State.Blockers.{stuck_blocker_repings}
use end_of_line.Store.Transaction.{plan_txn}
use end_of_line.Store.Conditions.{Holder-discrete, claim_as_expected, assert_preconditions}
use end_of_line.Quota.{gate_decision}
use end_of_line.Supervisor.Watchdogs.{reping_all}
use end_of_line.Supervisor.Tick.{tick_on, tick}
use end_of_line.State.{at}
use end_of_line.Quota.{Pause, readable, go}
use end_of_line.Supervisor.Deaths.{Action, result, concurrent_write}
use end_of_line.Supervisor.Tick.{quiet}
use end_of_line.Supervisor.Tick.Resume.{resume_lost}
use end_of_line.Examples.{idle_plan, claimed_plan, db_of, settings, world, noon}

-- A canary that survived its window.
abbrev over : Pause
over = record {
  paused_until = some (at 946684000);
  signature = "limit";
  line = "usage limit reached";
  canary_plan = some "other";
  canary_deadline = some (at 946684200);
  created_at = at 946680000;
}

resume_lost_example :
    (tick_on settings world idle_plan (some over) (db_of claimed_plan)
      ≡ ok (quiet (result Action.idle concurrent_write) none (db_of claimed_plan)))
    × (gate_decision readable "other" noon none ≡ (go, none))
unfolding Status-discrete is_slug_char validate_slug attempts_for_phase stuck_blocker_repings
    plan_txn Holder-discrete claim_as_expected assert_preconditions reping_all tick String-discrete
    ℕ_discrete
resume_lost_example =
    resume_lost settings world idle_plan (some over) (db_of claimed_plan) "a" "other" noon refl refl
      refl
