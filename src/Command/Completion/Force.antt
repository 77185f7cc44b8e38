-- ===== src/Command/Completion/Force.antt =====
-- `cmd_force_complete` of end_of_line/cli.py: the operator marks a phase complete whose worker died
-- after its work was done.
use end_of_line.Shared.{
  ℕ, String, none, some, List, [], ◌∷◌, ◌++◌, Bool, true, false, not, ◌&&◌, ◌||◌, if◌then◌else◌,
  ◌==◌, string_eq, Result, ok, ◌>>=◌, all, contains, length,
}
use end_of_line.State
use end_of_line.State.{
  Plan, Claim, Event, text, texts, flag, phase_started, operator_force_complete, option_text_eq,
}
use end_of_line.State.Slug.{validate_slug}
use end_of_line.State.Attempts.{completed_phase_ids, latest_event}
use end_of_line.Store.{Db}
use end_of_line.Store.ClaimOps.{op_append_events, op_release_claim}
use end_of_line.Store.PlanOps.{snapshot}
use end_of_line.Supervisor.Watchdogs.{worker_pid}
use end_of_line.Command.Exit.{ExitCode}
use end_of_line.Command.{
  Outcome, Effect, reap, post_action_tick, die, emit_coolant_stop, token_or_empty, Surroundings,
  Settings,
}
use end_of_line.Command.Completion.{completed_event, cleanup_worktree, persist_cleanup}

abbrev pub forced_events : ℕ → String → List String → String → List Event
forced_events now phase commits reason =
    record (State.event now operator_force_complete) {
      phase = some phase;
      fields = ("commits", texts commits) ∷ ("reason", text reason) ∷ ("operator", flag true) ∷ [];
    }
    ∷ completed_event now phase commits
    ∷ []

unfoldable pub ever_started : String → Plan → Bool
unfolding latest_event
ever_started phase plan = elim (latest_event phase_started (some phase) plan) [
  | none ↦ false
  | some e ↦ true
]

abbrev pub claim_on_phase : String → Plan → Bool
claim_on_phase phase plan = elim plan.current_claim [
  | none ↦ false
  | some claim ↦ claim.phase_id == phase
]

-- `reap_claim` of end_of_line/state.py: by the group, or by the pid where none is recorded.
unfoldable pub reap_claim : Plan → List Effect
reap_claim plan = elim plan.current_claim [
  | none ↦ []
  | some claim ↦ elim (worker_pid claim.pgid) [
    | some pgid ↦ if plan.plan_slug == "" then [] else reap pgid plan.plan_slug ∷ []
    | none ↦ elim (worker_pid claim.pid) [
      | none ↦ []
      | some pid ↦ if plan.plan_slug == "" then [] else reap pid plan.plan_slug ∷ []
    ]
  ]
]

-- The release with both events in one transaction, or the events alone.
unfoldable pub record_forced : Surroundings → String → String → List Event → Plan → Db → Result Db
unfolding op_release_claim op_append_events
record_forced s slug phase events seen current =
    if claim_on_phase phase seen
    then (do released ← op_release_claim slug none none events current; ok released.1)
    else (do wrote ← op_append_events slug events none none current; ok wrote.1)

abbrev pub stop_effects : Settings → String → Plan → List Effect
stop_effects settings phase seen = elim seen.current_claim [
  | none ↦ []
  | some claim ↦
      if claim.phase_id == phase
      then emit_coolant_stop settings.coolant_enabled phase (token_or_empty claim.claimed_by)
      else []
]

-- The snapshot as the command edits it before the cleanup judges it.
abbrev pub marked : String → List Event → Plan → Plan
marked phase events seen = record seen {
  events = seen.events ++ events;
  current_claim = if claim_on_phase phase seen then none else seen.current_claim;
}

unfoldable pub force_recorded :
    Settings
    → Surroundings
    → String
    → String
    → List String
    → String
    → (Db → Db)
    → Plan
    → Db
    → Result Outcome
unfolding record_forced cleanup_worktree persist_cleanup reap_claim
force_recorded settings s slug phase commits reason others seen current = do
  let events = forced_events s.now phase commits reason
  db ← record_forced s slug phase events seen current
  let after = marked phase events seen
  let (cleaned, removal) = cleanup_worktree settings s "force-complete" after
  db' ← persist_cleanup slug after cleaned (length after.events) (others db)
  ok (record {
    code = ExitCode.ok;
    db = db';
    effects =
        (if claim_on_phase phase seen then reap_claim seen else [])
        ++ (stop_effects settings phase seen ++ (removal ++ post_action_tick ∷ []));
  })

abbrev pub known_phase : Surroundings → String → Bool
known_phase s phase = elim s.phases [ none ↦ false | some ids ↦ contains phase ids ]

unfoldable pub cmd_force_complete :
    Settings
    → Surroundings
    → String
    → String
    → List String
    → String
    → Bool
    → (Db → Db)
    → Db
    → Db
    → Result Outcome
unfolding snapshot completed_phase_ids ever_started force_recorded
cmd_force_complete settings s slug phase commits reason really others before current =
    if not (validate_slug phase)
    then die ExitCode.invalid_slug current
    else if not (known_phase s phase)
    then die ExitCode.unknown_task current
    else if not (all s.known_sha commits)
    then die ExitCode.bad_sha current
    else (do
      seen ← snapshot slug before
      if contains phase (completed_phase_ids seen)
            || (not (ever_started phase seen) && not (claim_on_phase phase seen) && not really)
          then die ExitCode.status_transition current
          else force_recorded settings s slug phase commits reason others seen current)
