-- ===== src/Command/Completion/Forced.antt =====
-- What `cmd_force_complete` of end_of_line/cli.py leaves in the store, on every branch.
use end_of_line.Shared.{
  String, none, some, List, ◌++◌, Bool, true, false, ◌≡◌, ◌≢◌, ◌⊎◌, if◌then◌else◌, string_eq, ok,
  contains, lookup,
}
use end_of_line.State.{Plan, Event, option_text_eq}
use end_of_line.State.Attempts.{completed_phase_ids}
use end_of_line.Store.{Row, Db, stamp_events}
use end_of_line.Command.Exit.{ExitCode}
use end_of_line.Command.{Outcome, Surroundings}
use end_of_line.Command.Completion.Cleaned.{IsCleaned}
use end_of_line.Command.Completion.Force.{forced_events, ever_started, claim_on_phase}

-- The two events stand behind the log, and the claim is gone where the snapshot had it on the
-- phase, else it is as it was.
abbrev pub IsForced : String → String → List Event → Plan → Db → Db → Type 0
IsForced slug phase events seen db db' =
    (row : Row) × ((row' : Row) × ((lookup slug db.plans ≡ some row)
        × (lookup slug db'.plans ≡ some row')
        × (row'.plan.events ≡ row.plan.events ++ stamp_events db.event_seq events)
        × (row'.plan.current_claim
            ≡ (if claim_on_phase phase seen then none else row.plan.current_claim))))

-- The conclusion of `cmd_force_complete_lem`.
abbrev pub IsForceDecided :
    Surroundings
    → String
    → String
    → List String
    → String
    → Bool
    → (Db → Db)
    → Plan
    → Db
    → Outcome
    → Type 0
IsForceDecided s slug phase commits reason really others seen current o =
    (o.code ≢ ExitCode.ok) × (o.db ≡ current)
    ⊎ (o.code ≡ ExitCode.ok)
      × (contains phase (completed_phase_ids seen) ≡ false)
      × ((ever_started phase seen ≡ true) ⊎ (claim_on_phase phase seen ≡ true) ⊎ (really ≡ true))
      × ((db : Db) × (IsForced slug phase (forced_events s.now phase commits reason) seen current db
            × IsCleaned slug (others db) o.db))
