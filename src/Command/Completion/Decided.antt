-- ===== src/Command/Completion/Decided.antt =====
-- What `cmd_complete` of end_of_line/cli.py leaves in the store, on every branch.
use end_of_line.Shared.{
  String, Option, none, some, List, [], ◌∷◌, ◌++◌, Bool, ◌≡◌, ◌≢◌, ◌⊎◌, arith, inl, inr, ok, lookup,
  string_eq, Result-cases,
}
use end_of_line.State.{Plan, Claim, Event, attestation_refused, option_text_eq}
use end_of_line.Store.{Row, Db, stamp_events}
use end_of_line.Store.Transaction.{finish, insert_events, match_claim, release_in_txn}
use end_of_line.Store.Transaction.Isolation.{plan_txn-ok}
use end_of_line.Store.ClaimOps.{op_release_claim, release_body}
use end_of_line.Command.Exit.{ExitCode}
use end_of_line.Command.{Outcome, Surroundings, Settings}
use end_of_line.Command.Completion.{completion_events}
use end_of_line.Command.Completion.Cleaned.{IsCleaned}
use end_of_line.Command.Completion.Gates.{IsAttested}

-- The claim of that token and phase is released, and the events stand behind the log.
abbrev pub IsReleased : String → String → String → List Event → Db → Db → Type 0
IsReleased slug token phase events db db' =
    (row : Row) × ((row' : Row) × ((claim : Claim) × ((lookup slug db.plans ≡ some row)
          × (lookup slug db'.plans ≡ some row')
          × (row.plan.current_claim ≡ some claim)
          × (claim.claimed_by ≡ some token)
          × (claim.phase_id ≡ phase)
          × (row'.plan.current_claim ≡ none)
          × (row'.plan.events ≡ row.plan.events ++ stamp_events db.event_seq events))))

held :
    (row : Row) (token phase : String) (c : Claim)
    → match_claim row.plan.current_claim token (some phase) ≡ ok c
    → (row.plan.current_claim ≡ some c) × (c.claimed_by ≡ some token) × (c.phase_id ≡ phase)
unfolding match_claim
held row token phase c h = ground (arith, h)

pub op_release_claim-IsReleased :
    (slug token phase : String) (events : List Event) (db db' : Db) (c : Option Claim)
    → op_release_claim slug (some token) (some phase) events db ≡ ok (c, db')
    → IsReleased slug token phase events db db'
unfolding op_release_claim release_body release_in_txn finish insert_events
op_release_claim-IsReleased slug token phase events db db' c h =
    let (row, row', found, ran, left) =
      plan_txn-ok slug (release_body (some token) (some phase) events) db db' c h in
    elim (Result-cases (match_claim row.plan.current_claim token (some phase))) [
      | inr (e, failed) ↦ absurd (ground (arith, failed, ran))
      | inl (claim, matched) ↦
          let (there, by, of) = held row token phase claim matched in
          (
            row,
            (
              row',
              (
                claim,
                (
                  found,
                  left,
                  there,
                  by,
                  of,
                  ground (arith, matched, ran),
                  ground (arith, matched, ran),
                ),
              ),
            ),
          )
    ]

-- The claim stays as it is, and the log has at most one refusal of that gate more.
abbrev pub IsRefused : String → Db → Db → Type 0
IsRefused slug db db' =
    (row : Row) × ((row' : Row) × ((lookup slug db.plans ≡ some row)
        × (lookup slug db'.plans ≡ some row')
        × (row'.plan.current_claim ≡ row.plan.current_claim)
        × ((row'.plan.events ≡ row.plan.events)
            ⊎ ((e : Event) × ((e.kind ≡ attestation_refused)
                  × (row'.plan.events ≡ row.plan.events ++ stamp_events db.event_seq (e ∷ [])))))))

-- What stands in the store at the end: the release itself, or what the cleanup of the worktree made
-- of it behind what other processes wrote.
abbrev pub IsWrapped : String → (Db → Db) → Plan → Db → Db → Type 0
IsWrapped slug others seen released db =
    ((seen.worktree ≡ none) × (db ≡ released))
    ⊎ ((seen.worktree ≢ none) × IsCleaned slug (others (others released)) db)

-- The three ways in which the command ends.
abbrev pub IsDecided :
    Settings
    → Surroundings
    → String
    → String
    → String
    → List String
    → Bool
    → Bool
    → (Db → Db)
    → Plan
    → Db
    → Outcome
    → Type 0
IsDecided settings s slug token phase commits skip_verify skip_simplify others seen current o =
    (o.code ≢ ExitCode.ok) × (o.db ≡ current)
    ⊎ (o.code ≡ ExitCode.status_transition) × IsRefused slug current o.db
    ⊎ (o.code ≡ ExitCode.ok)
      × IsAttested settings s skip_verify skip_simplify seen
      × ((released : Db) × (IsReleased slug token phase
              (completion_events settings s.now phase commits skip_verify skip_simplify) current
              released
            × IsWrapped slug others seen released o.db))
