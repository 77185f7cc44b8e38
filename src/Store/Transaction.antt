-- ===== src/Store/Transaction.antt =====
-- `_plan_txn`, `_CLAIM_CAS` and `_release_in_txn` of end_of_line/plan_store.py, and what every
-- operation built on them keeps: the other plans, the version, the order of the event log.
pub mod Isolation
use end_of_line.Shared.{
  ℕ, zero, suc, ◌+◌, ◌≤◌, ◌<◌, String, Option, none, some, List, [], ◌∷◌, ◌++◌, Bool, true, false,
  ◌≡◌, refl, ◌==◌, string_eq, if◌then◌else◌, Result, ok, err, ◌>>=◌, ◌>>◌, claim_mismatch,
  no_active_claim, token_mismatch, phase_mismatch, value_error, file_not_found, invalid_slug,
  lookup, insert, length,
}
use end_of_line.State.{Plan, Claim, Event, option_text_eq}
use end_of_line.State.Slug.{validate_slug}
use end_of_line.Store.{Row, Db, stamp_events}

-- What an operation does to the rows of its plan, given the event counter.
abbrev pub PlanTxn : Type 0 → Type 0
PlanTxn A = Row → ℕ → Result (A × Row × ℕ)

abbrev pub put_back : {A : Type 0} → String → Db → A × Row × ℕ → A × Db
put_back slug db (a, row, seq) = (a, record { plans = insert slug row db.plans; event_seq = seq })

-- The version bump is the first statement and the existence check; on any error the database
-- stays as it was.
unfoldable pub plan_txn : {A : Type 0} → String → PlanTxn A → Db → Result (A × Db)
plan_txn slug body db =
    if validate_slug slug
    then elim (lookup slug db.plans) [
      | none ↦ err file_not_found
      | some row ↦ do
        done ← body (record row { version = suc row.version }) db.event_seq
        ok (put_back slug db done)
    ]
    else err invalid_slug

unfoldable pub insert_events : List Event → Row → ℕ → Row × ℕ
unfolding stamp_events
insert_events events row seq = (
  record row { plan = record row.plan { events = row.plan.events ++ stamp_events seq events } },
  seq + length events,
)

-- The end of an operation: append the events that explain it, and return.
unfoldable pub finish : {A : Type 0} → A → List Event → Row → ℕ → Result (A × Row × ℕ)
unfolding insert_events
finish a events row seq = let (row', seq') = insert_events events row seq in ok (a, row', seq')

-- The compare-and-set on the claim row, with the message that a failure deserves. `phase` narrows
-- it to token and phase.
unfoldable pub match_claim : Option Claim → String → Option String → Result Claim
match_claim none token phase = err (claim_mismatch no_active_claim)
match_claim (some claim) token phase =
    if claim.claimed_by == some token
    then elim phase [
      | none ↦ ok claim
      | some p ↦ if claim.phase_id == p then ok claim else err (claim_mismatch phase_mismatch)
    ]
    else err (claim_mismatch token_mismatch)

abbrev pub set_claim : Option Claim → Row → Row
set_claim claim row = record row { plan = record row.plan { current_claim = claim } }

abbrev pub on_row_plan : (Plan → Plan) → Row → Row
on_row_plan f row = record row { plan = f row.plan }

-- Both-or-neither: a caller proves that it owns the claim, or does not validate at all.
unfoldable pub release_in_txn : Option String → Option String → Row → Result (Option Claim × Row)
unfolding match_claim
release_in_txn none none row = ok (row.plan.current_claim, set_claim none row)
release_in_txn (some token) (some phase) row = do
  claim ← match_claim row.plan.current_claim token (some phase)
  ok (some claim, set_claim none row)
release_in_txn _ _ row = err value_error
