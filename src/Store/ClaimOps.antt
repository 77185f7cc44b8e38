-- ===== src/Store/ClaimOps.antt =====
-- The operations of end_of_line/plan_store.py on the claim row, one transaction each. `now` is the
-- clock's answer, `busy` says that the store was locked past the caller's budget.
pub mod Guards
use end_of_line.Shared.{
  ℕ, ◌+◌, ◌*◌, String, Option, none, some, List, [], ◌∷◌, Bool, true, false, max, if◌then◌else◌,
  Result, ok, err, ◌>>=◌, ◌>>◌, claim_mismatch, no_active_claim, phase_mismatch, value_error, ◌==◌,
  string_eq, insert,
}
use end_of_line.State
use end_of_line.State.{
  Claim, Event, Stamp, Value, text, num, flag, time, Attestation, minute, utcnow, parse_iso,
  lease_extended,
}
use end_of_line.Store.{Row, Db}
use end_of_line.Store.Fields.{FieldName, ClaimField, write_fields, is_set}
use end_of_line.Store.Transaction.{
  PlanTxn, plan_txn, finish, match_claim, set_claim, release_in_txn,
}

unfoldable pub heartbeat_body : ℕ → String → String → PlanTxn Stamp
heartbeat_body now token phase row seq = do
  claim ← match_claim row.plan.current_claim token (some phase)
  ok (
    utcnow now,
    set_claim (some (record claim { last_heartbeat_at = some (utcnow now) })) row,
    seq,
  )

unfoldable pub op_heartbeat : ℕ → String → String → String → Db → Result (Stamp × Db)
unfolding heartbeat_body
op_heartbeat now slug token phase db = plan_txn slug (heartbeat_body now token phase) db

pub data Activity : Type 0 where
  start end : Activity

-- A START voids the idle watchdog's window; an END clears the marker and nothing else.
abbrev pub activity_fields : ℕ → Activity → List ClaimField
activity_fields now start =
    ClaimField.active_tool_started_at (some (utcnow now))
    ∷ ClaimField.cpu_samples (some [])
    ∷ ClaimField.worker_idle_notified (some false)
    ∷ ClaimField.worker_idle_notified_at none
    ∷ []
activity_fields now end = ClaimField.active_tool_started_at none ∷ []

unfoldable pub activity_body : ℕ → String → String → Activity → PlanTxn Bool
activity_body now token phase action row seq = do
  claim ← match_claim row.plan.current_claim token (some phase)
  ok (true, set_claim (some (write_fields (activity_fields now action) claim)) row, seq)

-- A busy store drops the stamp rather than freezing the worker's call.
unfoldable pub op_activity :
    Bool → ℕ → String → String → String → Activity → Db → Result (Bool × Db)
unfolding activity_body
op_activity busy now slug token phase action db =
    if busy then ok (false, db) else plan_txn slug (activity_body now token phase action) db

abbrev pub guard_hit : Option FieldName → Claim → Bool
guard_hit none claim = false
guard_hit (some name) claim = is_set name claim

unfoldable pub stamp_body :
    String → Option String → List ClaimField → Option FieldName → List Event → PlanTxn Bool
stamp_body token phase fields if_unset events row seq = do
  claim ← match_claim row.plan.current_claim token phase
  if guard_hit if_unset claim
      then ok (false, row, seq)
      else finish true events (set_claim (some (write_fields fields claim)) row) seq

unfoldable pub op_stamp_claim_fields :
    String
    → String
    → Option String
    → List ClaimField
    → Option FieldName
    → List Event
    → Db
    → Result (Bool × Db)
unfolding stamp_body
op_stamp_claim_fields slug token phase fields if_unset events db =
    plan_txn slug (stamp_body token phase fields if_unset events) db

-- The check of the operations whose token is optional: without one nothing is matched.
unfoldable pub check_token : Option String → Option String → Row → Result (Unit {0})
check_token none phase row = ok tt
check_token (some token) phase row = do _ ← match_claim row.plan.current_claim token phase; ok tt

unfoldable pub append_body : List Event → Option String → Option String → PlanTxn (Unit {0})
unfolding check_token
append_body events token phase row seq = do check_token token phase row; finish tt events row seq

unfoldable pub op_append_events :
    String → List Event → Option String → Option String → Db → Result (Unit {0} × Db)
unfolding append_body
op_append_events slug events token phase db = plan_txn slug (append_body events token phase) db

unfoldable pub release_body : Option String → Option String → List Event → PlanTxn (Option Claim)
release_body token phase events row seq = do
  released ← release_in_txn token phase row
  let (claim, row') = released
  finish claim events row' seq

unfoldable pub op_release_claim :
    String → Option String → Option String → List Event → Db → Result (Option Claim × Db)
unfolding release_body
op_release_claim slug token phase events db = plan_txn slug (release_body token phase events) db

-- Without a token the operator stamps whatever claim is live.
unfoldable pub live_claim : Option String → Option String → Row → Result Claim
live_claim (some token) phase row = match_claim row.plan.current_claim token phase
live_claim none phase row = elim row.plan.current_claim [ none ↦ err value_error | some c ↦ ok c ]

abbrev pub stamped : ℕ → String → String → Claim → Claim
stamped now kind sha claim = record claim {
  attestations =
      insert kind (record { stamped_at = utcnow now; commit_sha = sha }) claim.attestations;
}

unfoldable pub attest_body :
    ℕ → Option String → Option String → String → String → List Event → PlanTxn (Unit {0})
unfolding live_claim
attest_body now token phase kind sha events row seq = do
  claim ← live_claim token phase row
  finish tt events (set_claim (some (stamped now kind sha claim)) row) seq

unfoldable pub op_stamp_attestation :
    ℕ
    → String
    → Option String
    → Option String
    → String
    → String
    → List Event
    → Db
    → Result (Unit {0} × Db)
unfolding attest_body
op_stamp_attestation now slug token phase kind sha events db =
    plan_txn slug (attest_body now token phase kind sha events) db

-- The baseline is the later of the current expiry and now; an unreadable expiry counts as now.
abbrev baseline : ℕ → Option Stamp → ℕ
baseline now none = now
baseline now (some ts) = elim (parse_iso ts) [ none ↦ now | some expires ↦ max expires now ]

unfoldable pub extended_expiry : ℕ → Option Stamp → ℕ → Stamp
extended_expiry now current minutes = utcnow (baseline now current + minutes * minute)

abbrev pub extended_event : ℕ → String → ℕ → Stamp → Event
extended_event now phase minutes expires = record (State.event now lease_extended) {
  phase = some phase;
  fields =
      ("extended_by_minutes", num minutes)
      ∷ ("new_expires", time expires)
      ∷ ("operator", flag true)
      ∷ [];
}

unfoldable pub extend_body : ℕ → String → ℕ → PlanTxn Stamp
unfolding extended_expiry
extend_body now phase minutes row seq = elim row.plan.current_claim [
  | none ↦ err (claim_mismatch no_active_claim)
  | some claim ↦
      let expires = extended_expiry now claim.lease_expires minutes in
      if claim.phase_id == phase
      then finish expires (extended_event now phase minutes expires ∷ [])
          (set_claim (some (record claim { lease_expires = some expires })) row) seq
      else err (claim_mismatch phase_mismatch)
]

unfoldable pub op_extend_lease : ℕ → String → String → ℕ → Db → Result (Stamp × Db)
unfolding extend_body
op_extend_lease now slug phase minutes db = plan_txn slug (extend_body now phase minutes) db
