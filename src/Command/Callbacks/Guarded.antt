-- ===== src/Command/Callbacks/Guarded.antt =====
-- A worker whose claim was taken from it writes nothing, by whichever command of end_of_line/cli.py
-- it reports.
use end_of_line.Shared.{
  ℕ, suc, String, Option, none, some, List, [], ◌∷◌, Bool, true, false, ◌≡◌, arith, inl, inr,
  Result, ok, err, ◌>>=◌, Error, claim_mismatch, invalid_slug, lookup, string_eq, ◌==◌, Bool-cases,
  Option-cases, ℤ,
}
use end_of_line.State.{Event, option_text_eq, verify_stamped, simplify_stamped}
use end_of_line.State.Slug.{validate_slug}
use end_of_line.Store.{Row, Db}
use end_of_line.Store.Fields.{ClaimField, FieldName}
use end_of_line.Store.Transaction.{PlanTxn, plan_txn, release_in_txn}
use end_of_line.Store.ClaimOps.{
  Activity, heartbeat_body, op_heartbeat, activity_body, op_activity, stamp_body,
  op_stamp_claim_fields, check_token, attest_body, op_stamp_attestation, start,
}
use end_of_line.Store.ClaimOps.Guards.{HeldBy, IsMismatch, not_held, token_guards}
use end_of_line.Store.PlanOps.{
  add_blocker_body, op_add_blocker, spawn_body, op_spawn_task, release_if_asked,
}
use end_of_line.Command.{Outcome, Surroundings, Settings, translate_claim_mismatch}
use end_of_line.Command.Completion.{verify_kind, simplify_kind}
use end_of_line.Command.Callbacks.{
  cmd_heartbeat, cmd_activity, cmd_quiet_span, requested_span, cmd_block, cmd_verify, cmd_attest,
  cmd_spawn, cmd_notify_heartbeat_failure, stamp_event, failing_event,
}

-- The commands that carry the worker's token and phase.
pub data Report : Type 0 where
  heartbeat : Report
  activity : Bool → Option Activity → Report
  quiet_span : Bool → String → Option ℤ → ℤ → Report
  block : String → List String → String → String → Report
  verify : Bool → Report
  attest : Bool → Report
  spawn : String → Report
  heartbeat_failure : Bool → String → Report

unfoldable pub run_report :
    Settings → Surroundings → String → String → String → Report → Db → Db → Result Outcome
unfolding cmd_heartbeat cmd_activity cmd_quiet_span cmd_block cmd_verify cmd_attest cmd_spawn
    cmd_notify_heartbeat_failure
run_report settings s slug token phase heartbeat before current =
    cmd_heartbeat s.now slug token phase current
run_report settings s slug token phase (activity busy action) before current =
    cmd_activity busy s.now slug token phase action current
run_report settings s slug token phase (quiet_span ends reason minutes ceiling) before current =
    cmd_quiet_span s.now slug token phase ends reason minutes ceiling current
run_report settings s slug token phase (block question options context kind) before current =
    cmd_block settings s.now slug token phase question options context kind current
run_report settings s slug token phase (verify passes) before current =
    cmd_verify settings s slug (some token) phase passes before current
run_report settings s slug token phase (attest simplify) before current =
    cmd_attest s slug token phase simplify before current
run_report settings s slug token phase (spawn source) before current =
    cmd_spawn s.now slug token phase source before current
run_report settings s slug token phase (heartbeat_failure busy log) before current =
    cmd_notify_heartbeat_failure busy s.now slug token phase log current

-- A transaction whose body finds the mismatch raises.
abbrev Raises {ℓ} : {A : Type ℓ} → Result A → Type ℓ
Raises r = (e : Error) × (r ≡ err e)

plan_txn-Raises :
    {A : Type 0} (slug : String) (body : PlanTxn A) (db : Db) (row : Row)
    → lookup slug db.plans ≡ some row
    → IsMismatch (body (record row { version = suc row.version }) db.event_seq)
    → Raises (plan_txn slug body db)
unfolding plan_txn
plan_txn-Raises slug body db row found (m, fails) = elim (Bool-cases (validate_slug slug)) [
  | inl good ↦ (claim_mismatch m, ground (arith, good, found, fails))
  | inr bad ↦ (invalid_slug, ground (arith, bad))
]

-- The translated error leaves the store as it stands.
translated :
    {A : Type 0} (r : Result A) (next : A → Result Outcome) (current : Db) (o : Outcome)
    → Raises r
    → translate_claim_mismatch current (r >>= next) ≡ ok o
    → o.db ≡ current
translated r next current o (e, raised) h = ground (arith, raised, h)

add_blocker_body-IsMismatch :
    (now : ℕ) (question : String) (options : List String) (context kind token phase : String)
    (row : Row) (seq : ℕ)
    → (HeldBy token row → ⊥)
    → IsMismatch
        (add_blocker_body now phase question options context kind (some token) (some phase) row seq)
unfolding add_blocker_body release_if_asked release_in_txn
add_blocker_body-IsMismatch now question options context kind token phase row seq h =
    let (m, fails) = not_held token (some phase) row h in (m, ground (arith, fails))

spawn_body-IsMismatch :
    (now : ℕ) (source by : Option String) (status token phase : String) (row : Row) (seq : ℕ)
    → (HeldBy token row → ⊥)
    → IsMismatch (spawn_body now source by status (some token) (some phase) row seq)
unfolding spawn_body check_token
spawn_body-IsMismatch now source by status token phase row seq h =
    let (m, fails) = not_held token (some phase) row h in (m, ground (arith, fails))

-- Each write of a report raises for a worker without the claim.
stamp-Raises :
    (slug token : String) (by : Option String) (fields : List ClaimField)
    (if_unset : Option FieldName) (events : List Event) (current : Db) (row : Row)
    → lookup slug current.plans ≡ some row
    → (HeldBy token row → ⊥)
    → Raises (op_stamp_claim_fields slug token by fields if_unset events current)
unfolding op_stamp_claim_fields
stamp-Raises slug token by fields if_unset events current row found lost =
    let guards =
      token_guards 0 token "" "" "" by start fields if_unset events
        (record row { version = suc row.version }) current.event_seq lost in
    plan_txn-Raises slug (stamp_body token by fields if_unset events) current row found guards.2

attest-Raises :
    (now : ℕ) (slug token : String) (by : Option String) (kind sha : String) (events : List Event)
    (current : Db) (row : Row)
    → lookup slug current.plans ≡ some row
    → (HeldBy token row → ⊥)
    → Raises (op_stamp_attestation now slug (some token) by kind sha events current)
unfolding op_stamp_attestation
attest-Raises now slug token by kind sha events current row found lost =
    let guards =
      token_guards now token "" kind sha by start [] none events
        (record row { version = suc row.version }) current.event_seq lost in
    plan_txn-Raises slug (attest_body now (some token) by kind sha events) current row found
      guards.4

activity-Raises :
    (now : ℕ) (slug token phase : String) (action : Activity) (current : Db) (row : Row)
    → lookup slug current.plans ≡ some row
    → (HeldBy token row → ⊥)
    → Raises (op_activity false now slug token phase action current)
unfolding op_activity
activity-Raises now slug token phase action current row found lost =
    let guards =
      token_guards now token phase "" "" none action [] none []
        (record row { version = suc row.version }) current.event_seq lost in
    plan_txn-Raises slug (activity_body now token phase action) current row found guards.1

heartbeat-Raises :
    (now : ℕ) (slug token phase : String) (current : Db) (row : Row)
    → lookup slug current.plans ≡ some row
    → (HeldBy token row → ⊥)
    → Raises (op_heartbeat now slug token phase current)
unfolding op_heartbeat
heartbeat-Raises now slug token phase current row found lost =
    let guards =
      token_guards now token phase "" "" none start [] none []
        (record row { version = suc row.version }) current.event_seq lost in
    plan_txn-Raises slug (heartbeat_body now token phase) current row found guards.0

spawn-Raises :
    (now : ℕ) (slug : String) (source by : Option String) (status token phase : String)
    (current : Db) (row : Row)
    → lookup slug current.plans ≡ some row
    → (HeldBy token row → ⊥)
    → Raises (op_spawn_task now slug source by status (some token) (some phase) current)
unfolding op_spawn_task
spawn-Raises now slug source by status token phase current row found lost =
    plan_txn-Raises slug (spawn_body now source by status (some token) (some phase)) current row
      found
      (spawn_body-IsMismatch now source by status token phase
        (record row { version = suc row.version }) current.event_seq lost)

-- A worker that does not hold the plan's claim any more, because it was released, expired or taken
-- over, changes nothing by its reports: heartbeat, activity stamp, quiet span, blocker,
-- verification, attestation, spawned task or heartbeat failure, whatever its snapshot showed.
pub run_report-stale :
    (settings : Settings) (s : Surroundings) (slug token phase : String) (report : Report)
    (before current : Db) (row : Row) (o : Outcome)
    → lookup slug current.plans ≡ some row
    → (HeldBy token row → ⊥)
    → (token == "") ≡ false
    → run_report settings s slug token phase report before current ≡ ok o
    → o.db ≡ current
unfolding run_report cmd_heartbeat cmd_block op_add_blocker cmd_activity cmd_quiet_span cmd_verify
    cmd_attest cmd_spawn cmd_notify_heartbeat_failure op_activity
run_report-stale settings s slug token phase heartbeat before current row o found lost named h =
    translated _ _ current o (heartbeat-Raises s.now slug token phase current row found lost) h
run_report-stale settings s slug token phase (block question options context kind) before current
      row o found lost named h =
    translated _ _ current o
      (plan_txn-Raises slug
        (add_blocker_body s.now phase question options context kind (some token) (some phase))
        current row found
        (add_blocker_body-IsMismatch s.now question options context kind token phase
          (record row { version = suc row.version }) current.event_seq lost))
      h
run_report-stale settings s slug token phase (activity busy none) before current row o found lost
      named h =
    ground (arith, h)
run_report-stale settings s slug token phase (activity true (some action)) before current row o
      found lost named h =
    ground (arith, h)
run_report-stale settings s slug token phase (activity false (some action)) before current row o
      found lost named h =
    translated (op_activity false s.now slug token phase action current) _ current o
      (activity-Raises s.now slug token phase action current row found lost) h
run_report-stale settings s slug token phase (quiet_span ends reason minutes ceiling) before current
      row o found lost named h =
    elim (Option-cases (requested_span s.now ends reason minutes ceiling)) [
      | inl n ↦ ground (arith, h, n)
      | inr (span, y) ↦
          let (e, raised) =
            stamp-Raises slug token (some phase) (ClaimField.quiet_span span ∷ []) none [] current
              row found lost in
          ground (arith, h, y, raised)
    ]
run_report-stale settings s slug token phase (verify passes) before current row o found lost named
      h =
    elim (Option-cases s.head) [
      | inl n ↦ ground (arith, h, n)
      | inr (head, y) ↦
          let (e, raised) =
            attest-Raises s.now slug token (some phase) verify_kind head
              (stamp_event s.now verify_stamped phase head ∷ []) current row found lost in
          ground (arith, h, y, named, raised)
    ]
run_report-stale settings s slug token phase (attest simplify) before current row o found lost named
      h =
    elim (Option-cases s.head) [
      | inl n ↦ ground (arith, h, n)
      | inr (head, y) ↦
          let (e, raised) =
            attest-Raises s.now slug token (some phase) simplify_kind head
              (stamp_event s.now simplify_stamped phase head ∷ []) current row found lost in
          ground (arith, h, y, named, raised)
    ]
run_report-stale settings s slug token phase (spawn source) before current row o found lost named
      h =
    let (e, raised) =
      spawn-Raises s.now slug (some source) (some phase) "pending" token phase current row found
        lost in
    ground (arith, h, raised)
run_report-stale settings s slug token phase (heartbeat_failure busy log) before current row o found
      lost named h =
    let (e, raised) =
      stamp-Raises slug token (some phase) (ClaimField.heartbeat_loop_failing_notified true ∷ [])
        (some FieldName.heartbeat_loop_failing_notified) (failing_event s.now phase log ∷ [])
        current row found lost in
    ground (arith, h, raised)
