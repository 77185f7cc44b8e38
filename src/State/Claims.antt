-- ===== src/State/Claims.antt =====
-- The claim lifecycle of end_of_line/state.py: claiming, matching, heartbeat, release, terminalize.
-- The instant `now` is what the clock answers; `minted` is the token that uuid4 yields.
pub mod Lifecycle
use end_of_line.Shared.{
  ℕ, suc, ◌+◌, ◌*◌, ◌/◌, String, Option, none, some, List, [], ◌∷◌, ◌++◌, Bool, true, false, ◌&&◌,
  not, max, min, if◌then◌else◌, ltb, leb, ◌==◌, string_eq, Result, ok, err, ◌>>=◌, ◌>>◌,
  claim_mismatch, no_active_claim, token_mismatch, phase_mismatch, already_claimed, value_error,
  length, filter,
}
use end_of_line.State
use end_of_line.State.{
  Plan, Claim, Event, EventKind, Status, PhaseEntry, halted, lease_expired, phase_started,
  plan_abandoned, minute, utcnow, parse_iso, is_terminal, default_lease_ttl_min, option_text_eq,
  status_eq, kind_eq, Value,
}

unfoldable pub append_event : Event → Plan → Plan
append_event e plan = record plan { events = plan.events ++ e ∷ [] }

abbrev pub find_phase : String → List PhaseEntry → Option ℕ
find_phase phase_id [] = none
find_phase phase_id (ph ∷ rest) =
    let later = find_phase phase_id rest in
    if ph.id == phase_id
    then elim ph.lease_ttl_minutes [ some m ↦ some m | none ↦ later ]
    else later

-- `d.get(key, default)`
abbrev pub get_or_default {ℓ} : {A : Type ℓ} → A → Option A → A
get_or_default d none = d
get_or_default d (some a) = a

unfoldable pub lease_ttl_for_phase : Plan → String → ℕ
lease_ttl_for_phase plan phase_id = elim (find_phase phase_id plan.phases) [
  | some m ↦ m
  | none ↦ get_or_default default_lease_ttl_min plan.config.lease_ttl_minutes
]

abbrev pub stalled_heartbeat_min_floor : ℕ
stalled_heartbeat_min_floor = 15

abbrev pub stalled_heartbeat_min_ceiling : ℕ
stalled_heartbeat_min_ceiling = 25

unfoldable pub stalled_threshold_for_phase : Plan → String → ℕ
stalled_threshold_for_phase plan phase_id = elim plan.config.stalled_heartbeat_minutes [
  | some explicit ↦ explicit
  | none ↦
      let derived = max stalled_heartbeat_min_floor (lease_ttl_for_phase plan phase_id / 2) in
      min stalled_heartbeat_min_ceiling derived
]

-- The claim's lease has passed; a missing or unreadable expiry never expires.
unfoldable pub lease_past : ℕ → Claim → Bool
lease_past now claim = elim claim.lease_expires [
  | none ↦ false
  | some ts ↦ elim (parse_iso ts) [ none ↦ false | some expires ↦ not (ltb now expires) ]
]

abbrev pub lease_expired_event : ℕ → Claim → Event
lease_expired_event now claim = record (State.event now lease_expired) {
  phase = some claim.phase_id;
  claimed_by = claim.claimed_by;
}

unfoldable pub release_if_expired : ℕ → Plan → Bool × Plan
unfolding append_event lease_past
release_if_expired now plan = elim plan.current_claim [
  | none ↦ (false, plan)
  | some claim ↦
      if lease_past now claim
      then (
        true,
        record (append_event (lease_expired_event now claim) plan) { current_claim = none },
      )
      else (false, plan)
]

abbrev pub is_start_of : String → Event → Bool
is_start_of phase_id evt = evt.kind == phase_started && evt.phase == some phase_id

unfoldable pub started_count : String → List Event → ℕ
started_count phase_id events = length (filter (is_start_of phase_id) events)

abbrev pub fresh_claim : ℕ → String → String → ℕ → ℕ → Claim
fresh_claim now token phase_id lease_minutes attempts = record {
  phase_id = phase_id;
  claimed_by = some token;
  lease_expires = some (utcnow (now + lease_minutes * minute));
  started_at = some (utcnow now);
  last_heartbeat_at = some (utcnow now);
  attempts = attempts;
  head_sha_at_claim = none;
  pid = none;
  pgid = none;
  log_path = none;
  active_tool_started_at = none;
  cpu_samples = none;
  attestations = [];
  quiet_span = none;
  stalled_notified = false;
  worker_idle_notified = none;
  worker_idle_notified_at = none;
  stuck_tool_emitted_at = none;
  heartbeat_loop_failing_notified = false;
  worker_death_reported = false;
  worker_death_reported_at = none;
}

abbrev pub started_event : ℕ → String → String → Event
started_event now token phase_id = record (State.event now phase_started) {
  phase = some phase_id;
  claimed_by = some token;
}

-- The second half of `claim_phase`, after the expired claim has been released.
claim_free : ℕ → String → String → ℕ → Plan → Result (String × Plan)
unfolding append_event started_count
claim_free now token phase_id lease_minutes plan = elim plan.current_claim [
  | some existing ↦ err already_claimed
  | none ↦
      let attempts = started_count phase_id plan.events + 1 in
      let claimed = record plan {
        current_claim = some (fresh_claim now token phase_id lease_minutes attempts);
      } in
      ok (token, append_event (started_event now token phase_id) claimed)
]

unfoldable pub claim_phase : ℕ → String → String → ℕ → Option String → Plan → Result (String × Plan)
unfolding release_if_expired claim_free
claim_phase now minted phase_id lease_minutes claimed_by plan =
    claim_free now (get_or_default minted claimed_by) phase_id lease_minutes
      (release_if_expired now plan).1

unfoldable pub assert_claim_match : Option Claim → String → String → Result (Unit {0})
assert_claim_match none expected_token expected_phase = err (claim_mismatch no_active_claim)
assert_claim_match (some claim) expected_token expected_phase =
    if claim.claimed_by == some expected_token
    then (if claim.phase_id == expected_phase then ok tt else err (claim_mismatch phase_mismatch))
    else err (claim_mismatch token_mismatch)

abbrev pub on_claim : (Claim → Claim) → Plan → Plan
on_claim f plan = record plan {
  current_claim = elim plan.current_claim [ none ↦ none | some c ↦ some (f c) ];
}

unfoldable pub record_heartbeat : ℕ → String → String → Plan → Result Plan
unfolding assert_claim_match
record_heartbeat now expected_token expected_phase plan = do
  assert_claim_match plan.current_claim expected_token expected_phase
  ok (on_claim (λ c. record c { last_heartbeat_at = some (utcnow now) }) plan)

-- `claim.get("last_heartbeat_at") or claim.get("started_at")`, as an instant.
unfoldable pub last_beat : Claim → Option ℕ
last_beat claim = elim claim.last_heartbeat_at [
  | some ts ↦ parse_iso ts
  | none ↦ elim claim.started_at [ some ts ↦ parse_iso ts | none ↦ none ]
]

-- `age >= threshold_minutes * 60`, with the heartbeat's instant moved to the other side.
unfoldable pub is_claim_stalled : Claim → ℕ → ℕ → Bool
unfolding last_beat
is_claim_stalled claim threshold_minutes now = elim (last_beat claim) [
  | none ↦ false
  | some last ↦ leb (last + threshold_minutes * minute) now
]

unfoldable pub release_claim : Option String → Option String → Plan → Result Plan
unfolding assert_claim_match
release_claim none none plan = ok (record plan { current_claim = none })
release_claim (some expected_token) (some expected_phase) plan = do
  assert_claim_match plan.current_claim expected_token expected_phase
  ok (record plan { current_claim = none })
release_claim _ _ plan = err value_error

-- Compare-and-set: a plan that is already terminal is left alone.
unfoldable pub terminalize : Status → Event → Plan → Bool × Plan
unfolding append_event
terminalize status evt plan =
    if is_terminal plan.status
    then (false, plan)
    else (true, append_event evt (record plan { status = status }))
