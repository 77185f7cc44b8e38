-- ===== src/Store/Fields.antt =====
-- The claim's columns and flags by name, as `op_stamp_claim_fields`, the tick's claim updates and
-- its preconditions handle them: `_claim_assignments` of end_of_line/plan_store.py.
use end_of_line.Shared.{
  ℕ, String, Option, none, some, List, [], ◌∷◌, Bool, true, false, ◌≡◌, refl, ℕ_discrete,
  String-discrete, Eq, ◌==◌, ◌∙◌, arith,
}
use end_of_line.State.{Claim, Stamp, Sample, QuietSpan}

pub data FieldName : Type 0 where
  last_heartbeat_at lease_expires active_tool_started_at cpu_samples : FieldName
  stalled_notified worker_idle_notified worker_idle_notified_at quiet_span : FieldName
  stuck_tool_emitted_at heartbeat_loop_failing_notified worker_death_reported : FieldName
  worker_death_reported_at pid pgid log_path head_sha_at_claim : FieldName

-- A field with a value: one entry of a claim-field dictionary. The keys are those that the program
-- reads off a claim; token and phase are no fields, and attestations have an operation of their own.
pub data ClaimField : Type 0 where
  last_heartbeat_at lease_expires active_tool_started_at : Option Stamp → ClaimField
  worker_idle_notified_at worker_death_reported_at : Option Stamp → ClaimField
  cpu_samples : Option (List Sample) → ClaimField
  stalled_notified heartbeat_loop_failing_notified worker_death_reported : Bool → ClaimField
  worker_idle_notified : Option Bool → ClaimField
  quiet_span : Option QuietSpan → ClaimField
  stuck_tool_emitted_at : Option (List (ℕ × Stamp)) → ClaimField
  pid pgid : Option ℕ → ClaimField
  log_path head_sha_at_claim : Option String → ClaimField

unfoldable pub ClaimField-discrete : Discrete ClaimField
ClaimField-discrete = hlevel (ℕ_discrete, String-discrete)

instance abbrev pub field_eq : Eq ClaimField
field_eq = record { dec = ClaimField-discrete }

-- `claim.get(name)`
unfoldable pub read_field : FieldName → Claim → ClaimField
read_field FieldName.last_heartbeat_at c = ClaimField.last_heartbeat_at c.last_heartbeat_at
read_field FieldName.lease_expires c = ClaimField.lease_expires c.lease_expires
read_field FieldName.active_tool_started_at c =
    ClaimField.active_tool_started_at c.active_tool_started_at
read_field FieldName.cpu_samples c = ClaimField.cpu_samples c.cpu_samples
read_field FieldName.stalled_notified c = ClaimField.stalled_notified c.stalled_notified
read_field FieldName.worker_idle_notified c = ClaimField.worker_idle_notified c.worker_idle_notified
read_field FieldName.worker_idle_notified_at c =
    ClaimField.worker_idle_notified_at c.worker_idle_notified_at
read_field FieldName.quiet_span c = ClaimField.quiet_span c.quiet_span
read_field FieldName.stuck_tool_emitted_at c =
    ClaimField.stuck_tool_emitted_at c.stuck_tool_emitted_at
read_field FieldName.heartbeat_loop_failing_notified c =
    ClaimField.heartbeat_loop_failing_notified c.heartbeat_loop_failing_notified
read_field FieldName.worker_death_reported c =
    ClaimField.worker_death_reported c.worker_death_reported
read_field FieldName.worker_death_reported_at c =
    ClaimField.worker_death_reported_at c.worker_death_reported_at
read_field FieldName.pid c = ClaimField.pid c.pid
read_field FieldName.pgid c = ClaimField.pgid c.pgid
read_field FieldName.log_path c = ClaimField.log_path c.log_path
read_field FieldName.head_sha_at_claim c = ClaimField.head_sha_at_claim c.head_sha_at_claim

-- One assignment of `_claim_assignments`: a column, or a key merged into the flags.
unfoldable pub write_field : ClaimField → Claim → Claim
write_field (ClaimField.last_heartbeat_at v) c = record c { last_heartbeat_at = v }
write_field (ClaimField.lease_expires v) c = record c { lease_expires = v }
write_field (ClaimField.active_tool_started_at v) c = record c { active_tool_started_at = v }
write_field (ClaimField.cpu_samples v) c = record c { cpu_samples = v }
write_field (ClaimField.stalled_notified v) c = record c { stalled_notified = v }
write_field (ClaimField.worker_idle_notified v) c = record c { worker_idle_notified = v }
write_field (ClaimField.worker_idle_notified_at v) c = record c { worker_idle_notified_at = v }
write_field (ClaimField.quiet_span v) c = record c { quiet_span = v }
write_field (ClaimField.stuck_tool_emitted_at v) c = record c { stuck_tool_emitted_at = v }
write_field (ClaimField.heartbeat_loop_failing_notified v) c = record c {
  heartbeat_loop_failing_notified = v;
}
write_field (ClaimField.worker_death_reported v) c = record c { worker_death_reported = v }
write_field (ClaimField.worker_death_reported_at v) c = record c { worker_death_reported_at = v }
write_field (ClaimField.pid v) c = record c { pid = v }
write_field (ClaimField.pgid v) c = record c { pgid = v }
write_field (ClaimField.log_path v) c = record c { log_path = v }
write_field (ClaimField.head_sha_at_claim v) c = record c { head_sha_at_claim = v }

unfoldable pub write_fields : List ClaimField → Claim → Claim
write_fields [] c = c
write_fields (f ∷ rest) c = write_fields rest (write_field f c)

-- Python's truth of a guarding marker.
abbrev pub is_set : FieldName → Claim → Bool
is_set FieldName.stalled_notified c = c.stalled_notified
is_set FieldName.heartbeat_loop_failing_notified c = c.heartbeat_loop_failing_notified
is_set FieldName.worker_death_reported c = c.worker_death_reported
is_set FieldName.worker_idle_notified c = elim c.worker_idle_notified [ none ↦ false | some b ↦ b ]
is_set FieldName.quiet_span c = elim c.quiet_span [ none ↦ false | some _ ↦ true ]
is_set FieldName.last_heartbeat_at c = elim c.last_heartbeat_at [ none ↦ false | some _ ↦ true ]
is_set FieldName.lease_expires c = elim c.lease_expires [ none ↦ false | some _ ↦ true ]
is_set FieldName.active_tool_started_at c = elim c.active_tool_started_at [
  | none ↦ false
  | some _ ↦ true
]
is_set FieldName.worker_idle_notified_at c = elim c.worker_idle_notified_at [
  | none ↦ false
  | some _ ↦ true
]
is_set FieldName.worker_death_reported_at c = elim c.worker_death_reported_at [
  | none ↦ false
  | some _ ↦ true
]
is_set FieldName.stuck_tool_emitted_at c = elim c.stuck_tool_emitted_at [
  | none ↦ false
  | some l ↦ elim l [ [] ↦ false | _ ∷ _ ↦ true ]
]
is_set FieldName.cpu_samples c = false
is_set FieldName.pid c = elim c.pid [ none ↦ false | some _ ↦ true ]
is_set FieldName.pgid c = elim c.pgid [ none ↦ false | some _ ↦ true ]
is_set FieldName.log_path c = elim c.log_path [ none ↦ false | some _ ↦ true ]
is_set FieldName.head_sha_at_claim c = elim c.head_sha_at_claim [ none ↦ false | some _ ↦ true ]

abbrev pub field_name : ClaimField → FieldName
field_name (ClaimField.last_heartbeat_at _) = FieldName.last_heartbeat_at
field_name (ClaimField.lease_expires _) = FieldName.lease_expires
field_name (ClaimField.active_tool_started_at _) = FieldName.active_tool_started_at
field_name (ClaimField.cpu_samples _) = FieldName.cpu_samples
field_name (ClaimField.stalled_notified _) = FieldName.stalled_notified
field_name (ClaimField.worker_idle_notified _) = FieldName.worker_idle_notified
field_name (ClaimField.worker_idle_notified_at _) = FieldName.worker_idle_notified_at
field_name (ClaimField.quiet_span _) = FieldName.quiet_span
field_name (ClaimField.stuck_tool_emitted_at _) = FieldName.stuck_tool_emitted_at
field_name (ClaimField.heartbeat_loop_failing_notified _) =
    FieldName.heartbeat_loop_failing_notified
field_name (ClaimField.worker_death_reported _) = FieldName.worker_death_reported
field_name (ClaimField.worker_death_reported_at _) = FieldName.worker_death_reported_at
field_name (ClaimField.pid _) = FieldName.pid
field_name (ClaimField.pgid _) = FieldName.pgid
field_name (ClaimField.log_path _) = FieldName.log_path
field_name (ClaimField.head_sha_at_claim _) = FieldName.head_sha_at_claim

-- `claim.get(name) == value`, the test of a precondition on one field.
unfoldable pub field_holds : ClaimField → Claim → Bool
unfolding read_field
field_holds f c = read_field (field_name f) c == f

-- A field that was written reads back as written.
pub field_holds-write_field : (f : ClaimField) (c : Claim) → field_holds f (write_field f c) ≡ true
unfolding field_holds write_field
field_holds-write_field (ClaimField.last_heartbeat_at v) c = ground arith
field_holds-write_field _ c = ground arith

write_field_identity :
    (f : ClaimField) (c : Claim)
    → ((write_field f c).claimed_by ≡ c.claimed_by) × ((write_field f c).phase_id ≡ c.phase_id)
unfolding write_field
write_field_identity (ClaimField.last_heartbeat_at v) c = (refl, refl)
write_field_identity _ c = (refl, refl)

-- Writing fields never changes whose claim it is, nor of which phase.
pub write_fields_identity :
    (fs : List ClaimField) (c : Claim)
    → ((write_fields fs c).claimed_by ≡ c.claimed_by) × ((write_fields fs c).phase_id ≡ c.phase_id)
unfolding write_fields
write_fields_identity [] c = (refl, refl)
write_fields_identity (f ∷ fs) c =
    let (a, b) = write_fields_identity fs (write_field f c) in
    (a ∙ (write_field_identity f c).0, b ∙ (write_field_identity f c).1)
