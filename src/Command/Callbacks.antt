-- ===== src/Command/Callbacks.antt =====
-- The commands by which a worker reports: `cmd_heartbeat`, `cmd_activity`, `cmd_quiet_span`,
-- `cmd_block`, `cmd_verify`, `cmd_attest`, `cmd_spawn`, `cmd_task_done` and
-- `cmd_notify_heartbeat_failure` of end_of_line/cli.py. `before` is the store of the snapshot,
-- `current` that of the write.
pub mod Guarded
pub mod Caps
use end_of_line.Shared.{
  ℕ, zero, suc, String, Option, none, some, List, [], ◌∷◌, ◌++◌, Bool, true, false, not, ◌&&◌,
  if◌then◌else◌, leb, ◌==◌, string_eq, nat_eq, Result, ok, err, ◌>>=◌, ◌>>◌, length, filter, ℤ, pos,
  ltb_ℤ,
}
use end_of_line.State
use end_of_line.State.{
  Plan, Claim, Event, Task, QuietSpan, text, flag, texts, verify_stamped, simplify_stamped,
  task_completed, heartbeat_loop_failing, default_max_spawns_per_phase, option_text_eq,
}
use end_of_line.State.Slug.{validate_slug}
use end_of_line.State.Claims.{assert_claim_match, get_or_default}
use end_of_line.State.Idle.{build_quiet_span}
use end_of_line.Store.{Db}
use end_of_line.Store.Fields.{ClaimField, FieldName}
use end_of_line.Store.ClaimOps.{
  Activity, op_heartbeat, op_activity, op_stamp_claim_fields, op_stamp_attestation,
}
use end_of_line.Store.PlanOps.{op_add_blocker, op_spawn_task, find_task, op_complete_task, snapshot}
use end_of_line.Command.Exit.{ExitCode}
use end_of_line.Command.{
  Outcome, Effect, post_action_tick, blocker_notify, heartbeat_failing_inbox,
  heartbeat_failing_notify, die, leave, translate_claim_mismatch, emit_coolant_stop, Surroundings,
  Settings,
}
use end_of_line.Command.Completion.{verify_kind, simplify_kind}

unfoldable pub cmd_heartbeat : ℕ → String → String → String → Db → Result Outcome
unfolding op_heartbeat
cmd_heartbeat now slug token phase current =
    translate_claim_mismatch current
      (do beat ← op_heartbeat now slug token phase current; leave beat.1 [])

-- A marker that a busy store dropped is reported, with the exit code 0 all the same.
unfoldable pub cmd_activity :
    Bool → ℕ → String → String → String → Option Activity → Db → Result Outcome
unfolding op_activity
cmd_activity busy now slug token phase none current = die ExitCode.invalid_value current
cmd_activity busy now slug token phase (some action) current =
    translate_claim_mismatch current
      (do stamped ← op_activity busy now slug token phase action current; leave stamped.1 [])

-- `text[:n]`
unfoldable pub take_text : ℕ → String → String
take_text zero s = String.[]
take_text (suc n) String.[] = String.[]
take_text (suc n) (String.◌∷◌ c s) = String.◌∷◌ c (take_text n s)

-- What the flags of `clu quiet-span` ask for; `none` where they contradict each other.
unfoldable pub requested_span : ℕ → Bool → String → Option ℤ → ℤ → Option (Option QuietSpan)
unfolding build_quiet_span take_text
requested_span now true reason minutes ceiling = elim minutes [
  | none ↦ if reason == "" then some none else none
  | some m ↦ none
]
requested_span now false reason minutes ceiling = if reason == "" then none else elim minutes [
  | none ↦ none
  | some m ↦
      if ltb_ℤ (pos 0) m
      then some (some (build_quiet_span (take_text 200 reason) m now ceiling))
      else none
]

unfoldable pub cmd_quiet_span :
    ℕ → String → String → String → Bool → String → Option ℤ → ℤ → Db → Result Outcome
unfolding requested_span op_stamp_claim_fields
cmd_quiet_span now slug token phase ends reason minutes ceiling current =
    translate_claim_mismatch current (
      if validate_slug phase
      then elim (requested_span now ends reason minutes ceiling) [
        | none ↦ die ExitCode.invalid_value current
        | some span ↦ do
          wrote ←
              op_stamp_claim_fields slug token (some phase) (ClaimField.quiet_span span ∷ []) none
                [] current
          leave wrote.1 []
      ]
      else die ExitCode.invalid_slug current)

-- The release and the blocker commit together.
unfoldable pub cmd_block :
    Settings
    → ℕ
    → String
    → String
    → String
    → String
    → List String
    → String
    → String
    → Db
    → Result Outcome
unfolding op_add_blocker
cmd_block settings now slug token phase question options context kind current =
    translate_claim_mismatch current (do
      added ←
          op_add_blocker now slug phase question options context kind (some token) (some phase)
            current
      leave added.1 (
          emit_coolant_stop settings.coolant_enabled phase token
          ++ (blocker_notify added.0 phase ∷ post_action_tick ∷ [])))

abbrev given : Option String → Option String
given none = none
given (some t) = if t == "" then none else some t

-- `quality.verify_command or test_command`
abbrev resolved_verify_command : Settings → Option String
resolved_verify_command settings = elim (given settings.verify_command) [
  | some c ↦ some c
  | none ↦ given settings.test_command
]

abbrev check_given_token : Option String → String → Plan → Result (Unit {0})
check_given_token none phase plan = ok tt
check_given_token (some token) phase plan = assert_claim_match plan.current_claim token phase

abbrev pub stamp_event : ℕ → State.EventKind → String → String → Event
stamp_event now kind phase sha = record (State.event now kind) {
  phase = some phase;
  fields = ("commit_sha", text sha) ∷ [];
}

-- HEAD is read before the command runs; `passes` says that the command ended with the code 0 in
-- time.
unfoldable pub cmd_verify :
    Settings → Surroundings → String → Option String → String → Bool → Db → Db → Result Outcome
unfolding assert_claim_match op_stamp_attestation snapshot
cmd_verify settings s slug token phase passes before current =
    translate_claim_mismatch current (elim (resolved_verify_command settings) [
      | none ↦ die ExitCode.generic current
      | some command ↦ do
        seen ← snapshot slug before
        check_given_token (given token) phase seen
        elim s.head [
          | none ↦ die ExitCode.generic current
          | some head ↦
              if passes
              then (do
                wrote ←
                    op_stamp_attestation s.now slug (given token) (some phase) verify_kind head
                      (stamp_event s.now verify_stamped phase head ∷ []) current
                leave wrote.1 [])
              else die ExitCode.generic current
        ]
    ])

unfoldable pub cmd_attest :
    Surroundings → String → String → String → Bool → Db → Db → Result Outcome
unfolding op_stamp_attestation snapshot
cmd_attest s slug token phase simplify before current = translate_claim_mismatch current (
    if simplify
    then (do
      seen ← snapshot slug before
      elim s.head [
        | none ↦ die ExitCode.generic current
        | some head ↦ do
          wrote ←
              op_stamp_attestation s.now slug (some token) (some phase) simplify_kind head
                (stamp_event s.now simplify_stamped phase head ∷ []) current
          leave wrote.1 []
      ])
    else die ExitCode.generic current)

abbrev pub spawned_by : String → Task → Bool
spawned_by phase t = t.spawned_by_phase == some phase

abbrev pub spawn_cap : Plan → ℕ
spawn_cap plan = get_or_default default_max_spawns_per_phase plan.config.max_spawns_per_phase

-- The cap is read from the snapshot; the write is a compare-and-set on the token.
unfoldable pub cmd_spawn : ℕ → String → String → String → String → Db → Db → Result Outcome
unfolding assert_claim_match op_spawn_task snapshot
cmd_spawn now slug token phase source before current = translate_claim_mismatch current (do
  seen ← snapshot slug before
  assert_claim_match seen.current_claim token phase
  if leb (spawn_cap seen) (length (filter (spawned_by phase) seen.spawned_tasks))
      then die ExitCode.spawn_cap current
      else (do
        spawned ←
            op_spawn_task now slug (some source) (some phase) "pending" (some token) (some phase)
              current
        leave spawned.1 []))

abbrev task_event : ℕ → ℕ → List String → Bool → Event
task_event now n commits forced = record (State.event now task_completed) {
  fields = ("task", State.num n) ∷ ("commits", texts commits) ∷ ("forced", flag forced) ∷ [];
}

-- `token` is the argument as it is: an empty one counts as none.
unfoldable pub cmd_task_done :
    ℕ → String → ℕ → Bool → Option String → List String → Db → Db → Result Outcome
unfolding find_task op_complete_task snapshot
cmd_task_done now slug n force token commits before current = translate_claim_mismatch current (
    if force && not (given token == none) then die ExitCode.claim_mismatch current else (do
      seen ← snapshot slug before
      elim (find_task n seen.spawned_tasks) [
        | none ↦ die ExitCode.unknown_task current
        | some t ↦
            if t.status == "done"
            then leave current []
            else if not force && given token == none
            then die ExitCode.claim_mismatch current
            else (do
              wrote ←
                  op_complete_task now slug n (if force then none else given token)
                    (if force then none else t.spawned_by_phase)
                    (task_event now n commits force ∷ []) current
              leave wrote.1 (post_action_tick ∷ []))
      ]))

abbrev pub failing_event : ℕ → String → String → Event
failing_event now phase log = record (State.event now heartbeat_loop_failing) {
  phase = some phase;
  fields = ("log_path", text log) ∷ [];
}

-- The marker and the event are one write; a busy store drops the report.
unfoldable pub cmd_notify_heartbeat_failure :
    Bool → ℕ → String → String → String → String → Db → Result Outcome
unfolding op_stamp_claim_fields
cmd_notify_heartbeat_failure busy now slug token phase log current =
    translate_claim_mismatch current (
      if busy then leave current [] else (do
        first ←
            op_stamp_claim_fields slug token (some phase)
              (ClaimField.heartbeat_loop_failing_notified true ∷ [])
              (some FieldName.heartbeat_loop_failing_notified) (failing_event now phase log ∷ [])
              current
        let (stamped, db) = first
        leave db (
            if stamped
            then heartbeat_failing_inbox phase ∷ heartbeat_failing_notify phase ∷ []
            else [])))
