-- ===== src/Command/Completion.antt =====
-- `cmd_complete` and `cmd_force_complete` of end_of_line/cli.py, with the attestation gates and the
-- cleanup of the worktree. `before` is the store of the snapshot, `current` that of the write, and
-- `others` is what other processes do to it behind that write.
pub mod Gates
pub mod Cleaned
pub mod Decided
pub mod Finished
pub mod Force
pub mod Forced
use end_of_line.Shared.{
  ℕ, String, Option, none, some, List, [], ◌∷◌, ◌++◌, Bool, true, false, not, ◌&&◌, ◌||◌,
  if◌then◌else◌, ltb, ◌==◌, string_eq, Result, ok, err, ◌>>=◌, ◌>>◌, all, contains, drop, length,
}
use end_of_line.State
use end_of_line.State.{
  Plan, Claim, Event, Worktree, Value, text, texts, flag, phase_completed, phase_started,
  operator_skip_verify, operator_skip_simplify, verify_policy_skipped, operator_force_complete,
  worktree_cleaned, worktree_retained_ahead, option_text_eq,
}
use end_of_line.State.Slug.{validate_slug}
use end_of_line.State.Claims.{append_event, assert_claim_match}
use end_of_line.State.Attempts.{completed_phase_ids, latest_event}
use end_of_line.Store.{Db}
use end_of_line.Store.Head.{HeadField, op_set_fields}
use end_of_line.Store.ClaimOps.{op_append_events, op_release_claim}
use end_of_line.Store.PlanOps.{op_refuse_attestation, stamped_sha, snapshot}
use end_of_line.Supervisor.Watchdogs.{worker_pid}
use end_of_line.Command.Exit.{ExitCode}
use end_of_line.Command.{
  Outcome, Effect, reap, post_action_tick, attestation_refused_inbox, remove_worktree, die,
  translate_claim_mismatch, emit_coolant_stop, token_or_empty, Surroundings, Settings,
}

abbrev pub verify_kind : String
verify_kind = "verify"

abbrev pub simplify_kind : String
simplify_kind = "simplify"

-- `_resolve_ref(git_root, "HEAD") or ""`
abbrev pub head_sha : Surroundings → String
head_sha s = token_or_empty s.head

-- The stamp of that kind is missing, or of another commit than HEAD.
unfoldable pub is_stale : Surroundings → String → Plan → Bool
unfolding stamped_sha
is_stale s kind plan = not (stamped_sha kind plan.current_claim == some (head_sha s))

-- `_claim_base_sha`; an empty text counts as no base.
unfoldable pub claim_base_sha : Plan → Option String
claim_base_sha plan = elim plan.worktree [
  | some wt ↦ some wt.base_ref
  | none ↦ elim plan.current_claim [ none ↦ none | some claim ↦ claim.head_sha_at_claim ]
]

-- `simplify_threshold_or_default`
abbrev pub threshold : Settings → ℕ × ℕ
threshold settings = elim settings.simplify_threshold [ none ↦ (1, 30) | some t ↦ t ]

unfoldable pub is_over : Settings → ℕ × ℕ → Bool
is_over settings (files, lines) =
    let (t_files, t_lines) = threshold settings in ltb t_files files || ltb t_lines lines

unfoldable pub needs_simplify : Settings → Surroundings → Plan → Bool
unfolding claim_base_sha is_over
needs_simplify settings s plan = elim (claim_base_sha plan) [
  | none ↦ false
  | some base ↦ not (base == "") && is_over settings (s.diff base)
]

-- The gate that refuses, if one does: verify first.
unfoldable pub refusing_gate : Settings → Surroundings → Bool → Bool → Plan → Option String
unfolding is_stale needs_simplify
refusing_gate settings s skip_verify skip_simplify plan =
    if not skip_verify && settings.verify_required && is_stale s verify_kind plan
    then some verify_kind
    else if not skip_simplify && needs_simplify settings s plan && is_stale s simplify_kind plan
    then some simplify_kind
    else none

-- `_emit_attestation_refusal`, the inbox row where it was recorded, and the exit.
unfoldable pub refuse : Surroundings → String → String → String → Db → Result Outcome
unfolding op_refuse_attestation
refuse s slug phase kind current = do
  refused ← op_refuse_attestation s.now slug phase kind (head_sha s) current
  let ((stamped, emitted), db) = refused
  ok (record {
    code = ExitCode.status_transition;
    db = db;
    effects = if emitted then attestation_refused_inbox kind stamped (head_sha s) ∷ [] else [];
  })

abbrev pub completed_event : ℕ → String → List String → Event
completed_event now phase commits = record (State.event now phase_completed) {
  phase = some phase;
  fields = ("commits", texts commits) ∷ [];
}

abbrev when : Bool → Event → List Event
when true e = e ∷ []
when false e = []

abbrev by_operator : Event → String → Event
by_operator e phase = record e { phase = some phase; fields = ("operator", flag true) ∷ [] }

abbrev pub completion_events : Settings → ℕ → String → List String → Bool → Bool → List Event
completion_events settings now phase commits skip_verify skip_simplify =
    completed_event now phase commits
    ∷ (when skip_verify (by_operator (State.event now operator_skip_verify) phase)
        ++ (when skip_simplify (by_operator (State.event now operator_skip_simplify) phase)
            ++ when (not settings.verify_required)
                (record (State.event now verify_policy_skipped) { phase = some phase })))

-- `not phases or not all(p.id in completed …)`, or a plan file that cannot be read.
abbrev pub all_phases_done : Surroundings → Plan → Bool
all_phases_done s plan = elim s.phases [
  | none ↦ false
  | some [] ↦ false
  | some (p ∷ rest) ↦ all (λ phase. contains phase (completed_phase_ids plan)) (p ∷ rest)
]

-- `_maybe_cleanup_worktree` with `require_all_phases_done=True`, on a snapshot.
unfoldable pub cleanup_worktree : Settings → Surroundings → String → Plan → Plan × List Effect
unfolding completed_phase_ids append_event
cleanup_worktree settings s trigger plan = elim plan.worktree [
  | none ↦ (plan, [])
  | some wt ↦
      let about =
        ("path", text wt.path) ∷ ("branch", text wt.branch) ∷ ("trigger", text trigger) ∷ [] in
      if all_phases_done s plan
      then (if s.reachable wt.branch
          then (
            record (append_event (record (State.event s.now worktree_cleaned) { fields = about })
                plan) { worktree = none },
            remove_worktree wt.path wt.branch (not settings.keep_remote_branches) ∷ [],
          )
          else (
            append_event (record (State.event s.now worktree_retained_ahead) { fields = about })
                plan,
            [],
          ))
      else (plan, [])
]

-- `_persist_worktree_cleanup`. A null that the snapshot held already is written again by the code;
-- that rewrite, which changes the version alone, is left out.
unfoldable pub persist_cleanup : String → Plan → Plan → ℕ → Db → Result Db
unfolding op_set_fields
persist_cleanup slug seen cleaned recorded db = elim (drop recorded cleaned.events) [
  | [] ↦ ok db
  | e ∷ rest ↦ do
    wrote ←
        op_set_fields slug
          (elim cleaned.worktree [ none ↦ HeadField.worktree none ∷ [] | some wt ↦ [] ]) []
          (e ∷ rest) db
    ok wrote.1
]

-- The completion has committed; the worktree is looked at only where the gates' snapshot had one.
unfoldable pub wrap_up :
    Settings → Surroundings → String → String → String → (Db → Db) → Plan → Db → Result Outcome
unfolding cleanup_worktree persist_cleanup snapshot
wrap_up settings s slug token phase others seen db = elim seen.worktree [
  | none ↦ ok (record {
    code = ExitCode.ok;
    db = db;
    effects = emit_coolant_stop settings.coolant_enabled phase token ++ post_action_tick ∷ [];
  })
  | some wt ↦ do
    plan ← snapshot slug (others db)
    let (cleaned, removal) = cleanup_worktree settings s "complete" plan
    db' ← persist_cleanup slug plan cleaned (length plan.events) (others (others db))
    ok (record {
      code = ExitCode.ok;
      db = db';
      effects =
          emit_coolant_stop settings.coolant_enabled phase token
          ++ (removal ++ post_action_tick ∷ []);
    })
]

unfoldable pub complete_matched :
    Settings
    → Surroundings
    → String
    → String
    → String
    → List String
    → Bool
    → Bool
    → (Db → Db)
    → Plan
    → Db
    → Result Outcome
unfolding refusing_gate refuse wrap_up op_release_claim
complete_matched settings s slug token phase commits skip_verify skip_simplify others seen current =
    elim (refusing_gate settings s skip_verify skip_simplify seen) [
      | some kind ↦ refuse s slug phase kind current
      | none ↦ do
        released ←
            op_release_claim slug (some token) (some phase)
              (completion_events settings s.now phase commits skip_verify skip_simplify) current
        wrap_up settings s slug token phase others seen released.1
    ]

-- The read-only check of the token comes before the gates.
unfoldable pub cmd_complete :
    Settings
    → Surroundings
    → String
    → String
    → String
    → List String
    → Bool
    → Bool
    → (Db → Db)
    → Db
    → Db
    → Result Outcome
unfolding assert_claim_match complete_matched snapshot
cmd_complete settings s slug token phase commits skip_verify skip_simplify others before current =
    translate_claim_mismatch current (
      if all s.known_sha commits
      then (do
        seen ← snapshot slug before
        assert_claim_match seen.current_claim token phase
        complete_matched settings s slug token phase commits skip_verify skip_simplify others seen
            current)
      else die ExitCode.bad_sha current)
