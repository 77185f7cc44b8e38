-- ===== src/Command.antt =====
-- The commands of end_of_line/cli.py that read a snapshot, decide, and write through the store: exit
-- codes, what a command leaves behind, and the translation of a claim mismatch.
pub mod Exit
pub mod Status
pub mod Completion
pub mod Callbacks
pub mod Deaths
pub mod Chaining
use end_of_line.Shared.{
  ℕ, String, Option, none, some, List, [], ◌∷◌, ◌++◌, Bool, true, false, not, ◌&&◌, ◌==◌, string_eq,
  if◌then◌else◌, Result, ok, err, claim_mismatch, ◌≡◌,
}
use end_of_line.State.{Plan, Claim}
use end_of_line.State.Claims.{is_claim_stalled, stalled_threshold_for_phase}
use end_of_line.Store.{Db}
use end_of_line.Command.Exit.{ExitCode}

-- What a command does outside the store, in order, by what it is called with.
pub data Effect : Type 0 where
  emit_stop : String → String → Effect
  reap : ℕ → String → Effect
  post_action_tick : Effect
  attestation_refused_inbox : String → Option String → String → Effect
  blocker_notify : ℕ → String → Effect
  heartbeat_failing_inbox heartbeat_failing_notify : String → Effect
  worker_dead_inbox : String → Option ℕ → Effect
  worker_dead_notify : String → Option ℕ → Effect
  quota_pause_notify : String → Option ℕ → Effect
  remove_worktree : String → String → Bool → Effect

pub record Outcome : Type 0 where
  pub code : ExitCode
  pub db : Db
  pub effects : List Effect

-- `_die`: the exit code, with the store as it stands.
abbrev pub die : ExitCode → Db → Result Outcome
die code db = ok (record { code = code; db = db; effects = [] })

abbrev pub leave : Db → List Effect → Result Outcome
leave db effects = ok (record { code = ExitCode.ok; db = db; effects = effects })

-- `_translate_claim_mismatch`: a compare-and-set that failed wrote nothing.
abbrev pub translate_claim_mismatch : Db → Result Outcome → Result Outcome
translate_claim_mismatch db (ok done) = ok done
translate_claim_mismatch db (err (claim_mismatch m)) = die ExitCode.claim_mismatch db
translate_claim_mismatch db (err e) = err e

-- `_emit_coolant_stop`
abbrev pub emit_coolant_stop : Bool → String → String → List Effect
emit_coolant_stop enabled phase token =
    if enabled && not (token == "") && not (phase == "") then emit_stop token phase ∷ [] else []

-- `claim_is_stalled` of end_of_line/state.py
unfoldable pub claim_is_stalled : ℕ → Plan → Claim → Bool
unfolding is_claim_stalled stalled_threshold_for_phase
claim_is_stalled now plan claim =
    is_claim_stalled claim (stalled_threshold_for_phase plan claim.phase_id) now

-- `get_or_default ""` of a token, as `claim.get("claimed_by") or ""`.
abbrev pub token_or_empty : Option String → String
token_or_empty none = ""
token_or_empty (some t) = t

-- What the commands are told from outside the store: the clock; git's answers about HEAD, the diff
-- from a base and the commits that are named; the plan file's phases, `none` where it cannot be read.
pub record Surroundings : Type 0 where
  pub now : ℕ
  pub head : Option String
  pub diff : String → ℕ × ℕ
  pub known_sha : String → Bool
  pub phases : Option (List String)
  pub reachable : String → Bool
  pub minted_text : String

-- The settings of end_of_line/config.py that the commands read.
pub record Settings : Type 0 where
  pub coolant_enabled : Bool
  pub verify_required : Bool
  pub simplify_threshold : Option (ℕ × ℕ)
  pub verify_command : Option String
  pub test_command : Option String
  pub keep_remote_branches : Bool
