-- ===== src/Dispatch.antt =====
-- The start of a worker for a tick's claim, `dispatch_for_tick` of end_of_line/dispatch.py: every way
-- that it can fail, and what each leaves in the store. The session id of a claim is left out.
pub mod Writes
pub mod Accounted
use end_of_line.Shared.{
  ℕ, String, Option, none, some, List, [], ◌∷◌, ◌++◌, Bool, true, false, if◌then◌else◌, Result, ok,
  err, ◌>>=◌, Error, claim_mismatch, value_error, db_busy,
}
use end_of_line.State
use end_of_line.State.{
  Event, Worktree, paused, text, dispatch_failed, worktree_missing, systemic_failure,
}
use end_of_line.Quota.{QuotaMatch, Pause, Death, record_quota_death}
use end_of_line.Store.{Db}
use end_of_line.Store.Fields.{ClaimField}
use end_of_line.Store.ClaimOps.{op_release_claim, op_append_events, op_stamp_claim_fields}
use end_of_line.Store.PlanOps.{op_set_status}

-- How the worker's process went within the time that the dispatcher waits: the log's open or `Popen`
-- raised an error other than FileNotFoundError, its directory or shell was not found, it ended with a
-- code that is not 0, or it runs or ended with 0. The failures carry the reason that is recorded, the
-- last the process id.
pub data Spawn : Type 0 where
  raised : Error → Spawn
  not_found : String → Spawn
  exited : String → Spawn
  spawned : ℕ → Spawn

-- What the dispatcher finds: its settings, the worktree, the process, and what the two classifiers
-- read in the log. `writable` is false where the store cannot be written; `setup_error` is what the
-- rendering of the command, the making of the log's directory or the note on the earlier attempt
-- raises.
pub record Attempt : Type 0 where
  pub now : ℕ
  pub has_command : Bool
  pub is_shell : Bool
  pub setup_error : Option Error
  pub worktree_alive : Bool
  pub spawn : Spawn
  pub log_path : String
  pub classify_log_tail : Option QuotaMatch
  pub parse_reset : QuotaMatch → Option ℕ
  pub systemic_signature : Option String
  pub writable : Bool

pub data Ping : Type 0 where
  worktree_missing_halted : String → Ping
  systemic_failure_halted : String → Ping
  quota_paused : String → Option ℕ → Ping

pub record Dispatched : Type 0 where
  pub is_spawned : Bool
  pub db : Db
  pub pause : Option Pause
  pub pings : List Ping

-- The claim of the tick: the plan, the phase and the token.
pub record Ticket : Type 0 where
  pub slug : String
  pub phase_id : String
  pub token : String
  pub worktree : Option Worktree

abbrev pub failure : ℕ → State.EventKind → Ticket → List (String × State.Value) → Event
failure now kind t fields = record (State.event now kind) {
  phase = some t.phase_id;
  token = some t.token;
  fields = fields;
}

-- `_release_recording`: the events are written with the release, or without it where the claim is
-- another's by then. `between` is what other processes do between the two transactions.
unfoldable pub release_recording : Bool → (Db → Db) → Ticket → List Event → Db → Result Db
unfolding op_release_claim op_append_events
release_recording writable between t events db =
    if writable
    then elim (op_release_claim t.slug (some t.token) (some t.phase_id) events db) [
      | ok (released, db') ↦ ok db'
      | err e ↦ elim e [
        | claim_mismatch m ↦ do
          wrote ← op_append_events t.slug events none none (between db)
          ok wrote.1
        | other ↦ err other
      ]
    ]
    else err db_busy

-- `_pause_recording`
unfoldable pub pause_recording : Bool → (Db → Db) → Ticket → Event → Db → Result Db
unfolding op_set_status
pause_recording writable between t evt db =
    if writable
    then elim (op_set_status t.slug paused (evt ∷ []) (some t.token) (some t.phase_id) db) [
      | ok (u, db') ↦ ok db'
      | err e ↦ elim e [
        | claim_mismatch m ↦ do
          wrote ← op_set_status t.slug paused (evt ∷ []) none none (between db)
          ok wrote.1
        | other ↦ err other
      ]
    ]
    else err db_busy

abbrev pub failed : Db → Option Pause → List Ping → Dispatched
failed db pause pings = record { is_spawned = false; db = db; pause = pause; pings = pings }

-- `_release_with_failure`: a store that cannot record it is left alone.
unfoldable pub release_with_failure :
    Attempt → (Db → Db) → Ticket → String → Option Pause → Db → Dispatched
unfolding release_recording
release_with_failure a between t reason pause db =
    let events = failure a.now dispatch_failed t (("reason", text reason) ∷ []) ∷ [] in
    elim (release_recording a.writable between t events db) [
      | ok db' ↦ failed db' pause []
      | err e ↦ failed db pause []
    ]

-- `_pause_and_halt`: the ping goes out only where the pause was recorded.
unfoldable pub pause_and_halt :
    Attempt → (Db → Db) → Ticket → Event → Ping → Option Pause → Db → Dispatched
unfolding pause_recording
pause_and_halt a between t evt ping pause db = elim (pause_recording a.writable between t evt db) [
  | ok db' ↦ failed db' pause (ping ∷ [])
  | err e ↦ failed db pause []
]

abbrev pub pause_for_missing_worktree :
    Attempt → (Db → Db) → Ticket → Worktree → Option Pause → Db → Dispatched
pause_for_missing_worktree a between t wt pause db =
    pause_and_halt a between t
      (failure a.now worktree_missing t (("worktree_path", text wt.path) ∷ []))
      (worktree_missing_halted wt.path) pause db

-- The exit that no quota message explains: a known signature pauses the plan, others fail the attempt.
unfoldable pub on_exit : Attempt → (Db → Db) → Ticket → String → Option Pause → Db → Dispatched
unfolding pause_and_halt release_with_failure
on_exit a between t reason pause db = elim a.systemic_signature [
  | some signature ↦
      pause_and_halt a between t
        (failure a.now systemic_failure t
          (("signature", text signature) ∷ ("log_path", text a.log_path) ∷ []))
        (systemic_failure_halted signature) pause db
  | none ↦ release_with_failure a between t reason pause db
]

-- `_record_quota_fast_fail` and what follows where it does not take the path: the pause row is written
-- first, and stays where the release cannot be recorded.
unfoldable pub on_fast_fail : Attempt → (Db → Db) → Ticket → String → Option Pause → Db → Dispatched
unfolding record_quota_death release_recording on_exit
on_fast_fail a between t reason pause db = elim a.classify_log_tail [
  | none ↦ on_exit a between t reason pause db
  | some found ↦
      let d =
        record_quota_death a.now found (a.parse_reset found) t.phase_id (some t.token) pause in
      elim (release_recording a.writable between t d.events db) [
        | ok db' ↦ failed db' d.pause (quota_paused found.line d.paused_until ∷ [])
        | err e ↦ on_exit a between t reason d.pause db
      ]
]

-- `_stamp_pid`: best effort.
unfoldable pub stamp_pid : Attempt → Ticket → ℕ → Db → Db
unfolding op_stamp_claim_fields
stamp_pid a t pid db =
    if a.writable
    then elim (op_stamp_claim_fields t.slug t.token none
        (ClaimField.pid (some pid)
          ∷ ClaimField.pgid (some pid)
          ∷ ClaimField.log_path (some a.log_path)
          ∷ [])
        none [] db) [ ok (first, db') ↦ db' | err e ↦ db ]
    else db

unfoldable pub on_spawn : Attempt → (Db → Db) → Ticket → Option Pause → Db → Result Dispatched
unfolding release_with_failure pause_and_halt on_fast_fail stamp_pid
on_spawn a between t pause db = elim a.spawn [
  | not_found reason ↦ elim t.worktree [
    | some wt ↦ ok (pause_for_missing_worktree a between t wt pause db)
    | none ↦ ok (release_with_failure a between t reason pause db)
  ]
  | exited reason ↦ ok (on_fast_fail a between t reason pause db)
  | spawned pid ↦
      ok (record { is_spawned = true; db = stamp_pid a t pid db; pause = pause; pings = [] })
  | raised e ↦ err e
]

-- The start in the worktree, or in the project's root where the plan has none.
unfoldable pub in_place : Attempt → (Db → Db) → Ticket → Option Pause → Db → Result Dispatched
unfolding on_spawn
in_place a between t pause db = elim t.worktree [
  | none ↦ on_spawn a between t pause db
  | some wt ↦
      if a.worktree_alive
      then on_spawn a between t pause db
      else ok (pause_for_missing_worktree a between t wt pause db)
]

-- For a tick that asked for a dispatch.
unfoldable pub dispatch_for_tick :
    Attempt → (Db → Db) → Ticket → Option Pause → Db → Result Dispatched
unfolding release_with_failure in_place
dispatch_for_tick a between t pause db =
    if a.has_command
    then (if a.is_shell
        then elim a.setup_error [ some e ↦ err e | none ↦ in_place a between t pause db ]
        else err value_error)
    else ok (release_with_failure a between t "no dispatch.command in .orchestrator.json" pause db)
