-- ===== src/Quota.antt =====
-- end_of_line/quota.py: the project's dispatch pause, one row or none, and the gate in front of a
-- dispatch. `reset` is what `parse_reset` read out of the matched line (time zones are not
-- modelled); a pause with no `paused_until` is the stuck one.
pub mod Gate
use end_of_line.Shared.{
  ℕ, ◌+◌, ◌*◌, String, Option, none, some, List, [], ◌∷◌, Bool, true, false, if◌then◌else◌, ltb,
  leb, ◌==◌, string_eq,
}
use end_of_line.State
use end_of_line.State.{
  Event, Stamp, Value, text, null, second, utcnow, parse_iso, quota_death, quota_paused,
}

pub record QuotaMatch : Type 0 where
  pub signature : String
  pub line : String

pub record Pause : Type 0 where
  pub paused_until : Option Stamp
  pub signature : String
  pub line : String
  pub canary_plan : Option String
  pub canary_deadline : Option Stamp
  pub created_at : Stamp

abbrev pub pause_buffer : ℕ
pause_buffer = 120000000

abbrev pub canary_window : ℕ
canary_window = 180000000

abbrev pub iso_or_none : Option ℕ → Option Stamp
iso_or_none none = none
iso_or_none (some t) = some (utcnow t)

abbrev pub buffered : Option ℕ → Option ℕ
buffered none = none
buffered (some reset) = some (reset + pause_buffer)

-- INSERT OR REPLACE of the one row: the canary fields are cleared wholesale.
unfoldable pub record_quota_pause :
    QuotaMatch → Option ℕ → ℕ → Option Pause → Option ℕ × Option Pause
record_quota_pause found reset now old = (
  buffered reset,
  some (record {
    paused_until = iso_or_none (buffered reset);
    signature = found.signature;
    line = found.line;
    canary_plan = none;
    canary_deadline = none;
    created_at = utcnow now;
  }),
)

-- Returns what the row held.
unfoldable pub clear_pause : Option Pause → Option Pause × Option Pause
clear_pause row = (row, none)

pub data GateDetail : Type 0 where
  nothing quota_stuck quota_gate_busy : GateDetail
  quota_paused_until : Stamp → GateDetail
  quota_canary : String → GateDetail

pub record GateDecision : Type 0 where
  pub dispatch : Bool
  pub detail : GateDetail
  pub resumed : Bool

abbrev pub go : GateDecision
go = record { dispatch = true; detail = nothing; resumed = false }

abbrev pub hold : GateDetail → GateDecision
hold detail = record { dispatch = false; detail = detail; resumed = false }

abbrev pub resume : GateDecision
resume = record { dispatch = true; detail = nothing; resumed = true }

-- A decoded column: absent, an instant, or a text that no timestamp parser accepts.
pub data Decoded : Type 0 where
  absent unreadable : Decoded
  instant : ℕ → Decoded

abbrev pub decode : Option Stamp → Decoded
decode none = absent
decode (some ts) = elim (parse_iso ts) [ none ↦ unreadable | some t ↦ instant t ]

-- `now >= canary_deadline`, or a canary with no deadline at all.
abbrev pub deadline_past : ℕ → Decoded → Bool
deadline_past now (instant t) = leb t now
deadline_past now _ = true

abbrev pub with_canary : ℕ → String → Pause → Pause
with_canary now slug row = record row {
  canary_plan = some slug;
  canary_deadline = some (utcnow (now + canary_window));
}

-- The resume phase: the pause is over and the canary decides.
unfoldable pub decide_canary : String → ℕ → Pause → Decoded → GateDecision × Option Pause
decide_canary slug now row deadline = elim row.canary_plan [
  | none ↦ (go, some (with_canary now slug row))
  | some canary ↦
      if deadline_past now deadline
      then (resume, none)
      else if canary == slug
      then (go, some row)
      else (hold (quota_canary canary), some row)
]

-- The branches of `_decide_in_txn` once both columns are decoded; `shown` is the paused_until text.
abbrev pub decide_row : String → ℕ → Pause → Decoded → Decoded → GateDecision × Option Pause
decide_row slug now row unreadable deadline = (go, some row)
decide_row slug now row absent unreadable = (go, some row)
decide_row slug now row absent absent = (hold quota_stuck, some row)
decide_row slug now row absent (instant d) = (hold quota_stuck, some row)
decide_row slug now row (instant t) unreadable = (go, some row)
decide_row slug now row (instant t) absent =
    if ltb now t
    then (hold (quota_paused_until (utcnow t)), some row)
    else decide_canary slug now row absent
decide_row slug now row (instant t) (instant d) =
    if ltb now t
    then (hold (quota_paused_until (utcnow t)), some row)
    else decide_canary slug now row (instant d)

unfoldable pub decide_in_txn : String → ℕ → Option Pause → GateDecision × Option Pause
unfolding decide_canary
decide_in_txn slug now none = (go, none)
decide_in_txn slug now (some row) =
    decide_row slug now row (decode row.paused_until) (decode row.canary_deadline)

-- How the store answered the gate: in order, locked past the budget, or broken.
pub data Access : Type 0 where
  readable busy broken : Access

unfoldable pub gate_decision : Access → String → ℕ → Option Pause → GateDecision × Option Pause
unfolding decide_in_txn
gate_decision readable slug now pause = decide_in_txn slug now pause
gate_decision busy slug now pause = (hold quota_gate_busy, pause)
gate_decision broken slug now pause = (go, pause)

-- `_iso_or_none`, as a field of an event.
abbrev pub time_or_null : Option ℕ → Value
time_or_null none = null
time_or_null (some t) = State.time (utcnow t)

-- The two plan events of `record_quota_death`.
abbrev pub quota_death_events : ℕ → QuotaMatch → String → Option String → Option ℕ → List Event
quota_death_events now found phase_id token paused_until =
    record (State.event now quota_death) {
      phase = some phase_id;
      token = token;
      fields = ("signature", text found.signature) ∷ ("line", text found.line) ∷ [];
    }
    ∷ record (State.event now quota_paused) {
      fields =
          ("paused_until", time_or_null paused_until) ∷ ("signature", text found.signature) ∷ [];
    }
    ∷ []

pub record Death : Type 0 where
  pub paused_until : Option ℕ
  pub events : List Event
  pub pause : Option Pause

unfoldable pub record_quota_death :
    ℕ → QuotaMatch → Option ℕ → String → Option String → Option Pause → Death
unfolding record_quota_pause
record_quota_death now found reset phase_id token old =
    let (paused_until, row) = record_quota_pause found reset now old in
    record {
      paused_until = paused_until;
      events = quota_death_events now found phase_id token paused_until;
      pause = row;
    }
