-- ===== src/Supervisor/Work.antt =====
-- The working state of one tick of end_of_line/supervisor.py: the snapshot that the detection steps
-- edit, the delta and the side notifications; and what the tick reads of the world.
use end_of_line.Shared.{
  ℕ, String, Option, none, some, List, [], ◌∷◌, ◌++◌, Bool, ◌==◌, nat_eq, if◌then◌else◌, Error,
}
use end_of_line.State.{Plan, Claim, Event, Blocker, Status}
use end_of_line.State.Claims.{append_event, on_claim}
use end_of_line.Store.Fields.{ClaimField, FieldName, write_fields, read_field}
use end_of_line.Store.Apply.{update_blocker}
use end_of_line.Supervisor.Delta.{Delta, BlockerUpdate, InboxEvent}
use end_of_line.Supervisor.Tree.{Proc}
use end_of_line.Quota.{QuotaMatch, Access}

-- A notification by its kind and by what its text is rendered from.
pub data Notice : Type 0 where
  stuck_blocker : ℕ → Notice
  stalled_claim : String → ℕ → Notice
  worker_idle : String → ℕ → ℕ → Notice
  quota_pause : String → Option ℕ → Notice
  quota_resumed : Notice

pub record Work : Type 0 where
  pub plan : Plan
  pub delta : Delta
  pub side_notifies : List Notice

-- The project's settings that the tick reads; thresholds are durations.
pub record Config : Type 0 where
  pub stuck_tool_threshold : ℕ
  pub stuck_tool_cpu_threshold : ℕ
  pub worker_idle_window : ℕ
  pub worker_idle_max_sample_gap : ℕ
  pub worker_idle_min_samples : ℕ
  pub worker_idle_cpu_delta_threshold : ℕ
  pub coolant_enabled : Bool

-- What one tick is told from outside the database: the clock, two `ps` snapshots, the liveness
-- probe, the log classifier, the parsed plan file, and how the store answers the quota gate.
pub record World : Type 0 where
  pub now : ℕ
  pub tool_procs : List Proc
  pub idle_procs : List Proc
  pub worker_alive : Claim → String → Bool
  pub classify_log_tail : Option String → Option QuotaMatch
  pub parse_reset : QuotaMatch → Option ℕ
  pub in_quiet_window : Bool
  pub phases : List String
  pub gate_access : Access
  pub minted : String
  pub store_error : Option Error

abbrev pub on_delta : (Delta → Delta) → Work → Work
on_delta f w = record w { delta = f w.delta }

-- `_delta_event`: on the delta and on the snapshot.
unfoldable pub delta_event : Event → Work → Work
unfolding append_event
delta_event evt w = record w {
  plan = append_event evt w.plan;
  delta = record w.delta { events = w.delta.events ++ evt ∷ [] };
}

unfoldable pub carry_events : List Event → Work → Work
carry_events evts w = record w {
  plan = record w.plan { events = w.plan.events ++ evts };
  delta = record w.delta { events = w.delta.events ++ evts };
}

-- `_stamp_claim`: the later entry of one field wins, as in the dictionary.
unfoldable pub stamp_claim : Claim → List ClaimField → Work → Work
unfolding write_fields
stamp_claim claim fields w = record w {
  plan = on_claim (write_fields fields) w.plan;
  delta = record w.delta {
    claim_token = claim.claimed_by;
    claim_updates = w.delta.claim_updates ++ fields;
  };
}

abbrev read_all : List FieldName → Claim → List ClaimField
read_all [] claim = []
read_all (n ∷ rest) claim = read_field n claim ∷ read_all rest claim

-- `_record_claim`: the claim was edited in place already.
unfoldable pub record_claim : Claim → List FieldName → Work → Work
record_claim claim names w = record w {
  plan = record w.plan { current_claim = some claim };
  delta = record w.delta {
    claim_token = claim.claimed_by;
    claim_updates = w.delta.claim_updates ++ read_all names claim;
  };
}

-- The loop that stops at the first blocker of that id.
unfoldable pub stamp_first : ℕ → BlockerUpdate → List Blocker → List Blocker
stamp_first n u [] = []
stamp_first n u (b ∷ rest) =
    let later = stamp_first n u rest in if b.id == n then update_blocker u b ∷ rest else b ∷ later

unfoldable pub stamp_blocker : ℕ → BlockerUpdate → Work → Work
unfolding stamp_first
stamp_blocker n u w = record w {
  plan = record w.plan { blockers = stamp_first n u w.plan.blockers };
  delta = record w.delta { blocker_updates = w.delta.blocker_updates ++ (n, u) ∷ [] };
}

abbrev pub notify : Notice → Work → Work
notify n w = record w { side_notifies = w.side_notifies ++ n ∷ [] }

abbrev pub to_inbox : InboxEvent → Work → Work
to_inbox e w = record w { delta = record w.delta { inbox_events = w.delta.inbox_events ++ e ∷ [] } }

unfoldable pub set_status : Status → Work → Work
set_status status w = record w {
  plan = record w.plan { status = status };
  delta = record w.delta { status = some status };
}

unfoldable pub release : Work → Work
release w = record w {
  plan = record w.plan { current_claim = none };
  delta = record w.delta { release_claim = Bool.true };
}
