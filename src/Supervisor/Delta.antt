-- ===== src/Supervisor/Delta.antt =====
-- `TickDelta` of end_of_line/supervisor.py: everything that one tick decided to write, and the
-- working state that the detection steps edit beside it.
use end_of_line.Shared.{
  ℕ, String, Option, none, some, List, [], ◌∷◌, ◌++◌, Bool, true, false, ◌&&◌, not, lookup, nat_eq,
}
use end_of_line.State.{Claim, Event, Status, Stamp}
use end_of_line.Store.Fields.{FieldName, ClaimField, read_field}
use end_of_line.Store.Conditions.{Conditions, unchecked}

-- One column of a blocker update.
pub data BlockerUpdate : Type 0 where
  consumed : BlockerUpdate
  last_repinged_at : Stamp → BlockerUpdate

-- The host-database rows of the gap-fill emitters, by what they are rendered from.
pub data InboxEvent : Type 0 where
  stuck_blocker : ℕ → String → ℕ → InboxEvent
  stalled_claim : String → ℕ → InboxEvent
  tool_stuck : String → ℕ → ℕ → InboxEvent
  worker_idle : String → ℕ → InboxEvent

pub record Delta : Type 0 where
  pub events : List Event
  pub claim_updates : List ClaimField
  pub claim_token : Option String
  pub blocker_updates : List (ℕ × BlockerUpdate)
  pub release_claim : Bool
  pub status : Option Status
  pub claim_phase : Option String
  pub lease_minutes : Option ℕ
  pub claim_attempts : Option ℕ
  pub inbox_events : List InboxEvent
  pub observed : Conditions
  pub observed_claim : Option Claim
  pub pre : Conditions

abbrev pub empty_delta : Conditions → Option Claim → Delta
empty_delta observed claim = record {
  events = [];
  claim_updates = [];
  claim_token = none;
  blocker_updates = [];
  release_claim = false;
  status = none;
  claim_phase = none;
  lease_minutes = none;
  claim_attempts = none;
  inbox_events = [];
  observed = observed;
  observed_claim = claim;
  pre = unchecked;
}

abbrev is_nil {ℓ} : {A : Type ℓ} → List A → Bool
is_nil [] = true
is_nil (x ∷ xs) = false

abbrev is_none {ℓ} : {A : Type ℓ} → Option A → Bool
is_none none = true
is_none (some x) = false

-- A tick that decided to write nothing opens no transaction.
unfoldable pub is_empty : Delta → Bool
is_empty d =
    is_nil d.events
    && is_nil d.claim_updates
    && is_nil d.blocker_updates
    && not d.release_claim
    && is_none d.status
    && is_none d.claim_phase

-- The declarations move one observed fact across to the preconditions.
unfoldable pub require_claim : Delta → Delta
require_claim d = record d { pre = record d.pre { expect_claim = d.observed.expect_claim } }

unfoldable pub require_claim_field : FieldName → Delta → Delta
require_claim_field name d = elim d.observed_claim [
  | none ↦ d
  | some claim ↦ record d {
    pre = record d.pre {
      expect_claim_fields = d.pre.expect_claim_fields ++ read_field name claim ∷ [];
    };
  }
]

unfoldable pub require_event_log : Delta → Delta
require_event_log d = record d {
  pre = record d.pre { expect_max_event_id = d.observed.expect_max_event_id };
}

unfoldable pub require_blocker : ℕ → Delta → Delta
require_blocker n d = elim (lookup n d.observed.expect_blocker_state) [
  | none ↦ d
  | some state ↦ record d {
    pre = record d.pre { expect_blocker_state = d.pre.expect_blocker_state ++ (n, state) ∷ [] };
  }
]

unfoldable pub require_status : Delta → Delta
require_status d = record d { pre = record d.pre { expect_status = d.observed.expect_status } }
