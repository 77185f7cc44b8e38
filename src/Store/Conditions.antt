-- ===== src/Store/Conditions.antt =====
-- `TickPreconditions` and `_assert_preconditions` of end_of_line/plan_store.py: the facts that a
-- tick's decision rested on, and their re-assertion inside the write transaction.
pub mod Cancels
use end_of_line.Shared.{
  ℕ, String, Option, none, some, List, [], ◌∷◌, ◌++◌, Bool, true, false, ◌&&◌, if◌then◌else◌, ◌==◌,
  nat_eq, string_eq, Eq, String-discrete, Result, ok, err, tick_conflict, lookup, all,
}
use end_of_line.State.{Plan, Claim, Blocker, Status, status_eq}
use end_of_line.State.Blockers.{is_unanswered}
use end_of_line.Store.{max_event_id}
use end_of_line.Store.Fields.{FieldName, ClaimField, read_field, field_holds}

-- `(claimed_by, phase_id)`
abbrev pub Identity : Type 0
Identity = Option String × String

unfoldable pub Holder-discrete : Discrete (Option Identity)
Holder-discrete = hlevel String-discrete

instance abbrev pub holder_eq : Eq (Option Identity)
holder_eq = record { dec = Holder-discrete }

unfoldable pub BlockerState-discrete : Discrete (Option (Bool × Bool))
BlockerState-discrete = hlevel

instance abbrev pub blocker_state_eq : Eq (Option (Bool × Bool))
blocker_state_eq = record { dec = BlockerState-discrete }

-- `none` in front is UNCHECKED; in `expect_claim` the inner `none` asserts that no claim exists.
pub record Conditions : Type 0 where
  pub expect_claim : Option (Option Identity)
  pub expect_max_event_id : Option ℕ
  pub expect_claim_fields : List ClaimField
  pub expect_blocker_state : List (ℕ × (Bool × Bool))
  pub expect_status : Option Status

abbrev pub unchecked : Conditions
unchecked = record {
  expect_claim = none;
  expect_max_event_id = none;
  expect_claim_fields = [];
  expect_blocker_state = [];
  expect_status = none;
}

abbrev pub holder : Option Claim → Option Identity
holder none = none
holder (some c) = some (c.claimed_by, c.phase_id)

-- `(answer is None, bool(consumed))` of the blocker row of that id.
abbrev pub blocker_state : ℕ → List Blocker → Option (Bool × Bool)
blocker_state n [] = none
blocker_state n (b ∷ rest) =
    let later = blocker_state n rest in
    if b.id == n then some (is_unanswered b, b.consumed) else later

unfoldable pub claim_as_expected : Option (Option Identity) → Plan → Bool
claim_as_expected none plan = true
claim_as_expected (some want) plan = holder plan.current_claim == want

abbrev all_hold : List ClaimField → Claim → Bool
all_hold [] claim = true
all_hold (f ∷ rest) claim = field_holds f claim && all_hold rest claim

-- With no field judged nothing is read; else a claim that is gone is a conflict.
unfoldable pub fields_as_expected : List ClaimField → Plan → Bool
fields_as_expected [] plan = true
fields_as_expected (f ∷ rest) plan = elim plan.current_claim [
  | none ↦ false
  | some claim ↦ all_hold (f ∷ rest) claim
]

unfoldable pub events_as_expected : Option ℕ → Plan → Bool
events_as_expected none plan = true
events_as_expected (some top) plan = max_event_id plan.events == top

unfoldable pub blockers_as_expected : List (ℕ × (Bool × Bool)) → Plan → Bool
blockers_as_expected [] plan = true
blockers_as_expected ((n, expected) ∷ rest) plan =
    blocker_state n plan.blockers == some expected && blockers_as_expected rest plan

unfoldable pub status_as_expected : Option Status → Plan → Bool
status_as_expected none plan = true
status_as_expected (some status) plan = plan.status == status

unfoldable pub assert_preconditions : Conditions → Plan → Result (Unit {0})
assert_preconditions pre plan =
    if claim_as_expected pre.expect_claim plan
      && fields_as_expected pre.expect_claim_fields plan
      && events_as_expected pre.expect_max_event_id plan
      && blockers_as_expected pre.expect_blocker_state plan
      && status_as_expected pre.expect_status plan
    then ok tt
    else err tick_conflict

abbrev pub observed_blockers : List Blocker → List (ℕ × (Bool × Bool))
observed_blockers [] = []
observed_blockers (b ∷ rest) = (b.id, (is_unanswered b, b.consumed)) ∷ observed_blockers rest

-- `snapshot_with_preconditions`: the observed values a decision may copy across. A claim field's
-- observed value is read from the snapshot's claim when it is required.
unfoldable pub observed_conditions : Plan → Conditions
observed_conditions plan = record {
  expect_claim = some (holder plan.current_claim);
  expect_max_event_id = some (max_event_id plan.events);
  expect_claim_fields = [];
  expect_blocker_state = observed_blockers plan.blockers;
  expect_status = some plan.status;
}
