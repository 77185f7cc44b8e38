-- ===== src/Store/Conditions/Cancels.antt =====
-- Which writes of other processes cancel a tick's decision, and which do not.
use end_of_line.Shared.{
  ℕ, String, Option, none, some, List, [], ◌∷◌, ◌++◌, Bool, true, false, ◌≡◌, ◌≢◌, ◌↔◌, ◌&&◌, refl,
  arith, ap, Option-cases, inl, inr, ok, ◌==◌,
}
use end_of_line.State.{Plan, Claim, Stamp, Status, status_eq}
use end_of_line.State.Claims.{on_claim}
use end_of_line.Store.Fields.{FieldName, ClaimField, read_field, field_name, field_holds, field_eq}
use end_of_line.Store.Conditions.{
  Conditions, holder, claim_as_expected, fields_as_expected, events_as_expected,
  blockers_as_expected, status_as_expected, assert_preconditions, blocker_state, holder_eq,
  blocker_state_eq, all_hold,
}

-- The names of the fields that a decision judged do not include this one.
abbrev pub NotJudged : FieldName → List ClaimField → Type 0
NotJudged n [] = Unit
NotJudged n (f ∷ rest) = (field_name f ≢ n) × NotJudged n rest

-- `claim` after a heartbeat at that instant.
abbrev pub beaten : Stamp → Claim → Claim
beaten ts claim = record claim { last_heartbeat_at = some ts }

read-beaten :
    (n : FieldName) (ts : Stamp) (c : Claim)
    → n ≢ FieldName.last_heartbeat_at
    → read_field n (beaten ts c) ≡ read_field n c
unfolding read_field
read-beaten n ts c h = ground arith

all_hold-beaten :
    (fields : List ClaimField) (ts : Stamp) (c : Claim)
    → NotJudged FieldName.last_heartbeat_at fields
    → all_hold fields (beaten ts c) ≡ all_hold fields c
unfolding field_holds
all_hold-beaten [] ts c h = refl
all_hold-beaten (f ∷ rest) ts c (n, h) =
    rw (read-beaten (field_name f) ts c n) (rw (all_hold-beaten rest ts c h) refl)

fields-beaten :
    (fields : List ClaimField) (ts : Stamp) (plan : Plan)
    → NotJudged FieldName.last_heartbeat_at fields
    → fields_as_expected fields (on_claim (beaten ts) plan) ≡ fields_as_expected fields plan
unfolding fields_as_expected
fields-beaten [] ts plan h = refl
fields-beaten (f ∷ rest) ts plan h = elim (Option-cases plan.current_claim) [
  | inl n ↦ ground arith
  | inr (c, y) ↦ ground (arith, all_hold-beaten (f ∷ rest) ts c h)
]

holder-beaten :
    (ts : Stamp) (plan : Plan)
    → holder (on_claim (beaten ts) plan).current_claim ≡ holder plan.current_claim
holder-beaten ts plan = elim (Option-cases plan.current_claim) [
  | inl n ↦ ground arith
  | inr (c, y) ↦ ground arith
]

claim-beaten :
    (want : Option (Option (Option String × String))) (ts : Stamp) (plan : Plan)
    → claim_as_expected want (on_claim (beaten ts) plan) ≡ claim_as_expected want plan
unfolding claim_as_expected
claim-beaten none ts plan = refl
claim-beaten (some want) ts plan = ap (λ h. h == want) (holder-beaten ts plan)

events-beaten :
    (top : Option ℕ) (ts : Stamp) (plan : Plan)
    → events_as_expected top (on_claim (beaten ts) plan) ≡ events_as_expected top plan
unfolding events_as_expected
events-beaten none ts plan = refl
events-beaten (some n) ts plan = refl

blockers-beaten :
    (states : List (ℕ × (Bool × Bool))) (ts : Stamp) (plan : Plan)
    → blockers_as_expected states (on_claim (beaten ts) plan) ≡ blockers_as_expected states plan
unfolding blockers_as_expected
blockers-beaten [] ts plan = refl
blockers-beaten ((n, s) ∷ rest) ts plan =
    ap (λ b. blocker_state n plan.blockers == some s && b) (blockers-beaten rest ts plan)

status-beaten :
    (want : Option Status) (ts : Stamp) (plan : Plan)
    → status_as_expected want (on_claim (beaten ts) plan) ≡ status_as_expected want plan
unfolding status_as_expected
status-beaten none ts plan = refl
status-beaten (some s) ts plan = refl

-- A heartbeat between a tick's snapshot and its write leaves every precondition as it was, unless
-- the tick's decision was about the heartbeat.
pub assert_preconditions-heartbeat :
    (pre : Conditions) (ts : Stamp) (plan : Plan)
    → NotJudged FieldName.last_heartbeat_at pre.expect_claim_fields
    → assert_preconditions pre (on_claim (beaten ts) plan) ≡ assert_preconditions pre plan
unfolding assert_preconditions
assert_preconditions-heartbeat pre ts plan h = rw (claim-beaten pre.expect_claim ts plan) (
    rw (fields-beaten pre.expect_claim_fields ts plan h) (
      rw (events-beaten pre.expect_max_event_id ts plan) (
        rw (blockers-beaten pre.expect_blocker_state ts plan)
          (rw (status-beaten pre.expect_status ts plan) refl))))

-- The preconditions hold exactly when each of the five kinds does.
pub assert_preconditions_iff :
    (pre : Conditions) (plan : Plan)
    → (assert_preconditions pre plan ≡ ok tt)
      ↔ (claim_as_expected pre.expect_claim plan ≡ true)
        × (fields_as_expected pre.expect_claim_fields plan ≡ true)
        × (events_as_expected pre.expect_max_event_id plan ≡ true)
        × (blockers_as_expected pre.expect_blocker_state plan ≡ true)
        × (status_as_expected pre.expect_status plan ≡ true)
unfolding assert_preconditions
assert_preconditions_iff pre plan = ground arith

judged_holds :
    (f : ClaimField) (before after : List ClaimField) (claim : Claim)
    → all_hold (before ++ f ∷ after) claim ≡ true
    → field_holds f claim ≡ true
judged_holds f [] after claim h = ground arith
judged_holds f (g ∷ before) after claim h = judged_holds f before after claim (ground arith)

fields-no_claim :
    (f : ClaimField) (before after : List ClaimField) (plan : Plan)
    → plan.current_claim ≡ none
    → fields_as_expected (before ++ f ∷ after) plan ≡ false
unfolding fields_as_expected
fields-no_claim f [] after plan h = ground arith
fields-no_claim f (g ∷ before) after plan h = ground arith

-- Where the preconditions hold, each field that was judged has the value that was observed: a
-- write that changed one of them in between cancels the tick.
pub fields_as_expected-judged :
    (f : ClaimField) (before after : List ClaimField) (plan : Plan)
    → fields_as_expected (before ++ f ∷ after) plan ≡ true
    → (claim : Claim) × ((plan.current_claim ≡ some claim) × (read_field (field_name f) claim ≡ f))
unfolding fields_as_expected field_holds
fields_as_expected-judged f before after plan e = elim (Option-cases plan.current_claim) [
  | inl n ↦ absurd (ground (arith, fields-no_claim f before after plan n, e))
  | inr (claim, y) ↦ (claim, (y, ground (arith, judged_holds f before after claim)))
]
