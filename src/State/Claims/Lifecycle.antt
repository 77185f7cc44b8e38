-- ===== src/State/Claims/Lifecycle.antt =====
-- The claim functions of end_of_line/state.py and the callbacks' token check.
use end_of_line.Shared.{
  ℕ, suc, ◌+◌, ◌*◌, ◌/◌, ◌≤◌, ◌<◌, String, Option, none, some, List, [], ◌∷◌, ◌++◌, true, false,
  ◌≡◌, refl, arith, ◌↔◌, not, string_eq, ok, err, already_claimed,
}
use end_of_line.State.{
  Plan, Claim, Event, Status, minute, second, option_text_eq, utcnow, is_terminal,
}
use end_of_line.State.Claims.{
  release_if_expired, claim_phase, claim_free, assert_claim_match, record_heartbeat, lease_past,
  release_claim, terminalize, stalled_threshold_for_phase, started_count, fresh_claim, append_event,
  started_event, lease_expired_event, is_claim_stalled,
}

-- With no override the threshold lies between the floor and the ceiling, whatever the lease.
pub stalled_threshold_bounds :
    (plan : Plan) (phase_id : String)
    → plan.config.stalled_heartbeat_minutes ≡ none
    → (15 ≤ stalled_threshold_for_phase plan phase_id)
      × (stalled_threshold_for_phase plan phase_id ≤ 25)
unfolding stalled_threshold_for_phase
stalled_threshold_bounds plan phase_id h = ground arith

-- While a live claim stands, a second claim is refused.
pub claim_phase-refused :
    (now : ℕ) (minted phase_id : String) (lease : ℕ) (by : Option String) (plan : Plan) (c : Claim)
    → plan.current_claim ≡ some c
    → lease_past now c ≡ false
    → claim_phase now minted phase_id lease by plan ≡ err already_claimed
unfolding claim_phase release_if_expired claim_free
claim_phase-refused now minted phase_id lease by plan c h l = ground arith

pub started_count-append :
    (p : String) (xs : List Event) (e : Event)
    → started_count p (xs ++ e ∷ []) ≡ started_count p xs + started_count p (e ∷ [])
unfolding started_count
started_count-append p [] e = ground arith
started_count-append p (x ∷ xs) e = ground (arith, started_count-append p xs e)

started_count_self :
    (now : ℕ) (token p : String) → started_count p (started_event now token p ∷ []) ≡ 1
unfolding started_count
started_count_self now token p = ground arith

-- The conclusion of `claim_phase-ok`.
abbrev pub IsClaimed : ℕ → String → ℕ → Plan → Plan → String → Type 0
IsClaimed now phase_id lease plan plan' token =
    ((release_if_expired now plan).1.current_claim ≡ none)
    × (plan'.current_claim
        ≡ some (
            fresh_claim now token phase_id lease
              (started_count phase_id (release_if_expired now plan).1.events + 1)))
    × (started_count phase_id plan'.events
        ≡ suc (started_count phase_id (release_if_expired now plan).1.events))

-- A claim that succeeds found no live claim; the new claim is of that phase under the returned
-- token, and the log holds one more start of the phase.
pub claim_phase-ok :
    (now : ℕ) (minted phase_id : String) (lease : ℕ) (by : Option String) (plan plan' : Plan)
    (token : String)
    → claim_phase now minted phase_id lease by plan ≡ ok (token, plan')
    → IsClaimed now phase_id lease plan plan' token
unfolding claim_phase claim_free append_event
claim_phase-ok now minted phase_id lease by plan plan' token h = ground (
  arith,
  started_count-append phase_id (release_if_expired now plan).1.events
      (started_event now token phase_id),
  started_count_self now token phase_id,
)

-- An expiry reaches exactly the claims whose lease has passed: it clears them, with one event that
-- names phase and token, and leaves every other plan as it was.
pub release_if_expired_lem :
    (now : ℕ) (plan : Plan) (c : Claim)
    → plan.current_claim ≡ some c
    → (lease_past now c ≡ true → (release_if_expired now plan).1.current_claim ≡ none)
      × (lease_past now c ≡ true
          → (release_if_expired now plan).1.events ≡ plan.events ++ lease_expired_event now c ∷ [])
      × (lease_past now c ≡ false → release_if_expired now plan ≡ (false, plan))
unfolding release_if_expired
release_if_expired_lem now plan c h =
    ((λ l. ground arith), (λ l. ground arith), (λ l. ground arith))

-- A fresh claim is not past before its lease has run, to the second.
pub fresh_claim_live :
    (now later : ℕ) (token p : String) (lease n : ℕ)
    → later < (now + lease * minute) / second * second
    → lease_past later (fresh_claim now token p lease n) ≡ false
unfolding lease_past
fresh_claim_live now later token p lease n h = ground arith

-- A callback is let through exactly when its token and its phase are those of the live claim.
pub assert_claim_match_iff :
    (claim : Option Claim) (token phase : String)
    → (assert_claim_match claim token phase ≡ ok tt)
      ↔ ((c : Claim) × (claim ≡ some c) × (c.claimed_by ≡ some token) × (c.phase_id ≡ phase))
unfolding assert_claim_match
assert_claim_match_iff none token phase = ((λ h. cc), (λ (c, e, a, b). cc))
assert_claim_match_iff (some c) token phase =
    ((λ h. (c, refl, ground arith, ground arith)), (λ (d, e, a, b). ground arith))

-- A heartbeat writes one field of the claim and nothing else of the plan.
pub record_heartbeat_lem :
    (now : ℕ) (token phase : String) (plan plan' : Plan) (c : Claim)
    → plan.current_claim ≡ some c
    → record_heartbeat now token phase plan ≡ ok plan'
    → (plan'
        ≡ record plan { current_claim = some (record c { last_heartbeat_at = some (utcnow now) }) })
      × (c.claimed_by ≡ some token)
unfolding record_heartbeat
record_heartbeat_lem now token phase plan plan' c h e = ground arith

-- Right after a heartbeat a claim is not stalled, at any threshold of a minute or more.
pub is_claim_stalled-record_heartbeat :
    (now later : ℕ) (c : Claim) (threshold : ℕ)
    → later + second ≤ now + threshold * minute
    → is_claim_stalled (record c { last_heartbeat_at = some (utcnow now) }) threshold later ≡ false
unfolding is_claim_stalled
is_claim_stalled-record_heartbeat now later c threshold h = ground arith

-- The both-or-neither contract of a release.
pub release_claim_lem :
    (token phase : Option String) (plan plan' : Plan)
    → release_claim token phase plan ≡ ok plan'
    → (plan' ≡ record plan { current_claim = none })
      × ((t : String)
          → token ≡ some t
          → (p : String) × (phase ≡ some p) × (assert_claim_match plan.current_claim t p ≡ ok tt))
unfolding release_claim
release_claim_lem none none plan plan' h = (cc, λ t e. cc)
release_claim_lem none (some p) plan plan' h = cc
release_claim_lem (some t) none plan plan' h = cc
release_claim_lem (some t) (some p) plan plan' h = (ground arith, λ u e. (p, refl, ground arith))

-- Compare-and-set: the first call that finds the plan open moves it and logs one event; once the
-- plan is terminal, a second call changes nothing.
pub terminalize_twice :
    (s t : Status) (d e : Event) (plan : Plan)
    → is_terminal s ≡ true
    → (terminalize t e (terminalize s d plan).1 ≡ (false, (terminalize s d plan).1))
      × (is_terminal (terminalize s d plan).1.status ≡ true)
      × ((terminalize s d plan).0 ≡ not (is_terminal plan.status))
unfolding terminalize
terminalize_twice s t d e plan h = ground arith

-- Where no claim exists a claim always succeeds, under the token that was minted.
pub claim_phase-free :
    (now : ℕ) (minted phase_id : String) (lease : ℕ) (plan : Plan)
    → plan.current_claim ≡ none
    → claim_phase now minted phase_id lease none plan
      ≡ ok (
        minted,
        append_event (started_event now minted phase_id) (record plan {
          current_claim =
              some (fresh_claim now minted phase_id lease (started_count phase_id plan.events + 1));
        }),
      )
unfolding claim_phase claim_free release_if_expired
claim_phase-free now minted phase_id lease plan h = ground arith
