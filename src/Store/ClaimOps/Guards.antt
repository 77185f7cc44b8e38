-- ===== src/Store/ClaimOps/Guards.antt =====
-- Who may write to a claim, what a lease extension promises, and what a heartbeat does to a tick.
use end_of_line.Shared.{
  ℕ, ◌+◌, ◌*◌, ◌/◌, ◌≤◌, max, String, Option, some, List, ◌≡◌, arith, ap, ◌∙◌, Bool-cases,
  Option-cases, inl, inr, Result, ok, err, claim_mismatch, Mismatch, no_active_claim,
  token_mismatch, ◌==◌, string_eq,
}
use end_of_line.State.{Claim, Event, Stamp, at, option_text_eq, second, minute, utcnow}
use end_of_line.State.Claims.{on_claim}
use end_of_line.Store.{Row}
use end_of_line.Store.Fields.{FieldName, ClaimField}
use end_of_line.Store.Transaction.{match_claim, release_in_txn, insert_events, finish}
use end_of_line.Store.Conditions.{Conditions, assert_preconditions}
use end_of_line.Store.Conditions.Cancels.{NotJudged, beaten, assert_preconditions-heartbeat}
use end_of_line.Store.ClaimOps.{
  heartbeat_body, activity_body, Activity, stamp_body, check_token, append_body, release_body,
  live_claim, attest_body, extended_expiry, extend_body,
}

-- The plan's claim is there, and it is under that token.
abbrev pub HeldBy : String → Row → Type 0
HeldBy token row = (c : Claim) × ((row.plan.current_claim ≡ some c) × (c.claimed_by ≡ some token))

pub match_claim-HeldBy :
    (token : String) (phase : Option String) (row : Row) (c : Claim)
    → match_claim row.plan.current_claim token phase ≡ ok c
    → HeldBy token row
unfolding match_claim
match_claim-HeldBy token phase row c h = elim (Option-cases row.plan.current_claim) [
  | inl n ↦ absurd (ground arith)
  | inr (d, y) ↦ (d, (y, ground (arith, y, h)))
]

-- A compare-and-set that failed, with one of its three messages.
abbrev pub IsMismatch {ℓ} : {A : Type ℓ} → Result A → Type ℓ
IsMismatch r = (m : Mismatch) × (r ≡ err (claim_mismatch m))

pub not_held :
    (token : String) (phase : Option String) (row : Row)
    → (HeldBy token row → ⊥)
    → IsMismatch (match_claim row.plan.current_claim token phase)
unfolding match_claim
not_held token phase row h = elim (Option-cases row.plan.current_claim) [
  | inl n ↦ (no_active_claim, ground (arith, n))
  | inr (c, y) ↦ elim (Bool-cases (c.claimed_by == some token)) [
    | inl same ↦ absurd (h (c, (y, ground (arith, same))))
    | inr other ↦ (token_mismatch, ground (arith, y, other))
  ]
]

-- The conclusion of `token_guards`.
abbrev pub IsGuarded :
    ℕ
    → String
    → String
    → String
    → String
    → Option String
    → Activity
    → List ClaimField
    → Option FieldName
    → List Event
    → Row
    → ℕ
    → Type 0
IsGuarded now token phase kind sha by action fields if_unset events row seq =
    IsMismatch (heartbeat_body now token phase row seq)
    × IsMismatch (activity_body now token phase action row seq)
    × IsMismatch (stamp_body token by fields if_unset events row seq)
    × IsMismatch (append_body events (some token) by row seq)
    × IsMismatch (attest_body now (some token) by kind sha events row seq)
    × IsMismatch (release_body (some token) (some phase) events row seq)

-- A write under a token that does not hold the plan's claim is refused as a mismatch, whatever it
-- is: heartbeats, activity stamps, claim fields, events, attestations, and the release by a worker
-- whose claim was taken from it.
pub token_guards :
    (now : ℕ) (token phase kind sha : String) (by : Option String) (action : Activity)
    (fields : List ClaimField) (if_unset : Option FieldName) (events : List Event) (row : Row)
    (seq : ℕ)
    → (HeldBy token row → ⊥)
    → IsGuarded now token phase kind sha by action fields if_unset events row seq
unfolding heartbeat_body activity_body stamp_body append_body check_token attest_body live_claim
    release_body release_in_txn
token_guards now token phase kind sha by action fields if_unset events row seq h =
    let (m, at_phase) = not_held token (some phase) row h in
    let (n, at_by) = not_held token by row h in
    (
      (m, ground (arith, at_phase)),
      (m, ground (arith, at_phase)),
      (n, ground (arith, at_by)),
      (n, ground (arith, at_by)),
      (n, ground (arith, at_by)),
      (m, ground (arith, at_phase)),
    )

expiry_bounds :
    (now s minutes : ℕ)
    → (s ≤ (max (s * second) now + minutes * minute) / second)
      × (now / second + minutes * 60 ≤ (max (s * second) now + minutes * minute) / second)
expiry_bounds now s minutes = (omega arith, omega arith)

extend_body-claim :
    (now : ℕ) (phase : String) (minutes : ℕ) (row row' : Row) (seq seq' : ℕ) (expires : Stamp)
    (c : Claim)
    → row.plan.current_claim ≡ some c
    → extend_body now phase minutes row seq ≡ ok (expires, row', seq')
    → (expires ≡ extended_expiry now c.lease_expires minutes)
      × (row'.plan.current_claim
          ≡ some (record c { lease_expires = some (extended_expiry now c.lease_expires minutes) }))
unfolding extend_body finish insert_events
extend_body-claim now phase minutes row row' seq seq' expires c h x = ground (arith, h, x)

-- The conclusion of `extend_body-never_shortens`.
abbrev pub IsExtended : ℕ → ℕ → ℕ → Row → Stamp → Type 0
IsExtended now minutes s row' expires =
    (e : ℕ) × ((expires ≡ at e)
      × (s ≤ e)
      × (now / second + minutes * 60 ≤ e)
      × ((d : Claim) × ((row'.plan.current_claim ≡ some d) × (d.lease_expires ≡ some (at e)))))

-- An extension never shortens a lease: the new expiry is at least the old one and at least that
-- many minutes from now, to the second.
pub extend_body-never_shortens :
    (now : ℕ) (phase : String) (minutes s : ℕ) (row row' : Row) (seq seq' : ℕ) (expires : Stamp)
    (c : Claim)
    → row.plan.current_claim ≡ some c
    → c.lease_expires ≡ some (at s)
    → extend_body now phase minutes row seq ≡ ok (expires, row', seq')
    → IsExtended now minutes s row' expires
unfolding extended_expiry
extend_body-never_shortens now phase minutes s row row' seq seq' expires c h l x =
    let (e1, e2) = extend_body-claim now phase minutes row row' seq seq' expires c h x in
    let same = ap (λ o. extended_expiry now o minutes) l in
    let b = expiry_bounds now s minutes in
    (
      (max (s * second) now + minutes * minute) / second,
      (
        e1 ∙ same,
        b.0,
        b.1,
        (
          record c { lease_expires = some (extended_expiry now c.lease_expires minutes) },
          (e2, ap some same),
        ),
      ),
    )

heartbeat-plan :
    (now : ℕ) (token phase : String) (row row' : Row) (seq seq' : ℕ) (ts : Stamp)
    → heartbeat_body now token phase row seq ≡ ok (ts, row', seq')
    → row'.plan ≡ on_claim (beaten (utcnow now)) row.plan
unfolding heartbeat_body match_claim
heartbeat-plan now token phase row row' seq seq' ts h = elim (Option-cases row.plan.current_claim) [
  | inl n ↦ absurd (ground (arith, n, h))
  | inr (c, y) ↦ ground (arith, y, h)
]

-- A heartbeat that lands between a tick's snapshot and its write cancels no decision but one
-- about the heartbeat itself: every other set of preconditions reads the same on the rows it left.
heartbeat-keeps_preconditions :
    (now : ℕ) (token phase : String) (row row' : Row) (seq seq' : ℕ) (ts : Stamp) (pre : Conditions)
    → heartbeat_body now token phase row seq ≡ ok (ts, row', seq')
    → NotJudged FieldName.last_heartbeat_at pre.expect_claim_fields
    → assert_preconditions pre row'.plan ≡ assert_preconditions pre row.plan
heartbeat-keeps_preconditions now token phase row row' seq seq' ts pre h n =
    ap (assert_preconditions pre) (heartbeat-plan now token phase row row' seq seq' ts h)
    ∙ assert_preconditions-heartbeat pre (utcnow now) row.plan n
