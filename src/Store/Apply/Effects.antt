-- ===== src/Store/Apply/Effects.antt =====
-- The tick's write: all of it under the preconditions it declared, or none of it.
use end_of_line.Shared.{
  ℕ, suc, ◌+◌, String, Option, none, some, List, [], ◌∷◌, ◌++◌, ◌≡◌, refl, arith, ap, ◌∙◌,
  Option-cases, Result-cases, inl, inr, ok, lookup, length, nat_eq, string_eq, if◌then◌else◌,
}
use end_of_line.State.{Claim, Event, option_text_eq}
use end_of_line.State.Claims.{
  fresh_claim, started_event, started_count, append_event, get_or_default,
}
use end_of_line.State.Claims.Lifecycle.{claim_phase-free}
use end_of_line.Store.{Row, Db, stamp_events}
use end_of_line.Store.Fields.{ClaimField, write_fields}
use end_of_line.Store.Transaction.{insert_events}
use end_of_line.Store.Transaction.Isolation.{plan_txn-ok}
use end_of_line.Store.Conditions.{assert_preconditions}
use end_of_line.Store.Apply.{
  apply_claim_updates, update_blockers, apply_blocker_updates, apply_release, apply_status, scratch,
  claim_in_txn, apply_body, apply_tick_delta, claim_if_asked, with_attempts,
}
use end_of_line.Supervisor.Delta.{Delta, BlockerUpdate}

-- The claim that the apply mints for a delta.
abbrev pub minted_claim : ℕ → String → String → Delta → Claim
minted_claim now minted phase delta =
    let fresh = fresh_claim now minted phase (get_or_default 0 delta.lease_minutes) 1 in
    record fresh { attempts = get_or_default 1 delta.claim_attempts }

abbrev pub claimed_row : ℕ → String → String → Delta → Row → ℕ → Row
claimed_row now minted phase delta row seq = record row {
  plan = record row.plan {
    current_claim = some (minted_claim now minted phase delta);
    events = row.plan.events ++ stamp_events seq (started_event now minted phase ∷ []);
  };
}

attempts-minted :
    (now : ℕ) (minted phase : String) (delta : Delta)
    → with_attempts delta.claim_attempts
        (some (fresh_claim now minted phase (get_or_default 0 delta.lease_minutes) 1))
      ≡ some (minted_claim now minted phase delta)
attempts-minted now minted phase delta = ground arith

pub claim_in_txn-ok :
    (now : ℕ) (minted phase : String) (delta : Delta) (row : Row) (seq : ℕ)
    → claim_in_txn now minted phase delta row seq
      ≡ ok (minted, claimed_row now minted phase delta row seq, suc seq)
unfolding claim_in_txn insert_events append_event started_count
claim_in_txn-ok now minted phase delta row seq =
    rw
      (claim_phase-free now minted phase (get_or_default 0 delta.lease_minutes) (scratch row.plan)
        refl)
      (rw (attempts-minted now minted phase delta) (ground arith))

-- What a delta does to a plan's row once its two compare-and-sets have passed.
abbrev pub settled : Delta → Row → Row
settled delta row = apply_status delta.status (apply_release delta.release_claim row)

-- The body in one equation: the preconditions, the two compare-and-sets, and then nothing fails.
pub apply_body-steps :
    (now : ℕ) (minted : String) (delta : Delta) (row row' : Row) (seq seq' : ℕ)
    (token : Option String)
    → apply_body now minted delta row seq ≡ ok (token, row', seq')
    → (assert_preconditions delta.pre row.plan ≡ ok tt)
      × ((row1 : Row) × ((row2 : Row) × ((apply_claim_updates delta.claim_token delta.claim_updates
                  row
                ≡ ok row1)
              × (apply_blocker_updates delta.blocker_updates row1 ≡ ok row2)
              × (claim_if_asked now minted delta delta.claim_phase
                    (insert_events delta.events (settled delta row2) seq)
                  ≡ ok (token, row', seq')))))
unfolding apply_body
apply_body-steps now minted delta row row' seq seq' token h =
    elim (Result-cases (assert_preconditions delta.pre row.plan)) [
      | inr (e, x) ↦ absurd (ground arith)
      | inl (u, x) ↦
          elim (Result-cases (apply_claim_updates delta.claim_token delta.claim_updates row)) [
            | inr (e, y) ↦ absurd (ground arith)
            | inl (row1, y) ↦
                elim (Result-cases (apply_blocker_updates delta.blocker_updates row1)) [
                  | inr (e, z) ↦ absurd (ground arith)
                  | inl (row2, z) ↦ (x, (row1, (row2, (y, z, ground (arith, x, y, z, h)))))
                ]
          ]
    ]

-- The claim after the tick's field updates.
abbrev pub updated_claim : List ClaimField → Option Claim → Option Claim
updated_claim fs none = none
updated_claim fs (some c) = some (write_fields fs c)

-- The two compare-and-sets touch neither the log nor the status, and of the claim its fields.
abbrev Alike : List ClaimField → Row → Row → Type 0
Alike fs r s =
    (s.plan.events ≡ r.plan.events)
    × (s.plan.status ≡ r.plan.status)
    × (s.plan.current_claim ≡ updated_claim fs r.plan.current_claim)

apply_claim_updates-Alike :
    (token : Option String) (fs : List ClaimField) (r s : Row)
    → apply_claim_updates token fs r ≡ ok s
    → Alike fs r s
unfolding apply_claim_updates write_fields
apply_claim_updates-Alike token [] r s h = ground arith
apply_claim_updates-Alike token (f ∷ fs) r s h = elim (Option-cases r.plan.current_claim) [
  | inl n ↦ absurd (ground arith)
  | inr (c, y) ↦ ground arith
]

apply_blocker_updates-Alike :
    (us : List (ℕ × BlockerUpdate)) (r s : Row)
    → apply_blocker_updates us r ≡ ok s
    → (s.plan.events ≡ r.plan.events)
      × (s.plan.status ≡ r.plan.status)
      × (s.plan.current_claim ≡ r.plan.current_claim)
unfolding apply_blocker_updates
apply_blocker_updates-Alike [] r s h = ground arith
apply_blocker_updates-Alike ((n, u) ∷ us) r s h =
    elim (Option-cases (update_blockers n u r.plan.blockers)) [
      | inl y ↦ absurd (ground arith)
      | inr (bs, y) ↦ ground (
        arith,
        apply_blocker_updates-Alike us (record r { plan = record r.plan { blockers = bs } }) s,
      )
    ]

-- The claim that a delta leaves: the one it mints, or none, or the old one with its new fields.
abbrev pub claim_after : ℕ → String → Delta → Option String → Option Claim → Option Claim
claim_after now minted delta (some p) claim = some (minted_claim now minted p delta)
claim_after now minted delta none claim =
    if delta.release_claim then none else updated_claim delta.claim_updates claim

-- The events that it appends: its own, and the start that names the minted token.
abbrev pub events_after : ℕ → String → Delta → Option String → ℕ → List Event → List Event
events_after now minted delta none seq events = events ++ stamp_events seq delta.events
events_after now minted delta (some p) seq events =
    (events ++ stamp_events seq delta.events)
    ++ stamp_events (seq + length delta.events) (started_event now minted p ∷ [])

abbrev pub token_after : String → Option String → Option String
token_after minted none = none
token_after minted (some p) = some minted

-- What the write leaves of the row, by what the delta asks for.
abbrev pub Written : ℕ → String → Delta → ℕ → Row → Row → Option String → Type 0
Written now minted delta seq row row' token =
    (row'.plan.current_claim
      ≡ claim_after now minted delta delta.claim_phase row.plan.current_claim)
    × (row'.plan.events ≡ events_after now minted delta delta.claim_phase seq row.plan.events)
    × (row'.plan.status ≡ get_or_default row.plan.status delta.status)
    × (token ≡ token_after minted delta.claim_phase)

settled-status :
    (delta : Delta) (row row2 : Row)
    → Alike delta.claim_updates row row2
    → ((settled delta row2).plan.status ≡ get_or_default row.plan.status delta.status)
      × ((settled delta row2).plan.events ≡ row.plan.events)
      × ((settled delta row2).plan.current_claim ≡ (
          if delta.release_claim
          then none
          else updated_claim delta.claim_updates row.plan.current_claim))
settled-status delta row row2 same = elim (Option-cases delta.status) [
  | inl n ↦ ground (arith, n, same)
  | inr (s, y) ↦ ground (arith, y, same)
]

pub asked-claimed_row :
    (now : ℕ) (minted p : String) (delta : Delta) (row row' : Row) (seq seq' : ℕ)
    (token : Option String)
    → claim_if_asked now minted delta (some p) (row, seq) ≡ ok (token, row', seq')
    → (token ≡ some minted) × (row' ≡ claimed_row now minted p delta row seq)
asked-claimed_row now minted p delta row row' seq seq' token h =
    ground (arith, h, claim_in_txn-ok now minted p delta row seq)

-- The row behind the event insert.
abbrev logged : Delta → ℕ → Row → Row
logged delta seq row2 = (insert_events delta.events (settled delta row2) seq).0

unasked-row :
    (now : ℕ) (minted : String) (delta : Delta) (row row' : Row) (seq seq' : ℕ)
    (token : Option String)
    → claim_if_asked now minted delta none (row, seq) ≡ ok (token, row', seq')
    → (token ≡ none) × (row' ≡ row)
unasked-row now minted delta row row' seq seq' token h = ground arith

logged-events :
    (delta : Delta) (seq : ℕ) (row row2 : Row)
    → Alike delta.claim_updates row row2
    → (logged delta seq row2).plan.events ≡ row.plan.events ++ stamp_events seq delta.events
unfolding insert_events
logged-events delta seq row row2 same =
    ap (λ es. es ++ stamp_events seq delta.events) (settled-status delta row row2 same).1

settled-Written :
    (now : ℕ) (minted : String) (delta : Delta) (phase : Option String) (row row2 row' : Row)
    (seq seq' : ℕ) (token : Option String)
    → Alike delta.claim_updates row row2
    → claim_if_asked now minted delta phase (insert_events delta.events (settled delta row2) seq)
      ≡ ok (token, row', seq')
    → (row'.plan.current_claim ≡ claim_after now minted delta phase row.plan.current_claim)
      × (row'.plan.events ≡ events_after now minted delta phase seq row.plan.events)
      × (row'.plan.status ≡ get_or_default row.plan.status delta.status)
      × (token ≡ token_after minted phase)
unfolding insert_events
settled-Written now minted delta none row row2 row' seq seq' token same h =
    let st = settled-status delta row row2 same in
    let c =
      unasked-row now minted delta (logged delta seq row2) row' (seq + length delta.events) seq'
        token h in
    (
      ap (λ x. x.plan.current_claim) c.1 ∙ st.2,
      ap (λ x. x.plan.events) c.1 ∙ logged-events delta seq row row2 same,
      ap (λ x. x.plan.status) c.1 ∙ st.0,
      c.0,
    )
settled-Written now minted delta (some p) row row2 row' seq seq' token same h =
    let st = settled-status delta row row2 same in
    let c =
      asked-claimed_row now minted p delta (logged delta seq row2) row' (seq + length delta.events)
        seq' token h in
    let started = stamp_events (seq + length delta.events) (started_event now minted p ∷ []) in
    (
      ap (λ x. x.plan.current_claim) c.1,
      ap (λ x. x.plan.events) c.1
          ∙ ap (λ es. es ++ started) (logged-events delta seq row row2 same),
      ap (λ x. x.plan.status) c.1 ∙ st.0,
      c.0,
    )

-- The conclusion of `apply_tick_delta-ok`.
abbrev pub IsApplied : ℕ → String → String → Delta → Db → Db → Option String → Type 0
IsApplied now minted slug delta db db' token =
    (row : Row) × ((row' : Row) × ((lookup slug db.plans ≡ some row)
        × (lookup slug db'.plans ≡ some row')
        × (assert_preconditions delta.pre row.plan ≡ ok tt)
        × Written now minted delta db.event_seq row row' token))

-- A tick's write that succeeds found its preconditions on the rows that it wrote to, in the same
-- transaction. It appended the tick's events behind the log, set the status it decided, released
-- the claim it gave up, and, for a dispatch, minted the claim of that phase together with the one
-- `phase_started` that names its token.
pub apply_tick_delta-ok :
    (now : ℕ) (minted slug : String) (delta : Delta) (db db' : Db) (token : Option String)
    → apply_tick_delta now minted slug delta db ≡ ok (token, db')
    → IsApplied now minted slug delta db db' token
unfolding apply_tick_delta
apply_tick_delta-ok now minted slug delta db db' token h =
    let (row, row', found, ran, left) =
      plan_txn-ok slug (apply_body now minted delta) db db' token h in
    let (pre, (row1, (row2, (c1, c2, c3)))) =
      apply_body-steps now minted delta (record row { version = suc row.version }) row' db.event_seq
        db'.event_seq token ran in
    (
      row,
      (
        row',
        (
          found,
          left,
          pre,
          settled-Written now minted delta delta.claim_phase
              (record row { version = suc row.version }) row2 row' db.event_seq db'.event_seq token
              (ground (
                arith,
                apply_claim_updates-Alike delta.claim_token delta.claim_updates
                    (record row { version = suc row.version }) row1 c1,
                apply_blocker_updates-Alike delta.blocker_updates row1 row2 c2,
              ))
              c3,
        ),
      ),
    )
