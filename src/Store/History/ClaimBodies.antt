-- ===== src/Store/History/ClaimBodies.antt =====
-- Every operation of end_of_line/plan_store.py that succeeds extends the history of its plan.
use end_of_line.Shared.{
  ℕ, String, Option, some, List, [], ◌∷◌, true, ◌≡◌, refl, ok, arith, inl, inr, Result-cases,
  Option-cases, Bool-cases, string_eq, nat_eq, ◌==◌,
}
use end_of_line.State.{Event, option_text_eq, utcnow}
use end_of_line.Store.{Row}
use end_of_line.Store.Fields.{FieldName, ClaimField, write_fields}
use end_of_line.Store.Transaction.{PlanTxn, finish, match_claim, set_claim, release_in_txn}
use end_of_line.Store.ClaimOps.{
  heartbeat_body, Activity, activity_body, stamp_body, guard_hit, check_token, append_body,
  release_body, live_claim, stamped, attest_body, extended_expiry, extended_event, extend_body,
}
use end_of_line.Store.History.{Extends, IsQuiet}
use end_of_line.Store.History.Growth.{
  Extends-quiet, Extends-transport, finish-Extends, IsQuiet-refl, release_in_txn-IsQuiet,
}

-- Where the operation succeeds, it extends the history.
abbrev pub Keeps : {A : Type 0} → PlanTxn A → Type 0
Keeps {A} body =
    (row row' : Row) (seq seq' : ℕ) (a : A)
    → body row seq ≡ ok (a, row', seq')
    → Extends row seq row' seq'

-- An append behind a row that differs from the old one by what Extends does not speak of.
pub finish-quiet :
    {A : Type 0} (a b : A) (before row after : Row) (seq seq' : ℕ) (events : List Event)
    → IsQuiet before row
    → finish a events row seq ≡ ok (b, after, seq')
    → Extends before seq after seq'
finish-quiet a b before row after seq seq' events q h =
    finish-Extends a b before row after seq seq' events q.logged (inl q.blockers) (inl q.tasks) h

pub finish-Keeps : {A : Type 0} (a : A) (events : List Event) → Keeps (finish a events)
finish-Keeps a events row row' seq seq' b h =
    finish-quiet a b row row row' seq seq' events (IsQuiet-refl row) h

pub heartbeat_body-Keeps : (now : ℕ) (token phase : String) → Keeps (heartbeat_body now token phase)
unfolding heartbeat_body
heartbeat_body-Keeps now token phase row row' seq seq' a h =
    elim (Result-cases (match_claim row.plan.current_claim token (some phase))) [
      | inl (c, held) ↦ Extends-transport (cc (held, h)) (cc (held, h)) (
          Extends-quiet row
            (set_claim (some (record c { last_heartbeat_at = some (utcnow now) })) row) seq
            (record { logged = refl; blockers = refl; tasks = refl }))
      | inr (e, failed) ↦ absurd (ground (arith, failed, h))
    ]

pub activity_body-Keeps :
    (now : ℕ) (token phase : String) (action : Activity)
    → Keeps (activity_body now token phase action)
unfolding activity_body
activity_body-Keeps now token phase action row row' seq seq' a h =
    elim (Result-cases (match_claim row.plan.current_claim token (some phase))) [
      | inl (c, held) ↦ Extends-transport (ground (arith, held, h)) (ground (arith, held, h)) (
          Extends-quiet row (set_claim row'.plan.current_claim row) seq
            (record { logged = refl; blockers = refl; tasks = refl }))
      | inr (e, failed) ↦ absurd (ground (arith, failed, h))
    ]

pub stamp_body-Keeps :
    (token : String) (phase : Option String) (fields : List ClaimField)
    (if_unset : Option FieldName) (events : List Event)
    → Keeps (stamp_body token phase fields if_unset events)
unfolding stamp_body
stamp_body-Keeps token phase fields if_unset events row row' seq seq' a h =
    elim (Result-cases (match_claim row.plan.current_claim token phase)) [
      | inr (e, failed) ↦ absurd (ground (arith, failed, h))
      | inl (c, held) ↦ elim (Bool-cases (guard_hit if_unset c)) [
        | inl hit ↦
            Extends-transport (ground (arith, held, hit, h)) (ground (arith, held, hit, h))
              (Extends-quiet row row seq (IsQuiet-refl row))
        | inr free ↦
            finish-quiet true a row (set_claim (some (write_fields fields c)) row) row' seq seq'
              events (record { logged = refl; blockers = refl; tasks = refl })
              (ground (arith, held, free, h))
      ]
    ]

pub append_body-Keeps :
    (events : List Event) (token phase : Option String) → Keeps (append_body events token phase)
unfolding append_body
append_body-Keeps events token phase row row' seq seq' a h =
    elim (Result-cases (check_token token phase row)) [
      | inl (t, held) ↦ finish-Keeps tt events row row' seq seq' a (ground (arith, held, h))
      | inr (e, failed) ↦ absurd (ground (arith, failed, h))
    ]

pub release_body-Keeps :
    (token phase : Option String) (events : List Event) → Keeps (release_body token phase events)
unfolding release_body
release_body-Keeps token phase events row row' seq seq' a h =
    elim (Result-cases (release_in_txn token phase row)) [
      | inl ((c, r), done) ↦
          finish-quiet c a row r row' seq seq' events
            (release_in_txn-IsQuiet token phase row r c done) (ground (arith, done, h))
      | inr (e, failed) ↦ absurd (ground (arith, failed, h))
    ]

pub attest_body-Keeps :
    (now : ℕ) (token phase : Option String) (kind sha : String) (events : List Event)
    → Keeps (attest_body now token phase kind sha events)
unfolding attest_body
attest_body-Keeps now token phase kind sha events row row' seq seq' a h =
    elim (Result-cases (live_claim token phase row)) [
      | inl (c, held) ↦
          finish-quiet tt a row (set_claim (some (stamped now kind sha c)) row) row' seq seq' events
            (record { logged = refl; blockers = refl; tasks = refl }) (ground (arith, held, h))
      | inr (e, failed) ↦ absurd (ground (arith, failed, h))
    ]

pub extend_body-Keeps :
    (now : ℕ) (phase : String) (minutes : ℕ) → Keeps (extend_body now phase minutes)
unfolding extend_body
extend_body-Keeps now phase minutes row row' seq seq' a h =
    elim (Option-cases row.plan.current_claim) [
      | inl gone ↦ absurd (ground (arith, gone, h))
      | inr (c, held) ↦ elim (Bool-cases (c.phase_id == phase)) [
        | inr other ↦ absurd (ground (arith, held, other, h))
        | inl same ↦
            let expires = extended_expiry now c.lease_expires minutes in
            finish-quiet expires a row
              (set_claim (some (record c { lease_expires = some expires })) row) row' seq seq'
              (extended_event now phase minutes expires ∷ [])
              (record { logged = refl; blockers = refl; tasks = refl })
              (ground (arith, held, same, h))
      ]
    ]
