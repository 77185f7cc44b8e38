-- ===== src/Store/History/Holder.antt =====
-- Who holds the claim before and after each operation of end_of_line/plan_store.py: none of them
-- mints a claim or gives one to another worker.
use end_of_line.Shared.{
  ℕ, String, Option, none, some, List, [], ◌∷◌, ◌≡◌, ◌⊎◌, refl, ◌∙◌, ok, arith, inl, inr,
  Result-cases, Option-cases, Bool-cases, string_eq, nat_eq,
}
use end_of_line.State.{Plan, Claim, Event, Status, option_text_eq}
use end_of_line.Store.{Row}
use end_of_line.Store.Fields.{FieldName, ClaimField, write_field, write_fields}
use end_of_line.Store.Head.{
  HeadField, HeadName, write_head, remove_head, write_heads, remove_heads, set_head_fields,
  set_fields_body,
}
use end_of_line.Store.Conditions.{holder}
use end_of_line.Store.Transaction.{PlanTxn, insert_events, finish, match_claim, release_in_txn}
use end_of_line.Store.ClaimOps.{
  heartbeat_body, Activity, activity_body, start, end, stamp_body, guard_hit, check_token,
  append_body, release_body, live_claim, attest_body, extend_body,
}
use end_of_line.Store.PlanOps.{
  release_if_asked, add_blocker_body, answer_body, spawn_body, complete_task_body, set_status_body,
  refuse_body, archive_body,
}

-- The claim is gone, or the same worker holds it for the same phase.
abbrev pub KeepsHolder : Row → Row → Type 0
KeepsHolder row row' =
    (holder row'.plan.current_claim ≡ none)
    ⊎ (holder row'.plan.current_claim ≡ holder row.plan.current_claim)

-- An operation that mints no claim.
abbrev pub MintsNone : {A : Type 0} → PlanTxn A → Type 0
MintsNone {A} body =
    (row row' : Row) (seq seq' : ℕ) (a : A)
    → body row seq ≡ ok (a, row', seq')
    → KeepsHolder row row'

holder-write_field :
    (f : ClaimField) (c : Claim) → holder (some (write_field f c)) ≡ holder (some c)
unfolding write_field
holder-write_field f c = ground arith

pub holder-write_fields :
    (fs : List ClaimField) (c : Claim) → holder (some (write_fields fs c)) ≡ holder (some c)
unfolding write_fields
holder-write_fields [] c = refl
holder-write_fields (f ∷ fs) c = holder-write_fields fs (write_field f c) ∙ holder-write_field f c

finish-MintsNone : {A : Type 0} (a : A) (events : List Event) → MintsNone (finish a events)
unfolding finish insert_events
finish-MintsNone a events row row' seq seq' b h = inr (ground (arith, h))

pub heartbeat_body-MintsNone :
    (now : ℕ) (token phase : String) → MintsNone (heartbeat_body now token phase)
unfolding heartbeat_body match_claim
heartbeat_body-MintsNone now token phase row row' seq seq' a h = inr (ground (arith, h))

pub activity_body-MintsNone :
    (now : ℕ) (token phase : String) (action : Activity)
    → MintsNone (activity_body now token phase action)
unfolding activity_body match_claim write_fields write_field
activity_body-MintsNone now token phase start row row' seq seq' a h = inr (ground (arith, h))
activity_body-MintsNone now token phase end row row' seq seq' a h = inr (ground (arith, h))

pub stamp_body-MintsNone :
    (token : String) (phase : Option String) (fields : List ClaimField)
    (if_unset : Option FieldName) (events : List Event)
    → MintsNone (stamp_body token phase fields if_unset events)
unfolding stamp_body match_claim finish insert_events
stamp_body-MintsNone token phase fields if_unset events row row' seq seq' a h =
    elim (Option-cases row.plan.current_claim) [
      | inl gone ↦ absurd (ground (arith, gone, h))
      | inr (c, held) ↦ elim (Bool-cases (guard_hit if_unset c)) [
        | inl hit ↦ inr (ground (arith, held, hit, h))
        | inr free ↦ inr (ground (arith, held, free, h, holder-write_fields fields c))
      ]
    ]

pub append_body-MintsNone :
    (events : List Event) (token phase : Option String) → MintsNone (append_body events token phase)
unfolding append_body
append_body-MintsNone events token phase row row' seq seq' a h =
    elim (Result-cases (check_token token phase row)) [
      | inl (t, held) ↦ finish-MintsNone tt events row row' seq seq' a (ground (arith, held, h))
      | inr (e, failed) ↦ absurd (ground (arith, failed, h))
    ]

pub attest_body-MintsNone :
    (now : ℕ) (token phase : Option String) (kind sha : String) (events : List Event)
    → MintsNone (attest_body now token phase kind sha events)
unfolding attest_body live_claim match_claim finish insert_events
attest_body-MintsNone now (some token) phase kind sha events row row' seq seq' a h =
    inr (ground (arith, h))
attest_body-MintsNone now none phase kind sha events row row' seq seq' a h = inr (ground (arith, h))

pub extend_body-MintsNone :
    (now : ℕ) (phase : String) (minutes : ℕ) → MintsNone (extend_body now phase minutes)
unfolding extend_body finish insert_events
extend_body-MintsNone now phase minutes row row' seq seq' a h = inr (ground (arith, h))

pub release_in_txn-gone :
    (token phase : Option String) (row row' : Row) (c : Option Claim)
    → release_in_txn token phase row ≡ ok (c, row')
    → row'.plan.current_claim ≡ none
unfolding release_in_txn match_claim
release_in_txn-gone none none row row' c h = ground (arith, h)
release_in_txn-gone none (some p) row row' c h = absurd (ground (arith, h))
release_in_txn-gone (some t) none row row' c h = absurd (ground (arith, h))
release_in_txn-gone (some t) (some p) row row' c h = ground (arith, h)

pub release_body-MintsNone :
    (token phase : Option String) (events : List Event)
    → MintsNone (release_body token phase events)
unfolding release_body finish insert_events
release_body-MintsNone token phase events row row' seq seq' a h =
    elim (Result-cases (release_in_txn token phase row)) [
      | inl ((c, r), done) ↦
          inl (ground (arith, done, h, release_in_txn-gone token phase row r c done))
      | inr (e, failed) ↦ absurd (ground (arith, failed, h))
    ]

release_if_asked-KeepsHolder :
    (token phase : Option String) (row row' : Row)
    → release_if_asked token phase row ≡ ok row'
    → KeepsHolder row row'
unfolding release_if_asked
release_if_asked-KeepsHolder none none row row' h = inr (ground (arith, h))
release_if_asked-KeepsHolder none (some p) row row' h =
    elim (Result-cases (release_in_txn none (some p) row)) [
      | inl ((c, r), done) ↦
          inl (ground (arith, done, h, release_in_txn-gone none (some p) row r c done))
      | inr (e, failed) ↦ absurd (ground (arith, failed, h))
    ]
release_if_asked-KeepsHolder (some t) phase row row' h =
    elim (Result-cases (release_in_txn (some t) phase row)) [
      | inl ((c, r), done) ↦
          inl (ground (arith, done, h, release_in_txn-gone (some t) phase row r c done))
      | inr (e, failed) ↦ absurd (ground (arith, failed, h))
    ]

pub add_blocker_body-MintsNone :
    (now : ℕ) (phase_id question : String) (options : List String) (context kind : String)
    (token phase : Option String)
    → MintsNone (add_blocker_body now phase_id question options context kind token phase)
unfolding add_blocker_body finish insert_events
add_blocker_body-MintsNone now phase_id question options context kind token phase row row' seq seq'
      a h =
    elim (Result-cases (release_if_asked token phase row)) [
      | inr (e, failed) ↦ absurd (ground (arith, failed, h))
      | inl (r, freed) ↦
          ground (arith, freed, h, release_if_asked-KeepsHolder token phase row r freed)
    ]

pub set_status_body-MintsNone :
    (status : Status) (events : List Event) (token phase : Option String)
    → MintsNone (set_status_body status events token phase)
unfolding set_status_body finish insert_events
set_status_body-MintsNone status events token phase row row' seq seq' a h =
    elim (Result-cases (release_if_asked token phase row)) [
      | inr (e, failed) ↦ absurd (ground (arith, failed, h))
      | inl (r, freed) ↦
          ground (arith, freed, h, release_if_asked-KeepsHolder token phase row r freed)
    ]

pub answer_body-MintsNone : (now n : ℕ) (raw : String) → MintsNone (answer_body now n raw)
unfolding answer_body finish insert_events
answer_body-MintsNone now n raw row row' seq seq' a h = inr (ground (arith, h))

pub spawn_body-MintsNone :
    (now : ℕ) (source by : Option String) (status : String) (token phase : Option String)
    → MintsNone (spawn_body now source by status token phase)
unfolding spawn_body finish insert_events
spawn_body-MintsNone now source by status token phase row row' seq seq' a h =
    elim (Result-cases (check_token token phase row)) [
      | inl (t, held) ↦ inr (ground (arith, held, h))
      | inr (e, failed) ↦ absurd (ground (arith, failed, h))
    ]

pub complete_task_body-MintsNone :
    (now n : ℕ) (token phase : Option String) (events : List Event)
    → MintsNone (complete_task_body now n token phase events)
unfolding complete_task_body finish insert_events
complete_task_body-MintsNone now n token phase events row row' seq seq' a h =
    elim (Result-cases (check_token token phase row)) [
      | inl (t, held) ↦ inr (ground (arith, held, h))
      | inr (e, failed) ↦ absurd (ground (arith, failed, h))
    ]

pub refuse_body-MintsNone :
    (now : ℕ) (phase gate head_sha : String) → MintsNone (refuse_body now phase gate head_sha)
unfolding refuse_body finish insert_events
refuse_body-MintsNone now phase gate head_sha row row' seq seq' a h = inr (ground (arith, h))

pub archive_body-MintsNone : MintsNone archive_body
unfolding archive_body
archive_body-MintsNone row row' seq seq' a h = inr (ground (arith, h))

write_head-holder :
    (f : HeadField) (p q : Plan) → write_head f p ≡ ok q → q.current_claim ≡ p.current_claim
unfolding write_head
write_head-holder f p q h = ground (arith, h)

remove_head-holder :
    (n : HeadName) (p q : Plan) → remove_head n p ≡ ok q → q.current_claim ≡ p.current_claim
unfolding remove_head
remove_head-holder n p q h = ground (arith, h)

write_heads-holder :
    (fs : List HeadField) (p q : Plan) → write_heads fs p ≡ ok q → q.current_claim ≡ p.current_claim
unfolding write_heads
write_heads-holder [] p q h = ground (arith, h)
write_heads-holder (f ∷ fs) p q h = elim (Result-cases (write_head f p)) [
  | inr (e, failed) ↦ absurd (ground (arith, failed, h))
  | inl (m, done) ↦
      write_heads-holder fs m q (ground (arith, done, h)) ∙ write_head-holder f p m done
]

remove_heads-holder :
    (ns : List HeadName) (p q : Plan) → remove_heads ns p ≡ ok q → q.current_claim ≡ p.current_claim
unfolding remove_heads
remove_heads-holder [] p q h = ground (arith, h)
remove_heads-holder (n ∷ ns) p q h = elim (Result-cases (remove_head n p)) [
  | inr (e, failed) ↦ absurd (ground (arith, failed, h))
  | inl (m, done) ↦
      remove_heads-holder ns m q (ground (arith, done, h)) ∙ remove_head-holder n p m done
]

pub set_fields_body-MintsNone :
    (fields : List HeadField) (names : List HeadName) (events : List Event)
    → MintsNone (set_fields_body fields names events)
unfolding set_fields_body set_head_fields finish insert_events
set_fields_body-MintsNone fields names events row row' seq seq' a h =
    elim (Result-cases (write_heads fields row.plan)) [
      | inr (e, failed) ↦ absurd (ground (arith, failed, h))
      | inl (p, wrote) ↦ elim (Result-cases (remove_heads names p)) [
        | inr (e, failed) ↦ absurd (ground (arith, wrote, failed, h))
        | inl (q, removed) ↦ inr (
            ground (
              arith,
              wrote,
              removed,
              h,
              write_heads-holder fields row.plan p wrote,
              remove_heads-holder names p q removed,
            ))
      ]
    ]
