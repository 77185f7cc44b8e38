-- ===== src/Store/Apply/Errors.antt =====
-- The ways in which the tick's write fails.
use end_of_line.Shared.{
  ℕ, suc, ◌+◌, String, Option, none, some, List, [], ◌∷◌, false, ◌≡◌, ◌≢◌, arith, Option-cases,
  Result-cases, inl, inr, Error, err, ◌⊎◌, tick_conflict, file_not_found, invalid_slug, lookup,
  length, nat_eq, string_eq,
}
use end_of_line.State.{Plan, option_text_eq}
use end_of_line.State.Slug.{validate_slug}
use end_of_line.Store.{Row, Db}
use end_of_line.Store.Fields.{ClaimField}
use end_of_line.Store.Transaction.{plan_txn, insert_events}
use end_of_line.Store.Conditions.{Conditions, assert_preconditions}
use end_of_line.Store.Apply.{
  apply_claim_updates, update_blockers, apply_blocker_updates, apply_body, apply_tick_delta,
  claim_if_asked,
}
use end_of_line.Supervisor.Delta.{Delta, BlockerUpdate}
use end_of_line.Store.Apply.Effects.{claim_in_txn-ok, settled}

claim_updates-err :
    (token : Option String) (fs : List ClaimField) (r : Row) (e : Error)
    → apply_claim_updates token fs r ≡ err e
    → e ≡ tick_conflict
unfolding apply_claim_updates
claim_updates-err token [] r e h = absurd (ground arith)
claim_updates-err token (f ∷ fs) r e h = ground arith

blocker_updates-err :
    (us : List (ℕ × BlockerUpdate)) (r : Row) (e : Error)
    → apply_blocker_updates us r ≡ err e
    → e ≡ tick_conflict
unfolding apply_blocker_updates
blocker_updates-err [] r e h = absurd (ground arith)
blocker_updates-err ((n, u) ∷ us) r e h =
    elim (Option-cases (update_blockers n u r.plan.blockers)) [
      | inl y ↦ ground arith
      | inr (bs, y) ↦
          ground
            (arith, blocker_updates-err us (record r { plan = record r.plan { blockers = bs } }) e)
    ]

preconditions-err :
    (pre : Conditions) (plan : Plan) (e : Error)
    → assert_preconditions pre plan ≡ err e
    → e ≡ tick_conflict
unfolding assert_preconditions
preconditions-err pre plan e h = ground arith

asked-never_fails :
    (now : ℕ) (minted : String) (delta : Delta) (phase : Option String) (row : Row) (seq : ℕ)
    (e : Error)
    → claim_if_asked now minted delta phase (row, seq) ≢ err e
asked-never_fails now minted delta none row seq e h = ground arith
asked-never_fails now minted delta (some p) row seq e h =
    ground (arith, h, claim_in_txn-ok now minted p delta row seq)

apply_body-err :
    (now : ℕ) (minted : String) (delta : Delta) (row : Row) (seq : ℕ) (e : Error)
    → apply_body now minted delta row seq ≡ err e
    → e ≡ tick_conflict
unfolding apply_body insert_events
apply_body-err now minted delta row seq e h =
    elim (Result-cases (assert_preconditions delta.pre row.plan)) [
      | inr (d, x) ↦ ground (arith, x, h, preconditions-err delta.pre row.plan d x)
      | inl (u, x) ↦
          elim (Result-cases (apply_claim_updates delta.claim_token delta.claim_updates row)) [
            | inr (d, y) ↦
                ground
                  (arith, x, y, h, claim_updates-err delta.claim_token delta.claim_updates row d y)
            | inl (row1, y) ↦
                elim (Result-cases (apply_blocker_updates delta.blocker_updates row1)) [
                  | inr (d, z) ↦
                      ground (arith, x, y, z, h, blocker_updates-err delta.blocker_updates row1 d z)
                  | inl (row2, z) ↦ absurd (
                      asked-never_fails now minted delta delta.claim_phase
                        (insert_events delta.events (settled delta row2) seq).0
                        (seq + length delta.events) e (ground (arith, x, y, z, h)))
                ]
          ]
    ]

-- The apply fails in three ways only: the slug is outside the alphabet, the plan has no row, or
-- what the tick observed no longer holds. A claim that a dispatch asks for never fails by itself.
pub apply_tick_delta-err :
    (now : ℕ) (minted slug : String) (delta : Delta) (db : Db) (e : Error)
    → apply_tick_delta now minted slug delta db ≡ err e
    → (e ≡ invalid_slug) × (validate_slug slug ≡ false)
      ⊎ (e ≡ file_not_found) × (lookup slug db.plans ≡ none)
      ⊎ (e ≡ tick_conflict)
unfolding apply_tick_delta plan_txn
apply_tick_delta-err now minted slug delta db e h = elim (Option-cases (lookup slug db.plans)) [
  | inl n ↦ ground arith
  | inr (row, y) ↦
      elim (Result-cases
        (apply_body now minted delta (record row { version = suc row.version }) db.event_seq)) [
          | inl (done, z) ↦ ground arith
          | inr (d, z) ↦ ground (
            arith,
            apply_body-err now minted delta (record row { version = suc row.version }) db.event_seq
                d z,
          )
        ]
]
