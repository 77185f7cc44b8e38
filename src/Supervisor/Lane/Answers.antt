-- ===== src/Supervisor/Lane/Answers.antt =====
-- The answered blockers of a tick: each is consumed, logged, and not consumed again.
use end_of_line.Shared.{
  ℕ, Option, none, some, List, [], ◌∷◌, ◌++◌, ◌≡◌, ◌≢◌, ◌⊎◌, inl, inr, refl, arith, ap, ◌∙◌, sym,
  Bool-cases, ◌==◌, nat_eq, filter_map, if◌then◌else◌, subst, map, ok, append_nil_right,
  append_assoc_lem,
}
use end_of_line.Store.{Row}
use end_of_line.Store.Transaction.{on_row_plan}
use end_of_line.Store.Apply.{update_blockers, apply_blocker_updates}
use end_of_line.State.{Blocker, Event, running, event, blocker_consumed}
use end_of_line.State.Blockers.{is_newly_answered, process_answered_blockers}
use end_of_line.State.Blockers.Answers.{NoId}
use end_of_line.Quota.{Pause}
use end_of_line.Supervisor.Delta.{Delta, BlockerUpdate, require_blocker, require_status}
use end_of_line.Supervisor.Work.{Work, stamp_first, stamp_blocker, delta_event, set_status}
use end_of_line.Supervisor.Deaths.{Decision}
use end_of_line.Supervisor.Lane.{consume, consume_all, consume_answers, resume_status}

-- No two blockers have one id.
abbrev pub DistinctIds : List Blocker → Type 0
DistinctIds [] = Unit
DistinctIds (b ∷ bs) = NoId b.id bs × DistinctIds bs

abbrev answered_id : Blocker → Option ℕ
answered_id b = if is_newly_answered b then some b.id else none

abbrev answered_ids : List Blocker → List ℕ
answered_ids bs = filter_map answered_id bs

NoId-stamp_first :
    (m n : ℕ) (bs : List Blocker) → NoId m bs → NoId m (stamp_first n BlockerUpdate.consumed bs)
unfolding stamp_first
NoId-stamp_first m n [] h = h
NoId-stamp_first m n (b ∷ bs) h = elim (Bool-cases (b.id == n)) [
  | inl y ↦ rw y h
  | inr z ↦ rw z (h.0, NoId-stamp_first m n bs h.1)
]

DistinctIds-stamp_first :
    (n : ℕ) (bs : List Blocker)
    → DistinctIds bs
    → DistinctIds (stamp_first n BlockerUpdate.consumed bs)
unfolding stamp_first
DistinctIds-stamp_first n [] h = h
DistinctIds-stamp_first n (b ∷ bs) h = elim (Bool-cases (b.id == n)) [
  | inl y ↦ rw y h
  | inr z ↦ rw z (NoId-stamp_first b.id n bs h.0, DistinctIds-stamp_first n bs h.1)
]

absent_answered :
    (n : ℕ) (bs : List Blocker) (rest : List ℕ) → NoId n bs → answered_ids bs ≢ n ∷ rest
absent_answered n [] rest h e = ground (arith, e)
absent_answered n (b ∷ bs) rest h e = elim (Bool-cases (is_newly_answered b)) [
  | inl y ↦ ground (arith, y, e, h.0)
  | inr z ↦ absent_answered n bs rest h.1 (ground (arith, z, e))
]

-- Consuming the first answered blocker leaves the others.
answered-stamp_first :
    (n : ℕ) (rest : List ℕ) (bs : List Blocker)
    → DistinctIds bs
    → answered_ids bs ≡ n ∷ rest
    → answered_ids (stamp_first n BlockerUpdate.consumed bs) ≡ rest
unfolding stamp_first
answered-stamp_first n rest [] d h = absurd (ground (arith, h))
answered-stamp_first n rest (b ∷ bs) d h = elim (Bool-cases (is_newly_answered b)) [
  | inl y ↦ ground (arith, y, h)
  | inr z ↦
      let later : answered_ids bs ≡ n ∷ rest = ground (arith, z, h) in
      elim (Bool-cases (b.id == n)) [
        | inl same ↦ absurd (absent_answered b.id bs rest d.0 (ground (arith, same, later)))
        | inr other ↦ ground (arith, z, other, answered-stamp_first n rest bs d.1 later)
      ]
]

require_blocker-kept :
    (n : ℕ) (d : Delta)
    → ((require_blocker n d).events ≡ d.events)
      × ((require_blocker n d).blocker_updates ≡ d.blocker_updates)
unfolding require_blocker
require_blocker-kept n d = (ground arith, ground arith)

abbrev pub consumed_event : ℕ → ℕ → Event
consumed_event now n = record (event now blocker_consumed) { blocker_id = some n }

abbrev pub consumed_update : ℕ → ℕ × BlockerUpdate
consumed_update n = (n, BlockerUpdate.consumed)

consume-steps :
    (now n : ℕ) (w : Work)
    → ((consume now n w).plan.blockers ≡ stamp_first n BlockerUpdate.consumed w.plan.blockers)
      × ((consume now n w).delta.events ≡ w.delta.events ++ consumed_event now n ∷ [])
      × ((consume now n w).delta.blocker_updates
          ≡ w.delta.blocker_updates ++ consumed_update n ∷ [])
unfolding consume delta_event stamp_blocker
consume-steps now n w =
    let kept = require_blocker-kept n w.delta in
    (
      refl,
      ap (λ es. es ++ consumed_event now n ∷ []) kept.0,
      ap (λ us. us ++ consumed_update n ∷ []) kept.1,
    )

consume_all-answered :
    (now : ℕ) (ids : List ℕ) (w : Work)
    → DistinctIds w.plan.blockers
    → answered_ids w.plan.blockers ≡ ids
    → (answered_ids (consume_all now ids w).plan.blockers ≡ [])
      × ((consume_all now ids w).delta.events ≡ w.delta.events ++ map (consumed_event now) ids)
      × ((consume_all now ids w).delta.blocker_updates
          ≡ w.delta.blocker_updates ++ map consumed_update ids)
unfolding consume_all
consume_all-answered now [] w d h =
    (h, sym (append_nil_right w.delta.events), sym (append_nil_right w.delta.blocker_updates))
consume_all-answered now (n ∷ rest) w d h =
    let (blockers, logged, updated) = consume-steps now n w in
    let next =
      consume_all-answered now rest (consume now n w)
        (subst DistinctIds (sym blockers) (DistinctIds-stamp_first n w.plan.blockers d))
        (ap answered_ids blockers ∙ answered-stamp_first n rest w.plan.blockers d h) in
    (
      next.0,
      next.1
          ∙ ap (λ es. es ++ map (consumed_event now) rest) logged
          ∙ append_assoc_lem w.delta.events (consumed_event now n ∷ [])
              (map (consumed_event now) rest),
      next.2
          ∙ ap (λ us. us ++ map consumed_update rest) updated
          ∙ append_assoc_lem w.delta.blocker_updates (consumed_update n ∷ [])
              (map consumed_update rest),
    )

update_blockers-absent :
    (n : ℕ) (u : BlockerUpdate) (bs : List Blocker) → NoId n bs → update_blockers n u bs ≡ none
unfolding update_blockers
update_blockers-absent n u [] h = refl
update_blockers-absent n u (b ∷ bs) h = ground (arith, h.0, update_blockers-absent n u bs h.1)

-- The store's update of an answered blocker is that of the working copy.
update_blockers-stamp_first :
    (n : ℕ) (rest : List ℕ) (bs : List Blocker)
    → DistinctIds bs
    → answered_ids bs ≡ n ∷ rest
    → update_blockers n BlockerUpdate.consumed bs ≡ some (stamp_first n BlockerUpdate.consumed bs)
unfolding update_blockers stamp_first
update_blockers-stamp_first n rest [] d h = absurd (ground (arith, h))
update_blockers-stamp_first n rest (b ∷ bs) d h = elim (Bool-cases (is_newly_answered b)) [
  | inl y ↦
      let id : b.id ≡ n = ground (arith, y, h) in
      let alone : update_blockers n BlockerUpdate.consumed bs ≡ none =
        update_blockers-absent n BlockerUpdate.consumed bs (subst (λ m. NoId m bs) id d.0) in
      ground (arith, id, alone)
  | inr z ↦
      let later : answered_ids bs ≡ n ∷ rest = ground (arith, z, h) in
      elim (Bool-cases (b.id == n)) [
        | inl same ↦ absurd (absent_answered b.id bs rest d.0 (ground (arith, same, later)))
        | inr other ↦ ground (arith, other, update_blockers-stamp_first n rest bs d.1 later)
      ]
]

-- The updates find their blockers, and leave the row none that is answered and not consumed.
apply_blocker_updates-consumed :
    (ids : List ℕ) (row : Row)
    → DistinctIds row.plan.blockers
    → answered_ids row.plan.blockers ≡ ids
    → (row' : Row) × ((apply_blocker_updates (map consumed_update ids) row ≡ ok row')
        × (answered_ids row'.plan.blockers ≡ []))
unfolding apply_blocker_updates
apply_blocker_updates-consumed [] row d h = (row, (refl, h))
apply_blocker_updates-consumed (n ∷ rest) row d h =
    let bs = stamp_first n BlockerUpdate.consumed row.plan.blockers in
    let next : Row = on_row_plan (λ p. record p { blockers = bs }) row in
    let (row', (wrote, free)) =
      apply_blocker_updates-consumed rest next (DistinctIds-stamp_first n row.plan.blockers d)
        (answered-stamp_first n rest row.plan.blockers d h) in
    (row', (ground (arith, wrote, update_blockers-stamp_first n rest row.plan.blockers d h), free))

ids_cases : (ids : List ℕ) → (ids ≡ []) ⊎ ((n : ℕ) × ((rest : List ℕ) × (ids ≡ n ∷ rest)))
ids_cases [] = inl refl
ids_cases (n ∷ rest) = inr (n, (rest, refl))

-- The work of a decision that consumed these answers.
abbrev resumed : ℕ → List ℕ → Work → Work
resumed now ids w = resume_status (some running) (consume_all now ids w)

nothing_to_consume :
    (now : ℕ) (pause : Option Pause) (w : Work)
    → answered_ids w.plan.blockers ≡ []
    → consume_answers now pause w ≡ none
unfolding consume_answers process_answered_blockers
nothing_to_consume now pause w h = ground (arith, h)

consume_answers-work :
    (now : ℕ) (pause : Option Pause) (w : Work) (d : Decision) (n : ℕ) (rest : List ℕ)
    → answered_ids w.plan.blockers ≡ n ∷ rest
    → consume_answers now pause w ≡ some d
    → d.work ≡ resumed now (n ∷ rest) w
unfolding consume_answers process_answered_blockers
consume_answers-work now pause w d n rest h e = ground (arith, h, e)

-- The conclusion of `consume_answers_once`.
abbrev pub IsConsumedOnce : ℕ → ℕ → Option Pause → Work → Decision → Row → Type 0
IsConsumedOnce now later pause w d row =
    let ids = (process_answered_blockers w.plan).0 in
    (consume_answers later pause d.work ≡ none)
    × (d.work.plan.status ≡ running)
    × (d.work.delta.status ≡ some running)
    × (d.work.delta.events ≡ w.delta.events ++ map (consumed_event now) ids)
    × (d.work.delta.blocker_updates ≡ w.delta.blocker_updates ++ map consumed_update ids)
    × ((row' : Row) × ((apply_blocker_updates (map consumed_update ids) row ≡ ok row')
          × ((process_answered_blockers row'.plan).0 ≡ [])))

-- Where no two blockers have one id, the answered blockers of a plan are consumed in one step: the
-- delta has for each of them its update and its event, in their order, behind what was there, and
-- sets the plan running. The working copy has no answer left to consume; and on a stored row with the
-- blockers that the step saw, these updates all find their blockers and leave no answer to consume.
pub consume_answers_once :
    (now later : ℕ) (pause : Option Pause) (w : Work) (d : Decision) (row : Row)
    → DistinctIds w.plan.blockers
    → consume_answers now pause w ≡ some d
    → row.plan.blockers ≡ w.plan.blockers
    → IsConsumedOnce now later pause w d row
unfolding process_answered_blockers set_status require_status
consume_answers_once now later pause w d row k h stored =
    elim (ids_cases (answered_ids w.plan.blockers)) [
      | inl e ↦ absurd (ground (arith, h, nothing_to_consume now pause w e))
      | inr (n, (rest, e)) ↦
          let same = consume_answers-work now pause w d n rest e h in
          let all = consume_all-answered now (n ∷ rest) w k e in
          let written =
            apply_blocker_updates-consumed (answered_ids w.plan.blockers) row
              (subst DistinctIds (sym stored) k) (ap answered_ids stored) in
          (
            nothing_to_consume later pause d.work
                (ap (λ x. answered_ids x.plan.blockers) same ∙ all.0),
            ap (λ x. x.plan.status) same,
            ap (λ x. x.delta.status) same,
            ap (λ x. x.delta.events) same
                ∙ all.1
                ∙ ap (λ ids. w.delta.events ++ map (consumed_event now) ids) (sym e),
            ap (λ x. x.delta.blocker_updates) same
                ∙ all.2
                ∙ ap (λ ids. w.delta.blocker_updates ++ map consumed_update ids) (sym e),
            written,
          )
    ]
