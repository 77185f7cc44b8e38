-- ===== src/Store/PlanOps/Once.antt =====
-- Blockers, tasks and the archive: what the operations on the plan promise.
use end_of_line.Shared.{
  ℕ, suc, String, none, some, List, [], ◌∷◌, ◌++◌, ◌≡◌, refl, arith, Bool-cases, Option-cases,
  Result-cases, inl, inr, ok, err, key_error, ◌==◌, nat_eq, string_eq, length, length-append,
  append_nil_right,
}
use end_of_line.State.{Event, Blocker, Task, utcnow, option_text_eq}
use end_of_line.State.Blockers.{resolve_answer, new_blocker, blocked_event, answered_event}
use end_of_line.Store.{Row, stamp_events}
use end_of_line.Store.Transaction.{finish, insert_events, match_claim, release_in_txn}
use end_of_line.Store.ClaimOps.{check_token}
use end_of_line.Store.ClaimOps.Guards.{HeldBy, match_claim-HeldBy}
use end_of_line.Store.PlanOps.{
  add_blocker_body, release_if_asked, unanswered_options, set_answer, answer_body, find_task,
  complete_in, complete_task_body, archive_body,
}

answered :
    (now n : ℕ) (a : String) (bs : List Blocker)
    → unanswered_options n (set_answer now n a bs) ≡ none
unfolding unanswered_options set_answer
answered now n a [] = refl
answered now n a (b ∷ bs) = ground (arith, answered now n a bs)

-- A blocker is answered once: the first answer is logged, and a second one, whatever it says, is
-- refused.
pub answer_body_once :
    (now later n : ℕ) (raw other resolved : String) (row row' : Row) (seq seq' : ℕ)
    → answer_body now n raw row seq ≡ ok (resolved, row', seq')
    → (length row'.plan.events ≡ suc (length row.plan.events))
      × (answer_body later n other row' seq' ≡ err key_error)
unfolding answer_body finish insert_events stamp_events
answer_body_once now later n raw other resolved row row' seq seq' h =
    elim (Option-cases (unanswered_options n row.plan.blockers)) [
      | inl z ↦ absurd (ground (arith, z, h))
      | inr (options, y) ↦
          let again = answered now n (resolve_answer options raw) row.plan.blockers in
          ground (
            arith,
            y,
            h,
            again,
            length-append row.plan.events
                (stamp_events seq (answered_event now n (resolve_answer options raw) ∷ [])),
          )
    ]

completed :
    (now n : ℕ) (ts : List Task) (t : Task)
    → find_task n ts ≡ some t
    → (u : Task) × ((find_task n (complete_in now n ts) ≡ some u) × (u.status ≡ "done"))
unfolding find_task complete_in
completed now n [] t h = absurd (ground arith)
completed now n (x ∷ ts) t h = elim (Bool-cases (x.id == n)) [
  | inl y ↦ (record x { status = "done"; completed_at = some (utcnow now) }, ground (arith, y))
  | inr z ↦
      let (u, (p, q)) = completed now n ts t (ground (arith, z, h)) in (u, ground (arith, z, p, q))
]

-- Nothing of the history is lost to the archive: the archived events followed by the hot ones are
-- the same list before and after, and a second archive moves nothing.
pub archive_body_lem :
    (row row' row'' : Row) (seq seq' seq'' n m : ℕ)
    → archive_body row seq ≡ ok (n, row', seq')
    → archive_body row' seq' ≡ ok (m, row'', seq'')
    → (row'.archived ++ row'.plan.events ≡ row.archived ++ row.plan.events)
      × (n ≡ length row.plan.events)
      × (m ≡ 0)
      × (row''.archived ≡ row'.archived)
unfolding archive_body
archive_body_lem row row' row'' seq seq' seq'' n m h k =
    ground (arith, h, k, append_nil_right row'.archived)

-- The conclusion of `add_blocker_body-releases`.
abbrev pub IsBlockedAndReleased : String → Row → Row → ℕ → Type 0
IsBlockedAndReleased token row row' n =
    HeldBy token row
    × ((row'.plan.current_claim ≡ none)
        × (n ≡ suc (length row.plan.blockers))
        × (length row'.plan.blockers ≡ n)
        × (length row'.plan.events ≡ suc (length row.plan.events)))

-- A worker that blocks gives its claim up in the same write: with a token and a phase the write
-- goes through only while the token holds the claim, and then the claim is gone, one more question
-- stands, under the next number, and the log has one more event.
pub add_blocker_body-releases :
    (now : ℕ) (phase_id question context kind token phase : String) (options : List String)
    (row row' : Row) (seq seq' n : ℕ)
    → add_blocker_body now phase_id question options context kind (some token) (some phase) row seq
      ≡ ok (n, row', seq')
    → IsBlockedAndReleased token row row' n
unfolding add_blocker_body release_if_asked release_in_txn finish insert_events stamp_events
add_blocker_body-releases now phase_id question context kind token phase options row row' seq seq' n
      h =
    elim (Result-cases (match_claim row.plan.current_claim token (some phase))) [
      | inr (e, y) ↦ absurd (ground (arith, y, h))
      | inl (c, y) ↦ (
        match_claim-HeldBy token (some phase) row c y,
        ground (
          arith,
          y,
          h,
          length-append row.plan.blockers (
              new_blocker now (suc (length row.plan.blockers)) phase_id question options context
                kind
              ∷ []),
          length-append row.plan.events (
              stamp_events seq
                (blocked_event now phase_id (suc (length row.plan.blockers)) question ∷ [])),
        ),
      )
    ]

done-noop :
    (now n : ℕ) (events : List Event) (row : Row) (seq : ℕ) (t : Task)
    → find_task n row.plan.spawned_tasks ≡ some t
    → t.status ≡ "done"
    → complete_task_body now n none none events row seq ≡ ok (tt, row, seq)
unfolding complete_task_body check_token
done-noop now n events row seq t h d = ground (arith, h, d)

complete-found :
    (now n : ℕ) (events : List Event) (row row' : Row) (seq seq' : ℕ)
    → complete_task_body now n none none events row seq ≡ ok (tt, row', seq')
    → (t : Task) × ((find_task n row'.plan.spawned_tasks ≡ some t) × (t.status ≡ "done"))
unfolding complete_task_body check_token finish insert_events
complete-found now n events row row' seq seq' h =
    elim (Option-cases (find_task n row.plan.spawned_tasks)) [
      | inl z ↦ absurd (ground (arith, z, h))
      | inr (t, y) ↦ elim (Bool-cases (t.status == "done")) [
        | inl d ↦ (t, ground (arith, y, d, h))
        | inr d ↦
            let (u, (p, q)) = completed now n row.plan.spawned_tasks t y in
            (u, (ground (arith, y, d, h, p), q))
      ]
    ]

-- Completing a task twice without a token is completing it once: after a completion a second one
-- succeeds and writes nothing.
pub complete_task_body_once :
    (now later n : ℕ) (events : List Event) (row row' : Row) (seq seq' : ℕ)
    → complete_task_body now n none none events row seq ≡ ok (tt, row', seq')
    → complete_task_body later n none none events row' seq' ≡ ok (tt, row', seq')
complete_task_body_once now later n events row row' seq seq' h =
    let (t, (f, d)) = complete-found now n events row row' seq seq' h in
    done-noop later n events row' seq' t f d
