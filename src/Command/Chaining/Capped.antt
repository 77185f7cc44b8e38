-- ===== src/Command/Chaining/Capped.antt =====
-- What a worker can queue, and what is on record of it.
use end_of_line.Shared.{
  ℕ, suc, ◌+◌, ◌≤◌, String, Option, some, none, List, [], ◌∷◌, ◌++◌, Bool, true, false, ◌≡◌, arith,
  inl, inr, ok, lookup, string_eq, Result-cases, length, filter, map, max, suc_ℤ, ℤ,
  String-discrete,
}
use text.Mathlib.TextEquality.{eq_iff}
use end_of_line.State.Slug.{validate_slug}
use end_of_line.Store.Transaction.{plan_txn}
use end_of_line.State.{Event, option_text_eq}
use end_of_line.State.Claims.{assert_claim_match}
use end_of_line.Store.{Row, Db}
use end_of_line.Store.ClaimOps.{op_append_events, start}
use end_of_line.Store.ClaimOps.Guards.{HeldBy, IsMismatch, token_guards}
use end_of_line.Queue.{Entry, Queue, pending, slugs, entries, insert_in_txn, insert_tail}
use end_of_line.Command.{die}
use end_of_line.Command.Exit.{ExitCode}
use end_of_line.Command.Chaining.{
  Chain, queued, chain_entry, appended_event, judge, existing_count, is_sourced, left_entry,
  on_verdict, chained, recorded, queue_cap_of, is_well_named, cmd_queue_add_worker,
}

count-insert :
    (p : Entry → Bool) (rows : List (ℤ × Entry)) (i : ℤ) (e : Entry) (gone : List Entry)
    → p e ≡ true
    → length (filter p (entries (rows ++ (i, e) ∷ []) ++ gone))
      ≡ suc (length (filter p (entries rows ++ gone)))
unfolding entries
count-insert p [] i e gone h = ground (arith, h)
count-insert p ((j, x) ∷ rest) i e gone h = ground (arith, count-insert p rest i e gone h)

is_sourced-chain_entry :
    (c : Chain) → is_sourced c.source_plan c.source_phase (chain_entry c) ≡ true
unfolding String-discrete
is_sourced-chain_entry c = ground (
  arith,
  eq_iff "position_at_add" "source_plan",
  eq_iff "position_at_add" "source_phase",
  eq_iff "source_plan" "source_phase",
)

existing_count-insert :
    (c : Chain) (n : ℕ) (q q' : Queue)
    → insert_in_txn (chain_entry c) false q ≡ ok (n, q')
    → existing_count c.source_plan c.source_phase q'
      ≡ suc (existing_count c.source_plan c.source_phase q)
unfolding insert_in_txn insert_tail existing_count pending
existing_count-insert c n q q' h =
    let p : (Entry → Bool) = is_sourced c.source_plan c.source_phase in
    let moved : q' ≡ insert_tail (chain_entry c) q = ground (arith, h) in
    rw moved (
      count-insert p q.rows (suc_ℤ q.seq) (chain_entry c) (map left_entry q.history)
        (is_sourced-chain_entry c))

-- What a verdict leaves of the count.
on_verdict_count :
    (limit : ℕ) (c : Chain) (current : Db) (q : Queue)
    → existing_count c.source_plan c.source_phase (on_verdict c (judge limit c q) current q).1
      ≤ max (existing_count c.source_plan c.source_phase q) limit
unfolding on_verdict judge
on_verdict_count limit c current q = elim (Result-cases (insert_in_txn (chain_entry c) false q)) [
  | inr (e, fails) ↦ ground (arith, fails)
  | inl ((n, q'), done) ↦ ground (arith, done, existing_count-insert c n q q' done)
]

-- A phase never has more plans in the queue and its history than its cap allows by what the worker
-- command adds: whatever the outcome, the count stays at or below the cap of the plan that the
-- worker works for, or at what it was where it was above.
pub cmd_queue_add_worker_capped :
    (c : Chain) (before current : Db) (q : Queue) (row : Row)
    → lookup c.source_plan before.plans ≡ some row
    → existing_count c.source_plan c.source_phase (cmd_queue_add_worker c before current q).1
      ≤ max (existing_count c.source_plan c.source_phase q) (queue_cap_of row.plan)
unfolding cmd_queue_add_worker chained
cmd_queue_add_worker_capped c before current q row found =
    ground (arith, found, on_verdict_count (queue_cap_of row.plan) c current q)

append-Raises :
    (slug token : String) (by : Option String) (evt : Event) (db : Db) (row : Row)
    → validate_slug slug ≡ true
    → lookup slug db.plans ≡ some row
    → (HeldBy token row → ⊥)
    → IsMismatch (op_append_events slug (evt ∷ []) (some token) by db)
unfolding op_append_events plan_txn
append-Raises slug token by evt db row valid found lost =
    let guards =
      token_guards 0 token "" "" "" by start [] none (evt ∷ [])
        (record row { version = suc row.version }) db.event_seq lost in
    let (m, fails) = guards.3 in (m, ground (arith, valid, found, fails))

insert-queued :
    (limit : ℕ) (c : Chain) (q : Queue)
    → is_well_named c ≡ true
    → judge limit c q ≡ queued
    → (n : ℕ) × ((q' : Queue) × (insert_in_txn (chain_entry c) false q ≡ ok (n, q')))
unfolding insert_in_txn judge
insert-queued limit c q named verdict = (
  length (slugs (pending q)) + 1,
  (insert_tail (chain_entry c) q, ground (arith, named, verdict)),
)

-- A worker whose claim is lost between the check and the event has queued the plan all the same: the
-- command ends with the exit code of a claim mismatch and nothing is on record in the source plan,
-- while the plan stands in the queue, counted as one of the phase's.
pub cmd_queue_add_worker_unrecorded :
    (c : Chain) (before current : Db) (q : Queue) (row now_row : Row)
    → is_well_named c ≡ true
    → c.has_plan_file ≡ true
    → c.readable ≡ true
    → lookup c.source_plan before.plans ≡ some row
    → assert_claim_match row.plan.current_claim c.token c.source_phase ≡ ok tt
    → judge (queue_cap_of row.plan) c q ≡ queued
    → lookup c.source_plan current.plans ≡ some now_row
    → (HeldBy c.token now_row → ⊥)
    → ((cmd_queue_add_worker c before current q).0 ≡ die ExitCode.claim_mismatch current)
      × (existing_count c.source_plan c.source_phase (cmd_queue_add_worker c before current q).1
          ≡ suc (existing_count c.source_plan c.source_phase q))
unfolding cmd_queue_add_worker chained on_verdict recorded
cmd_queue_add_worker_unrecorded c before current q row now_row named file readable found matched
      verdict there lost =
    let (m, raised) =
      append-Raises c.source_plan c.token (some c.source_phase) (appended_event c) current now_row
        (ground (arith, named)) there lost in
    let (n, (q', done)) = insert-queued (queue_cap_of row.plan) c q named verdict in
    (
      ground (arith, named, file, readable, found, matched, verdict, done, raised),
      ground (
        arith,
        named,
        file,
        readable,
        found,
        matched,
        verdict,
        done,
        existing_count-insert c n q q' done,
      ),
    )
