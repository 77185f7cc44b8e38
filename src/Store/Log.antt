-- ===== src/Store/Log.antt =====
-- The event log of end_of_line/plan_store.py under `_insert_events`: ids rise, and every append is
-- seen by a tick that rests on the log.
use end_of_line.Shared.{
  ℕ, suc, ◌+◌, ◌≤◌, max, some, List, [], ◌∷◌, ◌++◌, false, ◌≡◌, arith, length, nat_eq,
}
use end_of_line.State.{Event}
use end_of_line.Store.{Row, stamp_events, max_event_id}
use end_of_line.Store.Transaction.{insert_events}
use end_of_line.Store.Conditions.{events_as_expected}

max_event_id-append :
    (xs ys : List Event) → max_event_id (xs ++ ys) ≡ max (max_event_id xs) (max_event_id ys)
unfolding max_event_id
max_event_id-append [] ys = omega arith
max_event_id-append (x ∷ xs) ys = omega (arith, max_event_id-append xs ys)

max_event_id-stamp_events :
    (seq : ℕ) (e : Event) (es : List Event)
    → max_event_id (stamp_events seq (e ∷ es)) ≡ seq + length (e ∷ es)
unfolding max_event_id stamp_events
max_event_id-stamp_events seq e [] = omega arith
max_event_id-stamp_events seq e (d ∷ es) = omega (arith, max_event_id-stamp_events (suc seq) d es)

max_stamped_le : (seq : ℕ) (es : List Event) → max_event_id (stamp_events seq es) ≤ seq + length es
unfolding max_event_id stamp_events
max_stamped_le seq [] = omega arith
max_stamped_le seq (e ∷ es) = omega (arith, max_stamped_le (suc seq) es)

-- Where no event id of the plan is above the counter, an append of at least one event keeps it so
-- and is noticed: a tick that read the log before and rests on it does not pass that precondition
-- any more.
pub insert_events-noticed :
    (e : Event) (es : List Event) (row : Row) (seq : ℕ)
    → max_event_id row.plan.events ≤ seq
    → (max_event_id (insert_events (e ∷ es) row seq).0.plan.events
        ≤ (insert_events (e ∷ es) row seq).1)
      × (events_as_expected
            (some (max_event_id row.plan.events))
            (insert_events (e ∷ es) row seq).0.plan
          ≡ false)
unfolding insert_events events_as_expected
insert_events-noticed e es row seq h = ground (
  arith,
  h,
  max_event_id-append row.plan.events (stamp_events seq (e ∷ es)),
  max_event_id-stamp_events seq e es,
)
