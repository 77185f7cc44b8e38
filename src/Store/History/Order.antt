-- ===== src/Store/History/Order.antt =====
-- What an extension keeps: event ids that rise up to the counter, and blockers and tasks that are
-- numbered from 1.
use end_of_line.Shared.{
  ℕ, suc, ◌+◌, ◌≤◌, ◌<◌, List, [], ◌∷◌, ◌++◌, ◌≡◌, sym, subst, length, arith, inl, inr,
}
use end_of_line.State.{Event}
use end_of_line.Store.{Row, stamp_events}
use end_of_line.Store.History.{history, blocker_ids, task_ids, IsNumbered, Added, Extends}

-- The ids rise, from above the low bound up to the high one.
abbrev pub IsRising : ℕ → ℕ → List Event → Type 0
IsRising low high [] = low ≤ high
IsRising low high (e ∷ rest) = (low < e.id) × IsRising e.id high rest

IsRising-bounds : (low high : ℕ) (es : List Event) → IsRising low high es → low ≤ high
IsRising-bounds low high [] h = h
IsRising-bounds low high (e ∷ es) h = omega (arith, IsRising-bounds e.id high es h.1)

pub IsRising-lower :
    (low next high : ℕ) (es : List Event)
    → low ≤ next
    → IsRising next high es
    → IsRising low high es
IsRising-lower low next high [] le h = omega arith
IsRising-lower low next high (e ∷ es) le h = (omega (arith, h.0), h.1)

IsRising-append :
    (low mid high : ℕ) (xs ys : List Event)
    → IsRising low mid xs
    → IsRising mid high ys
    → IsRising low high (xs ++ ys)
IsRising-append low mid high [] ys h k = IsRising-lower low mid high ys h k
IsRising-append low mid high (e ∷ xs) ys h k = (h.0, IsRising-append e.id mid high xs ys h.1 k)

IsRising-higher :
    (low mid high : ℕ) (es : List Event) → mid ≤ high → IsRising low mid es → IsRising low high es
IsRising-higher low mid high [] le h = omega arith
IsRising-higher low mid high (e ∷ es) le h = (h.0, IsRising-higher e.id mid high es le h.1)

pub stamp_events-IsRising :
    (seq : ℕ) (es : List Event) → IsRising seq (seq + length es) (stamp_events seq es)
unfolding stamp_events
stamp_events-IsRising seq [] = omega arith
stamp_events-IsRising seq (e ∷ es) = (
  omega arith,
  subst (λ n. IsRising (suc seq) n (stamp_events (suc seq) es)) (omega arith)
      (stamp_events-IsRising (suc seq) es),
)

IsNumbered-append :
    (n : ℕ) (xs : List ℕ) (i : ℕ)
    → IsNumbered n xs
    → i ≡ n + length xs + 1
    → IsNumbered n (xs ++ i ∷ [])
IsNumbered-append n [] i h e = (omega arith, tt)
IsNumbered-append n (x ∷ xs) i h e = (h.0, IsNumbered-append (suc n) xs i h.1 (omega arith))

pub Added-IsNumbered :
    (before after : List ℕ) → Added before after → IsNumbered 0 before → IsNumbered 0 after
Added-IsNumbered before after (inl same) h = subst (IsNumbered 0) (sym same) h
Added-IsNumbered before after (inr more) h =
    subst (IsNumbered 0) (sym more) (IsNumbered-append 0 before (length before + 1) h (omega arith))

-- What holds of every plan in the store.
pub record IsSoundRow (seq : ℕ) (row : Row) : Type 0 where
  pub ordered : IsRising 0 seq (history row)
  pub blockers : IsNumbered 0 (blocker_ids row.plan.blockers)
  pub tasks : IsNumbered 0 (task_ids row.plan.spawned_tasks)

pub IsSoundRow-later :
    (seq seq' : ℕ) (row : Row) → seq ≤ seq' → IsSoundRow seq row → IsSoundRow seq' row
IsSoundRow-later seq seq' row le s = record {
  ordered = IsRising-higher 0 seq seq' (history row) le s.ordered;
  blockers = s.blockers;
  tasks = s.tasks;
}

pub Extends-IsSoundRow :
    (before after : Row) (seq seq' : ℕ)
    → Extends before seq after seq'
    → IsSoundRow seq before
    → IsSoundRow seq' after
Extends-IsSoundRow before after seq seq' e s = record {
  ordered =
      subst (λ n. IsRising 0 n (history after)) (sym e.counted)
        (subst (IsRising 0 (seq + length e.new)) (sym e.logged) (
          IsRising-append 0 seq (seq + length e.new) (history before) (stamp_events seq e.new)
            s.ordered (stamp_events-IsRising seq e.new)));
  blockers =
      Added-IsNumbered (blocker_ids before.plan.blockers) (blocker_ids after.plan.blockers)
        e.blockers s.blockers;
  tasks =
      Added-IsNumbered (task_ids before.plan.spawned_tasks) (task_ids after.plan.spawned_tasks)
        e.tasks s.tasks;
}
