-- ===== src/Rules/Advancing.antt =====
-- What `queue_advancement_rule` of end_of_line/cross_plan_rules.py does to the three stores.
use end_of_line.Shared.{
  ℕ, String, none, some, List, [], ◌∷◌, true, ◌≡◌, ◌⊎◌, ap, sym, insert, ◌∙◌, arith, refl,
  List-cases, inl, inr, any, ◌==◌, string_eq, ok, lookup, lookup-insert, Bool-cases, Option-cases,
}
use end_of_line.State.{Plan, empty_state}
use end_of_line.State.Claims.{append_event}
use end_of_line.Store.Transaction.{insert_events}
use end_of_line.State.Slug.{validate_slug}
use end_of_line.Store.{Db, Row}
use end_of_line.Store.PlanOps.{create}
use end_of_line.Queue
use end_of_line.Queue.{Entry, Queue, pending, entries, pop_head_in_txn}
use end_of_line.Registry.{is_pair}
use end_of_line.Rules.{Project, RuleResult, Answer, plain_result}
use end_of_line.Rules.Queueing.{Site, fresh_plan, created}

-- The conclusion of `queue_advancement_pops`.
abbrev pub IsAdvanced : Site → Entry → List Entry → String → Project → Answer → Type 0
IsAdvanced site head rest other p (answer, p') =
    (answer ≡ ok (some (record (plain_result "queue_advancement" []) { ticked = some head.slug })))
    × (pending p'.queue ≡ rest)
    × (any (is_pair (site.resolve site.root) head.slug) p'.registry ≡ true)
    × ((row : Row) × (lookup head.slug p'.db.plans ≡ some row))
    × ((lookup other p'.db.plans ≡ lookup other p.db.plans)
        ⊎ ((other ≡ head.slug) × (lookup other p.db.plans ≡ none)))

pub pop-head :
    (now : ℕ) (outcome : Queue.Outcome) (head : Entry) (rest : List Entry) (q : Queue)
    → pending q ≡ head ∷ rest
    → ((pop_head_in_txn now head.slug outcome [] q).0 ≡ true)
      × (pending (pop_head_in_txn now head.slug outcome [] q).1 ≡ rest)
unfolding pop_head_in_txn pending entries
pop-head now outcome head rest q waits = elim (List-cases q.rows) [
  | inl gone ↦ absurd (ground (arith, waits, gone))
  | inr (y, (ys, rows)) ↦
      let same : entries (y ∷ ys) ≡ head ∷ rest = sym (ap entries rows) ∙ waits in
      (ground (arith, rows, same), ground (arith, rows, same))
]

-- The create makes the row, or finds it; no other row is touched.
pub created-row :
    (slug : String) (plan : Plan) (db : Db) (other : String)
    → plan.plan_slug ≡ slug
    → validate_slug slug ≡ true
    → ((row : Row) × (lookup slug (created (create plan db) db).plans ≡ some row))
      × ((lookup other (created (create plan db) db).plans ≡ lookup other db.plans)
          ⊎ ((other ≡ slug) × (lookup other db.plans ≡ none)))
unfolding create
created-row slug plan db other named valid = elim (Option-cases (lookup slug db.plans)) [
  | inr (row, found) ↦
      let kept : created (create plan db) db ≡ db = ground (arith, named, valid, found) in
      (
        (row, ap (λ (d : Db). lookup slug d.plans) kept ∙ found),
        inl (ap (λ (d : Db). lookup other d.plans) kept),
      )
  | inl absent ↦
      let row =
        (insert_events plan.events
          (record { plan = record plan { events = [] }; version = 0; archived = [] })
          db.event_seq).0 in
      let made : (created (create plan db) db).plans ≡ insert slug row db.plans =
        ground (arith, named, valid, absent) in
      (
        (row, ap (lookup slug) made ∙ ground (arith, lookup-insert slug slug row db.plans)),
        elim (Bool-cases (slug == other)) [
          | inl same ↦ inr (ground (arith, same), ground (arith, same, absent))
          | inr apart ↦ inl (
              ap (lookup other) made ∙ ground (arith, apart, lookup-insert slug other row db.plans))
        ],
      )
]

abbrev ticked_result : Entry → RuleResult
ticked_result head = record (plain_result "queue_advancement" []) { ticked = some head.slug }

pub fresh_plan-slug : (site : Site) (head : Entry) → (fresh_plan site head).plan_slug ≡ head.slug
unfolding fresh_plan empty_state append_event
fresh_plan-slug site head = refl
