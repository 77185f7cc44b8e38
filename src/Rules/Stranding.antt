-- ===== src/Rules/Stranding.antt =====
-- What `queue_advancement_rule` of end_of_line/cross_plan_rules.py does with a plan whose pop ended
-- between its two transactions.
use end_of_line.Shared.{
  String, some, List, [], ◌∷◌, ◌++◌, Bool, true, false, ◌≡◌, ap, ◌∙◌, arith, refl, any, ◌==◌,
  string_eq, lookup, List-cases, inl, inr, ◌⊎◌,
}
use end_of_line.State.{utcnow}
use end_of_line.State.Slug.{validate_slug}
use end_of_line.Store.{Row}
use end_of_line.Queue
use end_of_line.Queue.{Entry, pending, pop_head_in_txn}
use end_of_line.Registry.{PlanEntry, is_pair, register}
use end_of_line.Rules.{ProjectPlan, Project}
use end_of_line.Rules.Queueing.{
  Site, registered, popped_in_txn, pop_plan, drop_head, advance, queue_advancement_rule, fresh_plan,
}
use end_of_line.Rules.Advancing.{pop-head, created-row, fresh_plan-slug}

-- The pair of another slug.
any-other :
    (root slug : String) (xs : List PlanEntry) (y : PlanEntry)
    → (y.plan_slug == slug) ≡ false
    → any (is_pair root slug) (xs ++ y ∷ []) ≡ any (is_pair root slug) xs
any-other root slug [] y h = ground (arith, h)
any-other root slug (x ∷ xs) y h = ground (arith, any-other root slug xs y h)

registered-other :
    (site : Site) (root slug : String) (next : Entry) (p : Project)
    → (next.slug == slug) ≡ false
    → any (is_pair root slug) (registered site next p).1.registry
      ≡ any (is_pair root slug) p.registry
unfolding registered register
registered-other site root slug next p other = ground (
  arith,
  other,
  any-other root slug p.registry
      (record {
        project_root = site.resolve site.root;
        plan_slug = next.slug;
        registered_at = utcnow site.now;
      })
      other,
)

advance-other :
    (site : Site) (plans : List ProjectPlan) (root slug : String) (next : Entry) (p : Project)
    → (next.slug == slug) ≡ false
    → any (is_pair root slug) (advance site plans next p).1.registry
      ≡ any (is_pair root slug) p.registry
unfolding advance pop_plan popped_in_txn drop_head
advance-other site plans root slug next p other =
    ground (arith, registered-other site root slug next (popped_in_txn site next p).1 other)

abbrev pub is_entry : String → Entry → Bool
is_entry slug e = e.slug == slug

-- The slug does not wait in the queue.
abbrev pub IsGone : String → Project → Type 0
IsGone slug p = any (is_entry slug) (pending p.queue) ≡ false

registered-queue :
    (site : Site) (next : Entry) (p : Project) → (registered site next p).1.queue ≡ p.queue
unfolding registered register
registered-queue site next p = ground arith

-- A step takes the head off the queue, or nothing.
advance-queue :
    (site : Site) (plans : List ProjectPlan) (next : Entry) (rest : List Entry) (p : Project)
    → pending p.queue ≡ next ∷ rest
    → (pending (advance site plans next p).1.queue ≡ pending p.queue)
      ⊎ (pending (advance site plans next p).1.queue ≡ rest)
unfolding advance pop_plan popped_in_txn drop_head
advance-queue site plans next rest p waits = ground (
  arith,
  ap pending (registered-queue site next (popped_in_txn site next p).1),
  (pop-head site.now Queue.popped next rest p.queue waits).1,
  (pop-head site.now Queue.absorbed next rest p.queue waits).1,
  (pop-head site.now Queue.abandoned next rest p.queue waits).1,
)

-- One run of the rule neither registers a slug that does not wait, nor queues it.
queue_advancement_rule-IsGone :
    (site : Site) (plans : List ProjectPlan) (root slug : String) (p : Project)
    → IsGone slug p
    → (any (is_pair root slug) (queue_advancement_rule site plans p).1.registry
        ≡ any (is_pair root slug) p.registry)
      × IsGone slug (queue_advancement_rule site plans p).1
unfolding queue_advancement_rule
queue_advancement_rule-IsGone site plans root slug p gone = elim (List-cases (pending p.queue)) [
  | inl idle ↦ (ground (arith, idle), ground (arith, idle, gone))
  | inr (next, (rest, waits)) ↦
      let other : (next.slug == slug) ≡ false = ground (arith, gone, waits) in
      let left : any (is_entry slug) rest ≡ false = ground (arith, gone, waits) in
      let after : IsGone slug (advance site plans next p).1 =
        elim (advance-queue site plans next rest p waits) [
          | inl same ↦ ap (any (is_entry slug)) same ∙ gone
          | inr fewer ↦ ap (any (is_entry slug)) fewer ∙ left
        ] in
      (
        ground (arith, waits, advance-other site plans root slug next p other),
        ground (arith, waits, gone, after),
      )
]

-- Runs of the rule, each on what the one before left.
unfoldable pub run_again : List (Site × List ProjectPlan) → Project → Project
unfolding queue_advancement_rule
run_again [] p = p
run_again ((site, plans) ∷ rest) p = run_again rest (queue_advancement_rule site plans p).1

registry-run_again :
    (runs : List (Site × List ProjectPlan)) (root slug : String) (p : Project)
    → IsGone slug p
    → any (is_pair root slug) (run_again runs p).registry ≡ any (is_pair root slug) p.registry
unfolding run_again
registry-run_again [] root slug p gone = refl
registry-run_again ((site, plans) ∷ rest) root slug p gone =
    let (same, still) = queue_advancement_rule-IsGone site plans root slug p gone in
    registry-run_again rest root slug (queue_advancement_rule site plans p).1 still ∙ same

-- A process that ends between the two transactions of a pop strands the plan, whose slug waits once in
-- the queue: its row is written and it is out of the queue, and however often the rule runs afterwards, on whatever snapshots, the
-- registry has the plan's pair only if it had it before the pop.
pub queue_advancement_strands :
    (site : Site) (runs : List (Site × List ProjectPlan)) (head : Entry) (rest : List Entry)
    (root : String) (p : Project)
    → pending p.queue ≡ head ∷ rest
    → validate_slug head.slug ≡ true
    → any (is_entry head.slug) rest ≡ false
    → ((popped_in_txn site head p).0 ≡ true)
      × (pending (popped_in_txn site head p).1.queue ≡ rest)
      × ((row : Row) × (lookup head.slug (popped_in_txn site head p).1.db.plans ≡ some row))
      × (any (is_pair root head.slug) (run_again runs (popped_in_txn site head p).1).registry
          ≡ any (is_pair root head.slug) p.registry)
unfolding popped_in_txn
queue_advancement_strands site runs head rest root p waits valid once =
    let (moved, left) = pop-head site.now Queue.popped head rest p.queue waits in
    let (row, kept) =
      created-row head.slug (fresh_plan site head) p.db "" (fresh_plan-slug site head) valid in
    (
      moved,
      left,
      row,
      registry-run_again runs root head.slug (popped_in_txn site head p).1
          (ap (any (is_entry head.slug)) left ∙ once),
    )
