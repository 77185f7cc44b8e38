-- ===== src/Store/History/Growth.antt =====
-- How the parts of an operation extend the history: the append of events, the release, the
-- updates of single blockers and tasks.
use end_of_line.Shared.{
  ℕ, suc, String, Option, none, some, List, [], ◌∷◌, ◌++◌, ◌≡◌, refl, sym, ap, subst, ◌∙◌, length,
  ok, arith, append_nil_right, append_assoc_lem, inl, inr, Result-cases, Option-cases, string_eq,
  nat_eq,
}
use end_of_line.State.{Event, Blocker, Task, Claim, option_text_eq}
use end_of_line.Store.{Row, stamp_events}
use end_of_line.Store.Transaction.{insert_events, finish, release_in_txn, match_claim}
use end_of_line.Store.PlanOps.{release_if_asked, set_answer, stamp_metadata, complete_in}
use end_of_line.Store.Apply.{update_blockers, update_blocker}
use end_of_line.Supervisor.Delta.{BlockerUpdate, consumed, last_repinged_at}
use end_of_line.Store.History.{history, blocker_ids, task_ids, Added, Extends, IsQuiet}

-- Nothing is logged and nothing is added.
pub Extends-quiet :
    (before after : Row) (seq : ℕ) → IsQuiet before after → Extends before seq after seq
unfolding stamp_events
Extends-quiet before after seq q = record {
  new = [];
  logged = q.logged ∙ sym (append_nil_right (history before));
  counted = omega arith;
  blockers = inl q.blockers;
  tasks = inl q.tasks;
}

-- An append of events to a row that has the old history.
pub insert_events-Extends :
    (before row : Row) (seq : ℕ) (events : List Event)
    → history row ≡ history before
    → Added (blocker_ids before.plan.blockers) (blocker_ids row.plan.blockers)
    → Added (task_ids before.plan.spawned_tasks) (task_ids row.plan.spawned_tasks)
    → Extends before seq (insert_events events row seq).0 (insert_events events row seq).1
unfolding insert_events
insert_events-Extends before row seq events l b t = record {
  new = events;
  logged =
      sym (append_assoc_lem row.archived row.plan.events (stamp_events seq events))
      ∙ ap (λ h. h ++ stamp_events seq events) l;
  counted = refl;
  blockers = b;
  tasks = t;
}

pub Extends-transport :
    {before a b : Row} {seq m n : ℕ}
    → a ≡ b
    → m ≡ n
    → Extends before seq a m
    → Extends before seq b n
Extends-transport {before} p q e = record {
  new = e.new;
  logged = ap history (sym p) ∙ e.logged;
  counted = sym q ∙ e.counted;
  blockers =
      subst (λ r. Added (blocker_ids before.plan.blockers) (blocker_ids r.plan.blockers)) p
        e.blockers;
  tasks =
      subst (λ r. Added (task_ids before.plan.spawned_tasks) (task_ids r.plan.spawned_tasks)) p
        e.tasks;
}

pub finish-Extends :
    {A : Type 0} (a b : A) (before row after : Row) (seq seq' : ℕ) (events : List Event)
    → history row ≡ history before
    → Added (blocker_ids before.plan.blockers) (blocker_ids row.plan.blockers)
    → Added (task_ids before.plan.spawned_tasks) (task_ids row.plan.spawned_tasks)
    → finish a events row seq ≡ ok (b, after, seq')
    → Extends before seq after seq'
unfolding finish
finish-Extends a b before row after seq seq' events l bs ts h =
    Extends-transport (cc h) (cc h) (insert_events-Extends before row seq events l bs ts)

pub IsQuiet-refl : (row : Row) → IsQuiet row row
IsQuiet-refl row = record { logged = refl; blockers = refl; tasks = refl }

pub IsQuiet-trans : {a b c : Row} → IsQuiet a b → IsQuiet b c → IsQuiet a c
IsQuiet-trans p q = record {
  logged = q.logged ∙ p.logged;
  blockers = q.blockers ∙ p.blockers;
  tasks = q.tasks ∙ p.tasks;
}

pub release_in_txn-IsQuiet :
    (token phase : Option String) (row row' : Row) (claim : Option Claim)
    → release_in_txn token phase row ≡ ok (claim, row')
    → IsQuiet row row'
unfolding release_in_txn
release_in_txn-IsQuiet none none row row' claim h = ground (arith, h)
release_in_txn-IsQuiet none (some p) row row' claim h = absurd (ground (arith, h))
release_in_txn-IsQuiet (some t) none row row' claim h = absurd (ground (arith, h))
release_in_txn-IsQuiet (some t) (some p) row row' claim h =
    elim (Result-cases (match_claim row.plan.current_claim t (some p))) [
      | inl (c, held) ↦ ground (arith, held, h)
      | inr (e, failed) ↦ absurd (ground (arith, failed, h))
    ]

pub release_if_asked-IsQuiet :
    (token phase : Option String) (row row' : Row)
    → release_if_asked token phase row ≡ ok row'
    → IsQuiet row row'
unfolding release_if_asked
release_if_asked-IsQuiet none none row row' h = ground (arith, h)
release_if_asked-IsQuiet none (some p) row row' h =
    elim (Result-cases (release_in_txn none (some p) row)) [
      | inl ((c, r), done) ↦
          ground (arith, release_in_txn-IsQuiet none (some p) row r c done, done, h)
      | inr (e, failed) ↦ absurd (ground (arith, failed, h))
    ]
release_if_asked-IsQuiet (some t) phase row row' h =
    elim (Result-cases (release_in_txn (some t) phase row)) [
      | inl ((c, r), done) ↦
          ground (arith, release_in_txn-IsQuiet (some t) phase row r c done, done, h)
      | inr (e, failed) ↦ absurd (ground (arith, failed, h))
    ]

pub blocker_ids-set_answer :
    (now n : ℕ) (answer : String) (bs : List Blocker)
    → blocker_ids (set_answer now n answer bs) ≡ blocker_ids bs
unfolding set_answer
blocker_ids-set_answer now n answer [] = refl
blocker_ids-set_answer now n answer (b ∷ bs) =
    ground (arith, blocker_ids-set_answer now n answer bs)

pub blocker_ids-stamp_metadata :
    (n : ℕ) (channel metadata : String) (bs : List Blocker)
    → blocker_ids (stamp_metadata n channel metadata bs) ≡ blocker_ids bs
unfolding stamp_metadata
blocker_ids-stamp_metadata n channel metadata [] = refl
blocker_ids-stamp_metadata n channel metadata (b ∷ bs) =
    ground (arith, blocker_ids-stamp_metadata n channel metadata bs)

pub task_ids-complete_in :
    (now n : ℕ) (ts : List Task) → task_ids (complete_in now n ts) ≡ task_ids ts
unfolding complete_in
task_ids-complete_in now n [] = refl
task_ids-complete_in now n (t ∷ ts) = ground (arith, task_ids-complete_in now n ts)

pub blocker_ids-append :
    (bs : List Blocker) (b : Blocker) → blocker_ids (bs ++ b ∷ []) ≡ blocker_ids bs ++ b.id ∷ []
blocker_ids-append [] b = refl
blocker_ids-append (x ∷ bs) b = ap (λ r. x.id ∷ r) (blocker_ids-append bs b)

pub task_ids-append :
    (ts : List Task) (t : Task) → task_ids (ts ++ t ∷ []) ≡ task_ids ts ++ t.id ∷ []
task_ids-append [] t = refl
task_ids-append (x ∷ ts) t = ap (λ r. x.id ∷ r) (task_ids-append ts t)

pub length-blocker_ids : (bs : List Blocker) → length (blocker_ids bs) ≡ length bs
length-blocker_ids [] = refl
length-blocker_ids (b ∷ bs) = ap (λ n. suc n) (length-blocker_ids bs)

pub length-task_ids : (ts : List Task) → length (task_ids ts) ≡ length ts
length-task_ids [] = refl
length-task_ids (t ∷ ts) = ap (λ n. suc n) (length-task_ids ts)

id-update_blocker : (u : BlockerUpdate) (b : Blocker) → (update_blocker u b).id ≡ b.id
id-update_blocker consumed b = refl
id-update_blocker (last_repinged_at ts) b = refl

pub blocker_ids-update_blockers :
    (n : ℕ) (u : BlockerUpdate) (bs bs' : List Blocker)
    → update_blockers n u bs ≡ some bs'
    → blocker_ids bs' ≡ blocker_ids bs
unfolding update_blockers
blocker_ids-update_blockers n u [] bs' h = absurd (ground (arith, h))
blocker_ids-update_blockers n u (b ∷ bs) bs' h =
    let e = id-update_blocker u b in
    elim (Option-cases (update_blockers n u bs)) [
      | inl last ↦ ground (arith, e, last, h)
      | inr (more, found) ↦
          ground (arith, e, found, h, blocker_ids-update_blockers n u bs more found)
    ]
