-- ===== src/Store/History/Lawful.antt =====
-- Each transaction of end_of_line/plan_store.py, and each tick of end_of_line/supervisor.py, is a
-- lawful step of the store.
use end_of_line.Shared.{
  ℕ, ◌+◌, String, Option, none, some, List, [], Bool, true, false, ◌≡◌, refl, sym, ap, subst, ◌∙◌,
  length, ok, arith, inl, inr, lookup, insert, lookup-insert, string_eq, if◌then◌else◌, ◌==◌,
  Bool-cases, Option-cases,
}
use end_of_line.State.{Plan, Event, Worktree, option_text_eq}
use end_of_line.State.Slug.{validate_slug}
use end_of_line.Quota.{Pause}
use end_of_line.Store.{Row, Db, stamp_events}
use end_of_line.Store.Head.{op_set_fields}
use end_of_line.Store.Transaction.{insert_events, finish, on_row_plan}
use end_of_line.Store.ClaimOps.{
  op_heartbeat, op_activity, op_stamp_claim_fields, op_append_events, op_release_claim,
  op_stamp_attestation, op_extend_lease, activity_body,
}
use end_of_line.Store.PlanOps.{
  op_add_blocker, op_answer_blocker, op_stamp_blocker_metadata, op_spawn_task, op_complete_task,
  op_set_status, op_refuse_attestation, op_set_worktree, op_archive_events, create, stamp_metadata,
}
use end_of_line.Supervisor.Delta.{Delta, is_empty}
use end_of_line.Supervisor.Work.{Config, World}
use end_of_line.Supervisor.Tick.{Outcome, tick_on, apply}
use end_of_line.Supervisor.Tick.Commit.{tick_atomic, decision_on}
use end_of_line.Store.Apply.{apply_tick_delta, apply_body}
use end_of_line.Store.History.{blocker_ids, task_ids, IsNumbered}
use end_of_line.Store.History.Order.{IsSoundRow, stamp_events-IsRising, IsRising-lower}
use end_of_line.Store.History.Growth.{Extends-quiet, Extends-transport, blocker_ids-stamp_metadata}
use end_of_line.Store.History.ClaimBodies.{
  Keeps, finish-quiet, heartbeat_body-Keeps, activity_body-Keeps, stamp_body-Keeps,
  append_body-Keeps, release_body-Keeps, attest_body-Keeps, extend_body-Keeps,
}
use end_of_line.Store.History.PlanBodies.{
  add_blocker_body-Keeps, answer_body-Keeps, spawn_body-Keeps, complete_task_body-Keeps,
  set_status_body-Keeps, refuse_body-Keeps, archive_body-Keeps, set_fields_body-Keeps,
}
use end_of_line.Store.History.TickBody.{apply_body-Keeps}
use end_of_line.Store.History.Steps.{
  Step, Change, same, created, IsLawful, Keeps-IsLawful, unchanged-IsLawful, other_or_same,
}

activity-IsLawful :
    (busy : Bool) (now : ℕ) (slug token phase : String) (action : _) (r : Bool) (db db' : Db)
    → op_activity busy now slug token phase action db ≡ ok (r, db')
    → IsLawful db db'
unfolding op_activity
activity-IsLawful true now slug token phase action r db db' h = unchanged-IsLawful db db' (cc h)
activity-IsLawful false now slug token phase action r db db' h =
    Keeps-IsLawful slug (activity_body now token phase action) db db' r
      (activity_body-Keeps now token phase action) h

metadata-Keeps :
    (n : ℕ) (channel metadata : String)
    → Keeps (λ row seq. ok (
      tt,
      on_row_plan (λ p. record p { blockers = stamp_metadata n channel metadata p.blockers }) row,
      seq,
    ))
metadata-Keeps n channel metadata row row' seq seq' a h = Extends-transport (cc h) (cc h) (
    Extends-quiet row
      (on_row_plan (λ p. record p { blockers = stamp_metadata n channel metadata p.blockers }) row)
      seq
      (record {
        logged = refl;
        blockers = blocker_ids-stamp_metadata n channel metadata row.plan.blockers;
        tasks = refl;
      }))

worktree-Keeps :
    (worktree : Option Worktree) (events : List Event)
    → Keeps
        (λ row seq. finish tt events (on_row_plan (λ p. record p { worktree = worktree }) row) seq)
worktree-Keeps worktree events row row' seq seq' a h =
    finish-quiet tt a row (on_row_plan (λ p. record p { worktree = worktree }) row) row' seq seq'
      events (record { logged = refl; blockers = refl; tasks = refl }) h

-- The rows of a plan that was just created.
abbrev fresh_row : Plan → Row
fresh_row plan = record { plan = record plan { events = [] }; version = 0; archived = [] }

abbrev created_row : Plan → ℕ → Row
created_row plan seq = (insert_events plan.events (fresh_row plan) seq).0

created_row-IsSoundRow :
    (plan : Plan) (seq : ℕ)
    → plan.blockers ≡ []
    → plan.spawned_tasks ≡ []
    → IsSoundRow (seq + length plan.events) (created_row plan seq)
unfolding insert_events
created_row-IsSoundRow plan seq nb nt = record {
  ordered =
      IsRising-lower 0 seq (seq + length plan.events) (stamp_events seq plan.events) (omega arith)
        (stamp_events-IsRising seq plan.events);
  blockers = subst (λ bs. IsNumbered 0 (blocker_ids bs)) (sym nb) tt;
  tasks = subst (λ ts. IsNumbered 0 (task_ids ts)) (sym nt) tt;
}

pub create-steps :
    (plan : Plan) (r : Unit {0}) (db db' : Db)
    → create plan db ≡ ok (r, db')
    → (lookup plan.plan_slug db.plans ≡ none)
      × (db'.event_seq ≡ db.event_seq + length plan.events)
      × ((slug : String)
          → lookup slug db'.plans ≡ (
              if plan.plan_slug == slug
              then some (created_row plan db.event_seq)
              else lookup slug db.plans))
unfolding create insert_events
create-steps plan r db db' h = elim (Bool-cases (validate_slug plan.plan_slug)) [
  | inr bad ↦ absurd (ground (arith, bad, h))
  | inl good ↦ elim (Option-cases (lookup plan.plan_slug db.plans)) [
    | inr (row, taken) ↦ absurd (ground (arith, good, taken, h))
    | inl free ↦ (
      free,
      ground (arith, good, free, h),
      λ slug.
          let row = created_row plan db.event_seq in
          let e : db'.plans ≡ insert plan.plan_slug row db.plans = ground (arith, good, free, h) in
          ap (lookup slug) e ∙ lookup-insert plan.plan_slug slug row db.plans,
    )
  ]
]

create-IsLawful :
    (plan : Plan) (r : Unit {0}) (db db' : Db)
    → plan.blockers ≡ []
    → plan.spawned_tasks ≡ []
    → create plan db ≡ ok (r, db')
    → IsLawful db db'
create-IsLawful plan r db db' nb nt h =
    let (free, counted, found) = create-steps plan r db db' h in
    record {
      counted = omega (arith, counted);
      changed = λ slug. elim (other_or_same slug plan.plan_slug) [
        | inr other ↦ same (ground (arith, found slug, other))
        | inl y ↦
            subst (λ s. Change s db db') (sym y)
              (created (created_row plan db.event_seq) free (ground (arith, found plan.plan_slug)) (
                subst (λ n. IsSoundRow n (created_row plan db.event_seq)) (sym counted)
                  (created_row-IsSoundRow plan db.event_seq nb nt)))
      ];
    }

apply-IsLawful :
    (world : World) (slug : String) (delta : Delta) (db db' : Db) (token : Option String)
    → apply world slug delta db ≡ ok (token, db')
    → IsLawful db db'
unfolding apply apply_tick_delta
apply-IsLawful world slug delta db db' token h = elim (Bool-cases (is_empty delta)) [
  | inl empty ↦ unchanged-IsLawful db db' (ground (arith, empty, h))
  | inr asked ↦
      Keeps-IsLawful slug (apply_body world.now world.minted delta) db db' token
        (apply_body-Keeps world.now world.minted delta) (ground (arith, asked, h))
]

tick-IsLawful :
    (cfg : Config) (world : World) (seen : Plan) (pause : Option Pause) (db : Db) (o : Outcome)
    → tick_on cfg world seen pause db ≡ ok o
    → IsLawful db o.db
tick-IsLawful cfg world seen pause db o h = elim (tick_atomic cfg world seen pause db o h) [
  | inl lost ↦ unchanged-IsLawful db o.db (sym lost.2)
  | inr (token, won) ↦
      apply-IsLawful world seen.plan_slug (decision_on cfg world seen pause).work.delta db o.db
        token won.0
]

pub Step-IsLawful : {db db' : Db} → Step db db' → IsLawful db db'
unfolding op_heartbeat op_stamp_claim_fields op_append_events op_release_claim op_stamp_attestation
    op_extend_lease op_add_blocker op_answer_blocker op_stamp_blocker_metadata op_spawn_task
    op_complete_task op_set_status op_refuse_attestation op_set_fields op_set_worktree
    op_archive_events
Step-IsLawful (Step.heartbeat now slug token phase r h) =
    Keeps-IsLawful slug _ _ _ r (heartbeat_body-Keeps now token phase) h
Step-IsLawful (Step.activity busy now slug token phase action r h) =
    activity-IsLawful busy now slug token phase action r _ _ h
Step-IsLawful (Step.stamp_claim_fields slug token phase fields if_unset events r h) =
    Keeps-IsLawful slug _ _ _ r (stamp_body-Keeps token phase fields if_unset events) h
Step-IsLawful (Step.append_events slug events token phase r h) =
    Keeps-IsLawful slug _ _ _ r (append_body-Keeps events token phase) h
Step-IsLawful (Step.release_claim slug token phase events r h) =
    Keeps-IsLawful slug _ _ _ r (release_body-Keeps token phase events) h
Step-IsLawful (Step.stamp_attestation now slug token phase kind sha events r h) =
    Keeps-IsLawful slug _ _ _ r (attest_body-Keeps now token phase kind sha events) h
Step-IsLawful (Step.extend_lease now slug phase minutes r h) =
    Keeps-IsLawful slug _ _ _ r (extend_body-Keeps now phase minutes) h
Step-IsLawful (Step.add_blocker now slug phase_id question options context kind token phase r h) =
    Keeps-IsLawful slug _ _ _ r
      (add_blocker_body-Keeps now phase_id question options context kind token phase) h
Step-IsLawful (Step.answer_blocker now slug n raw r h) =
    Keeps-IsLawful slug _ _ _ r (answer_body-Keeps now n raw) h
Step-IsLawful (Step.stamp_blocker_metadata slug n channel metadata r h) =
    Keeps-IsLawful slug _ _ _ r (metadata-Keeps n channel metadata) h
Step-IsLawful (Step.spawn_task now slug source by status token phase r h) =
    Keeps-IsLawful slug _ _ _ r (spawn_body-Keeps now source by status token phase) h
Step-IsLawful (Step.complete_task now slug n token phase events r h) =
    Keeps-IsLawful slug _ _ _ r (complete_task_body-Keeps now n token phase events) h
Step-IsLawful (Step.set_status slug status events token phase r h) =
    Keeps-IsLawful slug _ _ _ r (set_status_body-Keeps status events token phase) h
Step-IsLawful (Step.refuse_attestation now slug phase gate head_sha r h) =
    Keeps-IsLawful slug _ _ _ r (refuse_body-Keeps now phase gate head_sha) h
Step-IsLawful (Step.set_fields slug fields names events r h) =
    Keeps-IsLawful slug _ _ _ r (set_fields_body-Keeps fields names events) h
Step-IsLawful (Step.set_worktree slug worktree events r h) =
    Keeps-IsLawful slug _ _ _ r (worktree-Keeps worktree events) h
Step-IsLawful (Step.archive_events slug r h) = Keeps-IsLawful slug _ _ _ r archive_body-Keeps h
Step-IsLawful (Step.create_plan plan r nb nt h) = create-IsLawful plan r _ _ nb nt h
Step-IsLawful (Step.tick cfg world seen pause o h e) =
    subst (IsLawful _) e (tick-IsLawful cfg world seen pause _ o h)
