-- ===== src/Store/History/Handed.antt =====
-- One transaction of end_of_line/plan_store.py or one tick of end_of_line/supervisor.py hands no
-- claim from one worker to another.
use end_of_line.Shared.{
  ℕ, suc, String, Option, none, some, List, Bool, true, false, ◌≡◌, ◌≢◌, ◌⊎◌, sym, ap, subst, ◌∙◌,
  ok, arith, inl, inr, lookup, string_eq, ◌==◌, Bool-cases, Option-cases,
}
use end_of_line.State.{Plan, Claim, Event, Worktree, option_text_eq}
use end_of_line.Quota.{Pause}
use end_of_line.Store.{Row, Db}
use end_of_line.Store.Conditions.{holder}
use end_of_line.Store.Head.{op_set_fields}
use end_of_line.Store.Transaction.{PlanTxn, plan_txn, finish, insert_events, on_row_plan}
use end_of_line.Store.Transaction.Isolation.{plan_txn-ok, plan_txn-other}
use end_of_line.Store.ClaimOps.{
  Activity, op_heartbeat, op_activity, op_stamp_claim_fields, op_append_events, op_release_claim,
  op_stamp_attestation, op_extend_lease, activity_body,
}
use end_of_line.Store.PlanOps.{
  op_add_blocker, op_answer_blocker, op_stamp_blocker_metadata, op_spawn_task, op_complete_task,
  op_set_status, op_refuse_attestation, op_set_worktree, op_archive_events, create, stamp_metadata,
}
use end_of_line.Store.Apply.{apply_body, apply_tick_delta}
use end_of_line.Store.Apply.Effects.{apply_tick_delta-ok, claim_after}
use end_of_line.Supervisor.Delta.{Delta, is_empty}
use end_of_line.Supervisor.Work.{Config, World}
use end_of_line.Supervisor.Watchdogs.{gap_fill}
use end_of_line.Supervisor.Watchdogs.Frame.{gap_fill-Keeps}
use end_of_line.Supervisor.Tick.{Outcome, tick_on, apply, start, committed}
use end_of_line.Supervisor.Tick.Minting.{decide-Asks}
use end_of_line.Supervisor.Tick.Dispatch.{tick_dispatch, committed-action}
use end_of_line.Supervisor.Tick.Commit.{commit_cases, decision_on}
use end_of_line.Store.History.Steps.{Step, other_or_same}
use end_of_line.Store.History.Lawful.{create-steps}
use end_of_line.Store.History.Holder

-- The claim is kept, released, or was not held before.
abbrev pub Handed : Row → Row → Type 0
Handed row row' = Holder.KeepsHolder row row' ⊎ (holder row.plan.current_claim ≡ none)

-- The plan of that slug before and after.
abbrev pub HandsAt : Db → Db → Type 0
HandsAt db db' =
    (slug : String) (row row' : Row)
    → lookup slug db.plans ≡ some row
    → lookup slug db'.plans ≡ some row'
    → Handed row row'

unchanged-HandsAt : (db db' : Db) → db ≡ db' → HandsAt db db'
unchanged-HandsAt db db' e slug row row' h h' =
    let rows : row' ≡ row = cc (h, h', ap (λ d. lookup slug d.plans) e) in
    inl (inr (ap (λ r. holder r.plan.current_claim) rows))

MintsNone-HandsAt :
    {A : Type 0} (slug : String) (body : PlanTxn A) (db db' : Db) (a : A)
    → Holder.MintsNone body
    → plan_txn slug body db ≡ ok (a, db')
    → HandsAt db db'
MintsNone-HandsAt slug body db db' a mints t s row row' h h' = elim (other_or_same s slug) [
  | inr other ↦
      let rows : row' ≡ row = cc (h, h', plan_txn-other slug s body db db' a other t) in
      inl (inr (ap (λ r. holder r.plan.current_claim) rows))
  | inl y ↦
      let (old, new, found, ran, left) = plan_txn-ok slug body db db' a t in
      let kept =
        mints (record old { version = suc old.version }) new db.event_seq db'.event_seq a ran in
      let before : old ≡ row = cc (h, found, ap (λ k. lookup k db.plans) y) in
      let after : new ≡ row' = cc (h', left, ap (λ k. lookup k db'.plans) y) in
      subst (λ r. Handed r row') before (subst (Handed old) after (inl kept))
]

activity-HandsAt :
    (busy : Bool) (now : ℕ) (slug token phase : String) (action : Activity) (r : Bool) (db db' : Db)
    → op_activity busy now slug token phase action db ≡ ok (r, db')
    → HandsAt db db'
unfolding op_activity
activity-HandsAt true now slug token phase action r db db' h = unchanged-HandsAt db db' (cc h)
activity-HandsAt false now slug token phase action r db db' h =
    MintsNone-HandsAt slug (activity_body now token phase action) db db' r
      (Holder.activity_body-MintsNone now token phase action) h

metadata-MintsNone :
    (n : ℕ) (channel metadata : String)
    → Holder.MintsNone (λ row seq. ok (
      tt,
      on_row_plan (λ p. record p { blockers = stamp_metadata n channel metadata p.blockers }) row,
      seq,
    ))
metadata-MintsNone n channel metadata row row' seq seq' a h = inr (ground (arith, h))

worktree-MintsNone :
    (worktree : Option Worktree) (events : List Event)
    → Holder.MintsNone
        (λ row seq. finish tt events (on_row_plan (λ p. record p { worktree = worktree }) row) seq)
unfolding finish insert_events
worktree-MintsNone worktree events row row' seq seq' a h = inr (ground (arith, h))

create-HandsAt :
    (plan : Plan) (r : Unit {0}) (db db' : Db) → create plan db ≡ ok (r, db') → HandsAt db db'
create-HandsAt plan r db db' c slug row row' h h' =
    let (free, counted, found) = create-steps plan r db db' c in
    elim (Bool-cases (plan.plan_slug == slug)) [
      | inl y ↦ absurd (ground (arith, y, free, h))
      | inr n ↦ inl (inr (ground (arith, n, found slug, h, h')))
    ]

after-KeepsHolder :
    (now : ℕ) (minted : String) (delta : Delta) (before after : Option Claim)
    → delta.claim_phase ≡ none
    → after ≡ claim_after now minted delta delta.claim_phase before
    → (holder after ≡ none) ⊎ (holder after ≡ holder before)
after-KeepsHolder now minted delta before after unasked w = elim (Option-cases before) [
  | inl gone ↦ inl (ground (arith, unasked, gone, w))
  | inr (c, held) ↦
      ground (arith, unasked, held, w, Holder.holder-write_fields delta.claim_updates c)
]

tick_delta-HandsAt :
    (cfg : Config) (world : World) (seen : Plan) (pause : Option Pause) (db : Db) (o : Outcome)
    (token : Option String)
    → tick_on cfg world seen pause db ≡ ok o
    → o ≡ committed seen (decision_on cfg world seen pause) (token, o.db)
    → apply_tick_delta world.now world.minted seen.plan_slug
        (decision_on cfg world seen pause).work.delta
        db
      ≡ ok (token, o.db)
    → (row row' : Row) → lookup seen.plan_slug db.plans ≡ some row
    → lookup seen.plan_slug o.db.plans ≡ some row'
    → Handed row row'
unfolding start
tick_delta-HandsAt cfg world seen pause db o token ticked same ran row row' h h' =
    let d = decision_on cfg world seen pause in
    let w = gap_fill cfg world (start seen) in
    let (old, (new, (found, left, pre, written))) =
      apply_tick_delta-ok world.now world.minted seen.plan_slug d.work.delta db o.db token ran in
    let before : old ≡ row = cc (h, found) in
    let after : new ≡ row' = cc (h', left) in
    elim (decide-Asks cfg world pause w) [
      | inl asks ↦
          let unasked = asks ∙ (gap_fill-Keeps cfg world (start seen)).6 in
          subst (λ r. Handed r row') before
            (subst (Handed old) after (
              inl (
                after-KeepsHolder world.now world.minted d.work.delta old.plan.current_claim
                  new.plan.current_claim unasked written.0)))
      | inr acts ↦
          let action = ap (λ x. x.result.action) same ∙ committed-action seen d token o.db ∙ acts in
          let (phase, (due, free, id, (r, (r', (there, gone, now_free))))) =
            tick_dispatch cfg world seen pause db o ticked action in
          let rows : r ≡ row = cc (h, there) in
          inr (ap (λ x. holder x.plan.current_claim) (sym rows) ∙ ap holder now_free.0)
    ]

other_plan :
    (world : World) (seen : Plan) (delta : Delta) (db db' : Db) (token : Option String)
    (slug : String) (row row' : Row)
    → slug ≢ seen.plan_slug
    → apply_tick_delta world.now world.minted seen.plan_slug delta db ≡ ok (token, db')
    → lookup slug db.plans ≡ some row
    → lookup slug db'.plans ≡ some row'
    → Handed row row'
unfolding apply_tick_delta
other_plan world seen delta db db' token slug row row' other wrote h h' =
    let kept =
      plan_txn-other seen.plan_slug slug (apply_body world.now world.minted delta) db db' token
        other wrote in
    let rows : row' ≡ row = cc (h, h', kept) in
    inl (inr (ap (λ r. holder r.plan.current_claim) rows))

won :
    (cfg : Config) (world : World) (seen : Plan) (pause : Option Pause) (db : Db) (o : Outcome)
    (token : Option String)
    → tick_on cfg world seen pause db ≡ ok o
    → o ≡ committed seen (decision_on cfg world seen pause) (token, o.db)
    → apply world seen.plan_slug (decision_on cfg world seen pause).work.delta db ≡ ok (token, o.db)
    → HandsAt db o.db
unfolding apply
won cfg world seen pause db o token ticked same ran =
    let delta = (decision_on cfg world seen pause).work.delta in
    elim (Bool-cases (is_empty delta)) [
      | inl empty ↦ unchanged-HandsAt db o.db (ground (arith, empty, ran))
      | inr asked ↦ λ slug row row' h h'.
          let wrote : apply_tick_delta world.now world.minted seen.plan_slug delta db
              ≡ ok (token, o.db) =
            ground (arith, asked, ran) in
          elim (other_or_same slug seen.plan_slug) [
            | inr other ↦ other_plan world seen delta db o.db token slug row row' other wrote h h'
            | inl y ↦
                tick_delta-HandsAt cfg world seen pause db o token ticked same wrote row row'
                  (ap (λ k. lookup k db.plans) (sym y) ∙ h)
                  (ap (λ k. lookup k o.db.plans) (sym y) ∙ h')
          ]
    ]

tick-HandsAt :
    (cfg : Config) (world : World) (seen : Plan) (pause : Option Pause) (db : Db) (o : Outcome)
    → tick_on cfg world seen pause db ≡ ok o
    → HandsAt db o.db
unfolding tick_on
tick-HandsAt cfg world seen pause db o ticked =
    elim (commit_cases world seen (decision_on cfg world seen pause) db o ticked) [
      | inl (lost, q) ↦ unchanged-HandsAt db o.db (sym (ap (λ x. x.db) q))
      | inr (token, (db', (ran, q))) ↦
          let here : o.db ≡ db' = ap (λ x. x.db) q in
          let same =
            q ∙ ap (λ x. committed seen (decision_on cfg world seen pause) (token, x)) (sym here) in
          won cfg world seen pause db o token ticked same (ran ∙ ap (λ x. ok (token, x)) (sym here))
    ]

pub Step-HandsAt : {db db' : Db} → Step db db' → HandsAt db db'
unfolding op_heartbeat op_stamp_claim_fields op_append_events op_release_claim op_stamp_attestation
    op_extend_lease op_add_blocker op_answer_blocker op_stamp_blocker_metadata op_spawn_task
    op_complete_task op_set_status op_refuse_attestation op_set_fields op_set_worktree
    op_archive_events
Step-HandsAt (Step.heartbeat now slug token phase r h) =
    MintsNone-HandsAt slug _ _ _ r (Holder.heartbeat_body-MintsNone now token phase) h
Step-HandsAt (Step.activity busy now slug token phase action r h) =
    activity-HandsAt busy now slug token phase action r _ _ h
Step-HandsAt (Step.stamp_claim_fields slug token phase fields if_unset events r h) =
    MintsNone-HandsAt slug _ _ _ r (Holder.stamp_body-MintsNone token phase fields if_unset events)
      h
Step-HandsAt (Step.append_events slug events token phase r h) =
    MintsNone-HandsAt slug _ _ _ r (Holder.append_body-MintsNone events token phase) h
Step-HandsAt (Step.release_claim slug token phase events r h) =
    MintsNone-HandsAt slug _ _ _ r (Holder.release_body-MintsNone token phase events) h
Step-HandsAt (Step.stamp_attestation now slug token phase kind sha events r h) =
    MintsNone-HandsAt slug _ _ _ r (Holder.attest_body-MintsNone now token phase kind sha events) h
Step-HandsAt (Step.extend_lease now slug phase minutes r h) =
    MintsNone-HandsAt slug _ _ _ r (Holder.extend_body-MintsNone now phase minutes) h
Step-HandsAt (Step.add_blocker now slug phase_id question options context kind token phase r h) =
    MintsNone-HandsAt slug _ _ _ r
      (Holder.add_blocker_body-MintsNone now phase_id question options context kind token phase) h
Step-HandsAt (Step.answer_blocker now slug n raw r h) =
    MintsNone-HandsAt slug _ _ _ r (Holder.answer_body-MintsNone now n raw) h
Step-HandsAt (Step.stamp_blocker_metadata slug n channel metadata r h) =
    MintsNone-HandsAt slug _ _ _ r (metadata-MintsNone n channel metadata) h
Step-HandsAt (Step.spawn_task now slug source by status token phase r h) =
    MintsNone-HandsAt slug _ _ _ r (Holder.spawn_body-MintsNone now source by status token phase) h
Step-HandsAt (Step.complete_task now slug n token phase events r h) =
    MintsNone-HandsAt slug _ _ _ r (Holder.complete_task_body-MintsNone now n token phase events) h
Step-HandsAt (Step.set_status slug status events token phase r h) =
    MintsNone-HandsAt slug _ _ _ r (Holder.set_status_body-MintsNone status events token phase) h
Step-HandsAt (Step.refuse_attestation now slug phase gate head_sha r h) =
    MintsNone-HandsAt slug _ _ _ r (Holder.refuse_body-MintsNone now phase gate head_sha) h
Step-HandsAt (Step.set_fields slug fields names events r h) =
    MintsNone-HandsAt slug _ _ _ r (Holder.set_fields_body-MintsNone fields names events) h
Step-HandsAt (Step.set_worktree slug worktree events r h) =
    MintsNone-HandsAt slug _ _ _ r (worktree-MintsNone worktree events) h
Step-HandsAt (Step.archive_events slug r h) =
    MintsNone-HandsAt slug _ _ _ r Holder.archive_body-MintsNone h
Step-HandsAt (Step.create_plan plan r nb nt h) = create-HandsAt plan r _ _ h
Step-HandsAt {db} (Step.tick cfg world seen pause o h e) =
    subst (HandsAt db) e (tick-HandsAt cfg world seen pause db o h)
