-- ===== src/Command/Completion/Finished.antt =====
-- A worker that holds its claim and passes the gates gets its completion recorded.
use end_of_line.Shared.{
  String, Option, none, some, List, Bool, true, ◌≡◌, subst, arith, inl, inr, ok, lookup, string_eq,
  all, Result-cases,
}
use end_of_line.State.{Plan, Claim, Event}
use end_of_line.State.Slug.{validate_slug}
use end_of_line.State.Claims.{assert_claim_match}
use end_of_line.Store.{Row, Db}
use end_of_line.Store.Transaction.{plan_txn, match_claim, release_in_txn, finish}
use end_of_line.Store.ClaimOps.{op_release_claim, release_body}
use end_of_line.Store.PlanOps.{snapshot}
use end_of_line.Command.{Outcome, Surroundings, Settings}
use end_of_line.Command.Exit.{ExitCode}
use end_of_line.Command.Completion.{
  cmd_complete, complete_matched, completion_events, refusing_gate, wrap_up,
}
use end_of_line.Command.Completion.Decided.{IsReleased, op_release_claim-IsReleased}

pub op_release_claim-ok :
    (slug token phase : String) (events : List Event) (db : Db) (row : Row) (c : Claim)
    → validate_slug slug ≡ true
    → lookup slug db.plans ≡ some row
    → match_claim row.plan.current_claim token (some phase) ≡ ok c
    → (released : Option Claim) × ((db' : Db) × (op_release_claim slug
            (some token)
            (some phase)
            events
            db
          ≡ ok (released, db')))
unfolding op_release_claim release_body release_in_txn finish plan_txn
op_release_claim-ok slug token phase events db row c valid found holds =
    elim (Result-cases (op_release_claim slug (some token) (some phase) events db)) [
      | inr (e, failed) ↦ absurd (ground (arith, valid, found, holds, failed))
      | inl ((released, db'), wrote) ↦ (released, (db', wrote))
    ]

-- The completion of a phase goes through: where the plan has no worktree, the commits are known, the
-- snapshot shows the worker's claim, no gate refuses, and the claim is the worker's still when the
-- write runs, the command returns with the exit code 0, the claim is released, and the completion's
-- events stand behind the log.
pub cmd_complete_finishes :
    (settings : Settings) (s : Surroundings) (slug token phase : String) (commits : List String)
    (skip_verify skip_simplify : Bool) (others : Db → Db) (seen : Plan) (before current : Db)
    (row : Row) (c : Claim)
    → validate_slug slug ≡ true
    → all s.known_sha commits ≡ true
    → snapshot slug before ≡ ok seen
    → assert_claim_match seen.current_claim token phase ≡ ok tt
    → refusing_gate settings s skip_verify skip_simplify seen ≡ none
    → seen.worktree ≡ none
    → lookup slug current.plans ≡ some row
    → match_claim row.plan.current_claim token (some phase) ≡ ok c
    → (o : Outcome) × ((cmd_complete settings s slug token phase commits skip_verify skip_simplify
            others before current
          ≡ ok o)
        × (o.code ≡ ExitCode.ok)
        × IsReleased slug token phase
            (completion_events settings s.now phase commits skip_verify skip_simplify)
            current
            o.db)
unfolding cmd_complete complete_matched wrap_up
cmd_complete_finishes settings s slug token phase commits skip_verify skip_simplify others seen
      before current row c valid known saw matched passes bare found holds =
    let events = completion_events settings s.now phase commits skip_verify skip_simplify in
    let (released, (db', wrote)) =
      op_release_claim-ok slug token phase events current row c valid found holds in
    elim (Result-cases (wrap_up settings s slug token phase others seen db')) [
      | inr (e, failed) ↦ absurd (ground (arith, bare, failed))
      | inl (o, wrapped) ↦
          let here : db' ≡ o.db = ground (arith, bare, wrapped) in
          (
            o,
            (
              ground (arith, known, saw, matched, passes, wrote, wrapped),
              ground (arith, bare, wrapped),
              subst (IsReleased slug token phase events current) here
                  (op_release_claim-IsReleased slug token phase events current db' released wrote),
            ),
          )
    ]
