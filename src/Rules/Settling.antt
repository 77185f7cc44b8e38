-- ===== src/Rules/Settling.antt =====
-- The announcement of end_of_line/cross_plan_rules.py's `ready_to_ship_rule` is made once for each tip
-- of a branch.
use end_of_line.Shared.{
  String, none, some, List, [], false, ◌≡◌, if◌then◌else◌, ◌==◌, string_eq, ok, lookup, insert,
  lookup-insert, arith, Option-cases, inl, inr,
}
use text.Mathlib.TextEquality.{eq_iff}
use end_of_line.State
use end_of_line.State.{Plan, Worktree, Extra, status_eq, option_text_eq}
use end_of_line.Store.Head.{set_head_fields}
use end_of_line.Rules.{ProjectPlan}
use end_of_line.Rules.Shipping.{Git, shippable, announcement}

announced-insert :
    (v : Extra) (m : List (String × Extra))
    → (lookup "ready_to_ship_announced" (insert "ready_to_ship_announced" v m) ≡ some v)
      × (lookup "ship_pending" (insert "ready_to_ship_announced" v m) ≡ lookup "ship_pending" m)
announced-insert v m = (
  ground (
    arith,
    lookup-insert "ready_to_ship_announced" "ready_to_ship_announced" v m,
    eq_iff "ready_to_ship_announced" "ready_to_ship_announced",
  ),
  ground (
    arith,
    lookup-insert "ready_to_ship_announced" "ship_pending" v m,
    eq_iff "ready_to_ship_announced" "ship_pending",
  ),
)

-- Where a plan's branch tip was announced and the announcement is stamped, the rule is silent about
-- the plan as long as the tip stays, and announces it again, by the new tip, once the worker has
-- pushed; the branch is still unmerged then.
pub ready_to_ship_once :
    (git later : Git) (p : ProjectPlan) (wt : Worktree) (slug sha sha' : String) (stamped : Plan)
    → p.state.worktree ≡ some wt
    → shippable git p ≡ some (slug, sha)
    → set_head_fields (announcement (slug, sha)).1 [] p.state ≡ ok stamped
    → later.is_branch_merged wt.branch ≡ false
    → later.rev_parse wt.branch ≡ some sha'
    → shippable later (record p { state = stamped })
      ≡ (if sha == sha' then none else some (slug, sha'))
unfolding shippable set_head_fields
ready_to_ship_once git later p wt slug sha sha' stamped tree due wrote unmerged tip =
    let facts = announced-insert (State.branch_sha sha) p.state.extra in
    let moved : stamped ≡ record p.state {
      extra = insert "ready_to_ship_announced" (State.branch_sha sha) p.state.extra;
    } =
      ground (arith, wrote) in
    elim (Option-cases (git.rev_parse wt.branch)) [
      | inl gone ↦ absurd (ground (arith, tree, due, gone))
      | inr (now_tip, here) ↦ rw moved (ground (arith, tree, due, here, facts, unmerged, tip))
    ]
