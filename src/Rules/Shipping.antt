-- ===== src/Rules/Shipping.antt =====
-- `ready_to_ship_rule` and `auto_archive_rule` of end_of_line/cross_plan_rules.py.
use end_of_line.Shared.{
  String, Option, none, some, List, [], ◌∷◌, Bool, false, not, ◌&&◌, map, filter_map, if◌then◌else◌,
  ◌==◌, string_eq, lookup,
}
use end_of_line.State
use end_of_line.State.{
  Plan, Event, Status, Stamp, Extra, text, num, running, done, halted, halted_for_replan, paused,
  queue_popped, empty_state, status_eq, option_text_eq,
}
use end_of_line.Store.Head.{HeadField}
use end_of_line.Rules.{ProjectPlan, ready_to_ship, plan_auto_archived, RuleResult, plain_result}

-- What git says of a branch: merged into the main branch or not, and its tip where it has one.
pub record Git : Type 0 where
  pub is_branch_merged : String → Bool
  pub rev_parse : String → Option String

abbrev announced_sha : Option Extra → Option String
announced_sha (some (State.branch_sha sha)) = some sha
announced_sha _ = none

-- `p.state.get("ship_pending")`
abbrev is_ship_pending : Option Extra → Bool
is_ship_pending (some (State.pending t)) = not (t == "")
is_ship_pending _ = false

-- The branch tip to announce for one plan.
unfoldable pub shippable : Git → ProjectPlan → Option (String × String)
shippable git p = elim p.state.worktree [
  | none ↦ none
  | some wt ↦
      if p.state.status == done
        && not (git.is_branch_merged wt.branch)
        && not (is_ship_pending (lookup "ship_pending" p.state.extra))
      then elim (git.rev_parse wt.branch) [
        | none ↦ none
        | some sha ↦
            if announced_sha (lookup "ready_to_ship_announced" p.state.extra) == some sha
            then none
            else some (p.slug, sha)
      ]
      else none
]

abbrev pub announcement : String × String → String × List HeadField
announcement (slug, sha) =
    (slug, HeadField.extra "ready_to_ship_announced" (State.branch_sha sha) ∷ [])

unfoldable pub ready_to_ship_rule : Git → List ProjectPlan → Option RuleResult
unfolding shippable
ready_to_ship_rule git plans = elim (filter_map (shippable git) plans) [
  | [] ↦ none
  | e ∷ es ↦
      some
        (record (plain_result "ready_to_ship"
          (ready_to_ship (map (λ (x : String × String). x.0) (e ∷ es)) ∷ [])) {
            field_updates_per_plan = map announcement (e ∷ es);
          })
]

-- The first merged plan that can be archived; `archived` says whether `_perform_archive` of a slug
-- returns.
unfoldable pub auto_archive_rule :
    Bool → Git → (String → Bool) → List ProjectPlan → Option RuleResult
auto_archive_rule enabled git archived [] = none
auto_archive_rule enabled git archived (p ∷ rest) =
    let later = auto_archive_rule enabled git archived rest in
    elim p.state.worktree [
      | none ↦ later
      | some wt ↦
          if enabled && p.state.status == done && git.is_branch_merged wt.branch && archived p.slug
          then some (plain_result "auto_archive" (plan_auto_archived p.slug wt.branch ∷ []))
          else later
    ]
