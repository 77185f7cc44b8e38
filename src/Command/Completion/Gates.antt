-- ===== src/Command/Completion/Gates.antt =====
-- The gates of `cmd_complete` of end_of_line/cli.py: what their silence means.
use end_of_line.Shared.{
  String, none, some, Bool, true, false, ◌≡◌, ◌⊎◌, arith, inl, inr, Bool-cases, string_eq,
}
use end_of_line.State.{Plan, option_text_eq}
use end_of_line.Store.PlanOps.{stamped_sha}
use end_of_line.Command.{Surroundings, Settings}
use end_of_line.Command.Completion.{
  is_stale, needs_simplify, refusing_gate, head_sha, verify_kind, simplify_kind,
}

is_stale-fresh :
    (s : Surroundings) (kind : String) (plan : Plan)
    → is_stale s kind plan ≡ false
    → stamped_sha kind plan.current_claim ≡ some (head_sha s)
unfolding is_stale
is_stale-fresh s kind plan h = ground (arith, h)

-- Verification is skipped, not required, or stamped for the commit that HEAD is at; and the diff
-- is skipped, below the threshold, or attested for that commit.
abbrev pub IsAttested : Settings → Surroundings → Bool → Bool → Plan → Type 0
IsAttested settings s skip_verify skip_simplify plan =
    ((skip_verify ≡ true)
      ⊎ (settings.verify_required ≡ false)
      ⊎ (stamped_sha verify_kind plan.current_claim ≡ some (head_sha s)))
    × ((skip_simplify ≡ true)
        ⊎ (needs_simplify settings s plan ≡ false)
        ⊎ (stamped_sha simplify_kind plan.current_claim ≡ some (head_sha s)))

pub refusing_gate-none :
    (settings : Settings) (s : Surroundings) (skip_verify skip_simplify : Bool) (plan : Plan)
    → refusing_gate settings s skip_verify skip_simplify plan ≡ none
    → IsAttested settings s skip_verify skip_simplify plan
unfolding refusing_gate
refusing_gate-none settings s skip_verify skip_simplify plan h =
    let v = is_stale-fresh s verify_kind plan in
    let f = is_stale-fresh s simplify_kind plan in
    elim (Bool-cases (is_stale s verify_kind plan)) [
      | inl stale ↦ elim (Bool-cases (is_stale s simplify_kind plan)) [
        | inl old ↦ ground (arith, h, stale, old)
        | inr new ↦ ground (arith, h, stale, new, f new)
      ]
      | inr fresh ↦ elim (Bool-cases (is_stale s simplify_kind plan)) [
        | inl old ↦ ground (arith, h, fresh, v fresh, old)
        | inr new ↦ ground (arith, h, fresh, v fresh, new, f new)
      ]
    ]
