-- ===== src/Registry.antt =====
-- The registry of the host's plans, end_of_line/registry.py: the rows of the `registry` table in
-- registration order. `resolve` is `Path.resolve` and `is_dir` is `Path.is_dir`.
pub mod Pairs
use end_of_line.Shared.{
  ℕ, zero, suc, ◌+◌, String, Option, none, some, List, [], ◌∷◌, ◌++◌, Bool, true, false, not, ◌&&◌,
  filter, any, length, if◌then◌else◌, ltb, ◌==◌, string_eq, Result, ok, err, invalid_slug,
  file_not_found,
}
use end_of_line.State.{Stamp, Plan, utcnow}
use end_of_line.State.Slug.{validate_slug}

pub record PlanEntry : Type 0 where
  pub project_root : String
  pub plan_slug : String
  pub registered_at : Stamp

abbrev pub is_pair : String → String → PlanEntry → Bool
is_pair root slug e = e.project_root == root && e.plan_slug == slug

abbrev pub is_other_pair : String → String → PlanEntry → Bool
is_other_pair root slug e = not (is_pair root slug e)

-- An unreadable host database reads as an empty registry.
unfoldable pub entries : Bool → List PlanEntry → List PlanEntry
entries readable table = if readable then table else []

abbrev in_project : (String → String) → String → PlanEntry → Bool
in_project resolve root e = resolve e.project_root == resolve root

unfoldable pub entries_for_project :
    (String → String) → Bool → String → List PlanEntry → List PlanEntry
unfolding entries
entries_for_project resolve readable root table =
    filter (in_project resolve root) (entries readable table)

-- `INSERT OR IGNORE` on the key of root and slug; false where the pair was there.
unfoldable pub register :
    (String → String)
    → (String → Bool)
    → ℕ
    → String
    → String
    → List PlanEntry
    → Result (Bool × List PlanEntry)
register resolve is_dir now root slug table =
    if validate_slug slug
    then (if is_dir (resolve root)
        then (if any (is_pair (resolve root) slug) table
            then ok (false, table)
            else ok (
              true,
              table
                  ++ record {
                    project_root = resolve root;
                    plan_slug = slug;
                    registered_at = utcnow now;
                  }
                    ∷ [],
            ))
        else err file_not_found)
    else err invalid_slug

unfoldable pub unregister :
    (String → String) → String → String → List PlanEntry → Bool × List PlanEntry
unregister resolve root slug table =
    (any (is_pair (resolve root) slug) table, filter (is_other_pair (resolve root) slug) table)

-- `_unregister_many`: the roots are taken as they stand in the table; returns how many rows went.
unfoldable pub unregister_many : List (String × String) → List PlanEntry → ℕ × List PlanEntry
unregister_many [] table = (0, table)
unregister_many ((root, slug) ∷ rest) table =
    let (n, left) = unregister_many rest (filter (is_other_pair root slug) table) in
    (length (filter (is_pair root slug) table) + n, left)

-- `_slug_is_running` of end_of_line/cli.py: `load` is `load_entry_state`.
unfoldable pub slug_is_running : (PlanEntry → Option Plan) → String → String → List PlanEntry → Bool
slug_is_running load slug root [] = false
slug_is_running load slug root (e ∷ rest) =
    let later = slug_is_running load slug root rest in
    if is_pair root slug e
    then elim (load e) [
      | none ↦ later
      | some plan ↦ elim plan.current_claim [ none ↦ later | some claim ↦ true ]
    ]
    else later
