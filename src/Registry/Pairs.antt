-- ===== src/Registry/Pairs.antt =====
-- Every pair of project and plan is registered at most once, and can be taken out again.
use end_of_line.Shared.{
  ℕ, String, List, [], ◌∷◌, ◌++◌, Bool, true, false, filter, any, if◌then◌else◌, string_eq, ◌≡◌,
  refl, ok, arith, inl, inr, Bool-cases,
}
use end_of_line.State.{utcnow}
use end_of_line.Registry.{PlanEntry, is_pair, is_other_pair, register, unregister}

-- No pair stands in the table twice.
abbrev pub AreOnce : List PlanEntry → Type 0
AreOnce [] = Unit {0}
AreOnce (e ∷ es) = (any (is_pair e.project_root e.plan_slug) es ≡ false) × AreOnce es

any-append_one :
    (p : PlanEntry → Bool) (xs : List PlanEntry) (y : PlanEntry)
    → any p (xs ++ y ∷ []) ≡ (if any p xs then true else p y)
any-append_one p [] y = ground arith
any-append_one p (x ∷ xs) y = ground (arith, any-append_one p xs y)

AreOnce-append :
    (xs : List PlanEntry) (y : PlanEntry)
    → any (is_pair y.project_root y.plan_slug) xs ≡ false
    → AreOnce xs
    → AreOnce (xs ++ y ∷ [])
AreOnce-append [] y h once = (refl, tt)
AreOnce-append (x ∷ xs) y h once = ground (
  arith,
  h,
  once,
  any-append_one (is_pair x.project_root x.plan_slug) xs y,
  AreOnce-append xs y (ground (arith, h)) once.1,
)

any-filter :
    (p q : PlanEntry → Bool) (xs : List PlanEntry) → any p xs ≡ false → any p (filter q xs) ≡ false
any-filter p q [] h = refl
any-filter p q (x ∷ xs) h = ground (arith, h, any-filter p q xs)

AreOnce-filter : (q : PlanEntry → Bool) (xs : List PlanEntry) → AreOnce xs → AreOnce (filter q xs)
AreOnce-filter q [] once = tt
AreOnce-filter q (x ∷ xs) once = ground (
  arith,
  once,
  AreOnce-filter q xs once.1,
  any-filter (is_pair x.project_root x.plan_slug) q xs once.0,
)

filter-other :
    (root slug : String) (xs : List PlanEntry)
    → any (is_pair root slug) xs ≡ false
    → filter (is_other_pair root slug) xs ≡ xs
filter-other root slug [] h = refl
filter-other root slug (x ∷ xs) h = ground (arith, h, filter-other root slug xs)

filter-other_append :
    (root slug : String) (xs : List PlanEntry) (y : PlanEntry)
    → is_pair root slug y ≡ true
    → any (is_pair root slug) xs ≡ false
    → filter (is_other_pair root slug) (xs ++ y ∷ []) ≡ xs
filter-other_append root slug [] y h none = ground (arith, h)
filter-other_append root slug (x ∷ xs) y h none =
    ground (arith, h, none, filter-other_append root slug xs y h)

-- The conclusion of `register-unregister`.
abbrev pub IsUndone :
    (String → String) → String → String → Bool → List PlanEntry → List PlanEntry → Type 0
IsUndone resolve root slug true table table' = unregister resolve root slug table' ≡ (true, table)
IsUndone resolve root slug false table table' = table' ≡ table

-- A registration keeps the table without doubles, and an `unregister` of the same root and slug
-- undoes it: a pair that was new goes again and leaves the table as it was, row by row in order; of
-- a pair that was there already nothing is added.
pub register-unregister :
    (resolve : String → String) (is_dir : String → Bool) (now : ℕ) (root slug : String)
    (fresh : Bool) (table table' : List PlanEntry)
    → AreOnce table
    → register resolve is_dir now root slug table ≡ ok (fresh, table')
    → AreOnce table' × IsUndone resolve root slug fresh table table'
unfolding register unregister
register-unregister resolve is_dir now root slug true table table' once h =
    let row : PlanEntry = record {
      project_root = resolve root;
      plan_slug = slug;
      registered_at = utcnow now;
    } in
    elim (Bool-cases (any (is_pair (resolve root) slug) table)) [
      | inl there ↦ absurd (ground (arith, h, there))
      | inr absent ↦
          let added : table' ≡ table ++ row ∷ [] = ground (arith, h, absent) in
          (
            rw added (AreOnce-append table row absent once),
            rw added (
                ground (
                  arith,
                  filter-other_append (resolve root) slug table row (ground arith) absent,
                  any-append_one (is_pair (resolve root) slug) table row,
                )),
          )
    ]
register-unregister resolve is_dir now root slug false table table' once h =
    let same : table' ≡ table = ground (arith, h) in (rw same once, same)
