-- ===== src/Replies.antt =====
-- Replies of the operator: `route_reply` of end_of_line/notify_base.py and `find_blocker_for_reply` of
-- end_of_line/state_locator.py. A reply comes as what `REPLY_RE` finds in it, a slug or none and a
-- digit. `place` is the place of a timestamp's text in the order of texts, `none` the empty text.
pub mod Sorting
pub mod Routing
use end_of_line.Shared.{
  ℕ, String, Option, none, some, List, [], ◌∷◌, ◌++◌, Bool, true, false, not, ◌&&◌, map, filter,
  filter_map, length, if◌then◌else◌, ltb, ◌==◌, nat_eq, string_eq,
}
use end_of_line.State
use end_of_line.State.{Plan, Blocker, Event, Stamp, phase_blocked, kind_eq}
use end_of_line.State.Blockers.{open_blockers}
use end_of_line.Registry.{PlanEntry}

pub record OpenBlocker : Type 0 where
  pub project_root : String
  pub plan_slug : String
  pub blocker_id : ℕ
  pub options_count : ℕ
  pub last_notified_at : Option Stamp

abbrev pub place_of : (Option Stamp → ℕ) → OpenBlocker → ℕ
place_of place b = place b.last_notified_at

-- `eligible.sort(key=..., reverse=True)`, which keeps equal keys in their order.
unfoldable pub insert_later : (Option Stamp → ℕ) → OpenBlocker → List OpenBlocker → List OpenBlocker
insert_later place b [] = b ∷ []
insert_later place b (c ∷ rest) =
    let more = insert_later place b rest in
    if ltb (place_of place b) (place_of place c) then c ∷ more else b ∷ c ∷ rest

unfoldable pub latest_first : (Option Stamp → ℕ) → List OpenBlocker → List OpenBlocker
unfolding insert_later
latest_first place [] = []
latest_first place (b ∷ rest) = insert_later place b (latest_first place rest)

abbrev pub has_option : ℕ → OpenBlocker → Bool
has_option idx b = ltb idx b.options_count

-- The first of the sorted ones, where it does not tie with the second.
unfoldable pub untied : (Option Stamp → ℕ) → List OpenBlocker → Option OpenBlocker
untied place [] = none
untied place (b ∷ []) = some b
untied place (b ∷ c ∷ rest) = if place_of place b == place_of place c then none else some b

unfoldable pub pick_by_last_pinged : (Option Stamp → ℕ) → List OpenBlocker → ℕ → Option OpenBlocker
unfolding untied latest_first
pick_by_last_pinged place blockers idx =
    untied place (latest_first place (filter (has_option idx) blockers))

unfoldable pub with_slug : String → List OpenBlocker → Option OpenBlocker
with_slug slug [] = none
with_slug slug (b ∷ rest) =
    let later = with_slug slug rest in if b.plan_slug == slug then some b else later

-- The target of a reply; its answer is the digit.
unfoldable pub route_reply :
    (Option Stamp → ℕ) → Option (Option String × ℕ) → List OpenBlocker → Option OpenBlocker
unfolding with_slug pick_by_last_pinged
route_reply place none blockers = none
route_reply place (some (some slug, digit)) blockers = with_slug slug blockers
route_reply place (some (none, digit)) [] = none
route_reply place (some (none, digit)) (b ∷ []) = some b
route_reply place (some (none, digit)) (b ∷ c ∷ rest) =
    pick_by_last_pinged place (b ∷ c ∷ rest) digit

abbrev pub is_about : ℕ → Event → Bool
is_about n evt = elim evt.blocker_id [ none ↦ false | some m ↦ m == n ]

-- `last_by_blocker`: the time of the blocker's own last `phase_blocked` event.
unfoldable pub last_blocked : ℕ → List Event → Option Stamp
last_blocked n [] = none
last_blocked n (evt ∷ rest) =
    let later = last_blocked n rest in
    elim later [
      | some ts ↦ some ts
      | none ↦ if evt.kind == phase_blocked && is_about n evt then some evt.ts else none
    ]

abbrev pub hydrated : PlanEntry → Plan → Blocker → OpenBlocker
hydrated entry plan b = record {
  project_root = entry.project_root;
  plan_slug = entry.plan_slug;
  blocker_id = b.id;
  options_count = length b.options;
  last_notified_at = last_blocked b.id plan.events;
}

unfoldable pub hydrate_open_blockers : PlanEntry → Plan → List OpenBlocker
unfolding open_blockers last_blocked
hydrate_open_blockers entry plan = map (hydrated entry plan) (open_blockers plan)

-- The walk over the registry. `load` is the snapshot of an entry's plan, `none` where the project's
-- configuration or its store cannot be read.
unfoldable pub all_open : (PlanEntry → Option Plan) → List PlanEntry → List OpenBlocker
unfolding hydrate_open_blockers
all_open load [] = []
all_open load (entry ∷ rest) = elim (load entry) [
  | none ↦ all_open load rest
  | some plan ↦ hydrate_open_blockers entry plan ++ all_open load rest
]

-- The plan's path and root are those of the blocker's entry.
pub data LocatorResult : Type 0 where
  found : OpenBlocker → ℕ → LocatorResult
  ambiguous : List OpenBlocker → LocatorResult
  not_found : LocatorResult

-- Where `route_reply` has no answer.
unfoldable pub unrouted : Option (Option String × ℕ) → List OpenBlocker → LocatorResult
unrouted none blockers = not_found
unrouted (some (some slug, digit)) blockers = not_found
unrouted (some (none, digit)) blockers = elim (filter (has_option digit) blockers) [
  | [] ↦ not_found
  | b ∷ rest ↦ ambiguous (b ∷ rest)
]

unfoldable pub find_blocker_for_reply :
    (PlanEntry → Option Plan)
    → (Option Stamp → ℕ)
    → List PlanEntry
    → Option (Option String × ℕ)
    → LocatorResult
unfolding all_open route_reply unrouted
find_blocker_for_reply load place entries reply =
    let blockers = all_open load entries in
    elim (route_reply place reply blockers) [
      | none ↦ unrouted reply blockers
      | some b ↦ found b (elim reply [ none ↦ 0 | some (slug, digit) ↦ digit ])
    ]
