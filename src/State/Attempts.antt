-- ===== src/State/Attempts.antt =====
-- The projections of the event log in end_of_line/state.py: completed phases, the most recent event
-- of a kind, and the attempt budget of a phase with its resets and its forgiven deaths.
pub mod Budget
use end_of_line.Shared.{
  ℕ, zero, suc, ◌+◌, String, Option, none, some, List, [], ◌∷◌, Bool, true, false, ◌&&◌, ◌||◌, not,
  if◌then◌else◌, ◌==◌, string_eq, filter, filter_map, contains, drop, length, reverse,
}
use end_of_line.State.{
  Plan, Event, EventKind, phase_completed, phase_started, retry_requested, attempts_reset,
  systemic_failure, quota_death, phase_max_attempts, kind_eq, option_text_eq,
}
use end_of_line.State.Claims.{is_start_of}

abbrev completed_phase : Event → Option String
completed_phase evt = if evt.kind == phase_completed then evt.phase else none

unfoldable pub completed_phase_ids : Plan → List String
completed_phase_ids plan = filter_map completed_phase plan.events

abbrev is_latest : EventKind → Option String → Event → Bool
is_latest kind none evt = evt.kind == kind
is_latest kind (some phase) evt = evt.kind == kind && evt.phase == some phase

abbrev first_latest : EventKind → Option String → List Event → Option Event
first_latest kind phase [] = none
first_latest kind phase (evt ∷ rest) =
    if is_latest kind phase evt then some evt else first_latest kind phase rest

-- The scan runs over `reversed(data["events"])`.
unfoldable pub latest_event : EventKind → Option String → Plan → Option Event
latest_event kind phase plan = first_latest kind phase (reverse plan.events)

abbrev pub is_reset_of : String → Event → Bool
is_reset_of phase_id evt =
    (evt.kind == retry_requested || evt.kind == attempts_reset) && evt.phase == some phase_id

-- The loop over `enumerate(events)`: `cut` is `floor + 1`, the number of events before the floor.
unfoldable pub floor_loop : String → ℕ → ℕ → List Event → ℕ
floor_loop phase_id i cut [] = cut
floor_loop phase_id i cut (evt ∷ rest) =
    floor_loop phase_id (suc i) (if is_reset_of phase_id evt then suc i else cut) rest

abbrev pub forgiven_token : String → Event → Option String
forgiven_token phase_id evt =
    if (evt.kind == systemic_failure || evt.kind == quota_death) && evt.phase == some phase_id
    then elim evt.token [ none ↦ none | some t ↦ if t == "" then none else some t ]
    else none

unfoldable pub forgiven_tokens : String → List Event → List String
forgiven_tokens phase_id events = filter_map (forgiven_token phase_id) events

-- `evt.get("claimed_by") not in forgiven_tokens`
abbrev pub is_charged : List String → Option String → Bool
is_charged forgiven none = true
is_charged forgiven (some t) = not (contains t forgiven)

abbrev pub is_attempt : String → List String → Event → Bool
is_attempt phase_id forgiven evt =
    if is_start_of phase_id evt then is_charged forgiven evt.claimed_by else false

unfoldable pub attempts_in : String → List Event → ℕ
unfolding forgiven_tokens
attempts_in phase_id events =
    length (filter (is_attempt phase_id (forgiven_tokens phase_id events)) events)

unfoldable pub attempts_for_phase : Plan → String → ℕ
unfolding floor_loop attempts_in
attempts_for_phase plan phase_id =
    attempts_in phase_id (drop (floor_loop phase_id 0 0 plan.events) plan.events)

unfoldable pub most_recent_halted_phase : Plan → Option String
unfolding latest_event
most_recent_halted_phase plan = elim (latest_event phase_max_attempts none plan) [
  | none ↦ none
  | some evt ↦ evt.phase
]
