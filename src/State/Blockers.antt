-- ===== src/State/Blockers.antt =====
-- Blockers: end_of_line/state.py's list operations and end_of_line/state_blocker.py's pure machine.
pub mod Answers
use Prim.Native.Char.{code}
use end_of_line.Shared.{
  ℕ, zero, suc, ◌+◌, ◌-◌, ◌*◌, ◌/◌, String, Option, none, some, List, [], ◌∷◌, ◌++◌, Bool, true,
  false, ◌&&◌, ◌||◌, not, if◌then◌else◌, ltb, leb, ◌==◌, nat_eq, string_eq, filter, filter_map,
  length, get_elem?, any, Result, ok, err, key_error,
}
use end_of_line.State
use end_of_line.State.{
  Plan, Blocker, Event, EventKind, Status, Stamp, running, phase_blocked, blocker_answered,
  blocker_consumed, minute, utcnow, parse_iso, Value, text,
}
use end_of_line.State.Claims.{append_event}

abbrev pub new_blocker : ℕ → ℕ → String → String → List String → String → String → Blocker
new_blocker now n phase_id question options context kind = record {
  id = n;
  phase_id = phase_id;
  kind = kind;
  question = question;
  options = options;
  context = context;
  asked_at = utcnow now;
  answer = none;
  answered_at = none;
  consumed = false;
  last_repinged_at = none;
  notify_metadata = [];
}

abbrev pub blocked_event : ℕ → String → ℕ → String → Event
blocked_event now phase_id n question = record (State.event now phase_blocked) {
  phase = some phase_id;
  blocker_id = some n;
  fields = ("question", text question) ∷ [];
}

unfoldable pub add_blocker : ℕ → String → String → List String → String → String → Plan → ℕ × Plan
unfolding append_event
add_blocker now phase_id question options context kind plan =
    let n = length plan.blockers + 1 in
    let added = record plan {
      blockers = plan.blockers ++ new_blocker now n phase_id question options context kind ∷ [];
    } in
    (n, append_event (blocked_event now phase_id n question) added)

abbrev pub is_unanswered : Blocker → Bool
is_unanswered b = elim b.answer [ none ↦ true | some _ ↦ false ]

-- The loop of `answer_blocker`: the first unanswered blocker of that id; `none` is its KeyError.
unfoldable pub answer_first : ℕ → ℕ → String → List Blocker → Option (List Blocker)
answer_first now n answer [] = none
answer_first now n answer (b ∷ rest) =
    let later = answer_first now n answer rest in
    if b.id == n && is_unanswered b
    then some (record b { answer = some answer; answered_at = some (utcnow now) } ∷ rest)
    else elim later [ none ↦ none | some more ↦ some (b ∷ more) ]

abbrev pub answered_event : ℕ → ℕ → String → Event
answered_event now n answer = record (State.event now blocker_answered) {
  blocker_id = some n;
  fields = ("answer", text answer) ∷ [];
}

unfoldable pub answer_blocker : ℕ → ℕ → String → Plan → Result Plan
unfolding answer_first append_event
answer_blocker now n answer plan = elim (answer_first now n answer plan.blockers) [
  | none ↦ err key_error
  | some blockers ↦
      ok (append_event (answered_event now n answer) (record plan { blockers = blockers }))
]

-- `int(raw)` of a text of digits; `none` where a character is no digit.
unfoldable pub digits : ℕ → String → Option ℕ
digits n String.[] = some n
digits n (String.◌∷◌ ch rest) =
    let c = code ch in
    let more = digits (n * 10 + (c - b'0')) rest in if leb b'0' c && leb c b'9' then more else none

-- `raw.isdigit()` and then `int(raw)`; the empty text is no index.
unfoldable pub parse_index : String → Option ℕ
unfolding digits
parse_index String.[] = none
parse_index (String.◌∷◌ ch rest) = digits 0 (String.◌∷◌ ch rest)

-- `_resolve_answer` of plan_store.py: an index in range stands for its option, all else is kept.
unfoldable pub resolve_answer : List String → String → String
unfolding parse_index
resolve_answer options raw = elim (parse_index raw) [
  | none ↦ raw
  | some i ↦ elim (get_elem? options i) [ none ↦ raw | some option ↦ option ]
]

unfoldable pub open_blockers : Plan → List Blocker
open_blockers plan = filter is_unanswered plan.blockers

unfoldable pub phase_has_open_blocker : Plan → String → Bool
unfolding open_blockers
phase_has_open_blocker plan phase_id = any (λ b. b.phase_id == phase_id) (open_blockers plan)

abbrev pub is_newly_answered : Blocker → Bool
is_newly_answered b = not (is_unanswered b) && not b.consumed

-- The `(EVENT_BLOCKER_CONSUMED, id)` pairs, by their ids, and the status to flip to.
unfoldable pub process_answered_blockers : Plan → List ℕ × Option Status
process_answered_blockers plan =
    let ids = filter_map (λ b. if is_newly_answered b then some b.id else none) plan.blockers in
    (ids, elim ids [ [] ↦ none | i ∷ rest ↦ some running ])

abbrev pub stuck_threshold : ℕ
stuck_threshold = 30 * minute

-- An unreadable `last_repinged_at` counts as never re-pinged.
abbrev pub pinged_recently : ℕ → Option Stamp → Bool
pinged_recently now none = false
pinged_recently now (some ts) = elim (parse_iso ts) [
  | none ↦ false
  | some last ↦ ltb now (last + stuck_threshold)
]

abbrev pub needs_reping : ℕ → Blocker → Bool
needs_reping now b =
    if b.consumed || not (is_unanswered b) then false else elim (parse_iso b.asked_at) [
      | none ↦ false
      | some created ↦
          if ltb now (created + stuck_threshold)
          then false
          else not (pinged_recently now b.last_repinged_at)
    ]

-- The blockers to ping again; kind and body are rendered from the blocker itself.
unfoldable pub stuck_blocker_repings : ℕ → Plan → List Blocker
stuck_blocker_repings now plan = filter (needs_reping now) plan.blockers
