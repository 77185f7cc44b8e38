-- ===== src/Examples/Notices.antt =====
-- Notifications to two channels around midnight, and a reply to one of two plans.
use end_of_line.Shared.{
  Option, suc, List, ℕ, ◌*◌, ◌||◌, if◌then◌else◌, String-discrete, ℕ_discrete, none, some, [], ◌∷◌,
  true, false, ◌≡◌, ◌==◌, string_eq, refl,
}
use end_of_line.Notify.{ChannelSpec, NotifySpec, Host, delivered, failed, notify}
use end_of_line.State.{Plan, Stamp, at, garbled, EventKind-discrete}
use end_of_line.State.Blockers.{blocked_event}
use end_of_line.Registry.{PlanEntry}
use end_of_line.Replies.{OpenBlocker, hydrated, found, find_blocker_for_reply}
use end_of_line.Examples.{idle_plan, open_blocker}

abbrev phone : ChannelSpec
phone = record { kind = "imessage"; kinds = none; enabled = true; params = [] }

abbrev room : ChannelSpec
room = record { kind = "discord"; kinds = some ("halted" ∷ []); enabled = true; params = [] }

abbrev hour : ℕ
hour = 3600000000

-- Quiet from ten in the evening to eight in the morning.
abbrev nightly : NotifySpec
nightly = record { channels = phone ∷ room ∷ []; quiet_hours = some (22 * hour, 8 * hour) }

abbrev host : Host
host = record {
  suppressed = false;
  is_registered = λ kind. kind == "imessage" || kind == "discord";
  send = λ ch. if ch.kind == "imessage" then failed else delivered;
  headline = λ body. body;
  writable = true;
}

-- A halt gets through at three, past the phone that fails, and a completion does not.
halt_at_three :
    (notify host nightly "halted" "demo halted" (3 * hour) (some "demo") (some "/p")).sent
    ≡ some true
unfolding notify String-discrete ℕ_discrete
halt_at_three = refl

completion_at_three :
    (notify host nightly "completed" "demo completed" (3 * hour) (some "demo") (some "/p")).sent
    ≡ some false
unfolding notify String-discrete ℕ_discrete
completion_at_three = refl

abbrev left_entry : PlanEntry
left_entry = record { project_root = "/p"; plan_slug = "left"; registered_at = at 0 }

abbrev right_entry : PlanEntry
right_entry = record { project_root = "/p"; plan_slug = "right"; registered_at = at 0 }

abbrev gone_entry : PlanEntry
gone_entry = record { project_root = "/q"; plan_slug = "gone"; registered_at = at 0 }

-- Both plans ask with two options, the right one later.
abbrev asked : ℕ → Plan
asked n = record idle_plan {
  blockers = open_blocker ∷ [];
  events = record (blocked_event 0 "a" 1 "left or right?") { ts = at n } ∷ [];
}

abbrev loaded : PlanEntry → Option Plan
loaded entry =
    if entry.plan_slug == "left"
    then some (asked 10)
    else if entry.plan_slug == "right"
    then some (asked 20)
    else none

abbrev place_in_time : Option Stamp → ℕ
place_in_time none = 0
place_in_time (some (at n)) = suc n
place_in_time (some (garbled t)) = 0

abbrev asked_later : OpenBlocker
asked_later = hydrated right_entry (asked 20) open_blocker

abbrev registered : List PlanEntry
registered = left_entry ∷ gone_entry ∷ right_entry ∷ []

-- The digit goes to the plan that asked last.
goes_right :
    find_blocker_for_reply loaded place_in_time registered (some (none, 1)) ≡ found asked_later 1
unfolding find_blocker_for_reply String-discrete ℕ_discrete EventKind-discrete
goes_right = refl
