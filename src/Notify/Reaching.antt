-- ===== src/Notify/Reaching.antt =====
-- Which channels `notify` of end_of_line/notify.py tries, and what it answers.
use end_of_line.Shared.{
  ℕ, ◌+◌, ◌-◌, ◌<◌, String, Option, none, some, List, [], ◌∷◌, Bool, true, false, not, ◌&&◌, ◌||◌,
  filter, any, if◌then◌else◌, ltb, leb, nat_eq,
}
use end_of_line.Notify.{
  ChannelSpec, NotifySpec, Host, day, is_unwanted, bypasses, delivered, failed, crashed,
}

-- The time since the start of the window, around the clock.
abbrev pub since : ℕ → ℕ → ℕ
since start now = if leb start now then now - start else now + day - start

abbrev pub is_target : Host → String → ChannelSpec → Bool
is_target host kind ch = host.is_registered ch.kind && ch.enabled && not (is_unwanted kind ch)

abbrev pub did_crash : Host → ChannelSpec → Bool
did_crash host ch = elim (host.send ch) [ delivered ↦ false | failed ↦ false | crashed ↦ true ]

abbrev pub was_delivered : Host → ChannelSpec → Bool
was_delivered host ch = elim (host.send ch) [ delivered ↦ true | failed ↦ false | crashed ↦ false ]

-- A list up to the first that passes the test, it included.
abbrev pub up_to : (ChannelSpec → Bool) → List ChannelSpec → List ChannelSpec
up_to p [] = []
up_to p (ch ∷ rest) = ch ∷ (if p ch then [] else up_to p rest)

-- What the loop tries of the channels.
abbrev pub tried : Host → String → List ChannelSpec → List ChannelSpec
tried host kind channels = up_to (did_crash host) (filter (is_target host kind) channels)

-- What the loop answers, from what it tried.
abbrev pub answer : Host → Bool → List ChannelSpec → Option Bool
answer host sent_any attempts =
    if any (did_crash host) attempts
    then none
    else some (sent_any || any (was_delivered host) attempts)

-- The time lies less far behind the window's start, around the clock, than its end.
abbrev pub is_within : ℕ → Option (ℕ × ℕ) → Bool
is_within now none = false
is_within now (some (start, end)) = ltb (since start now) (since start end)

-- Both ends of the quiet hours are times of a day.
abbrev pub AreTimes : Option (ℕ × ℕ) → Type 0
AreTimes none = Unit {0}
AreTimes (some (start, end)) = (start < day) × (end < day)

abbrev pub is_muted : Host → NotifySpec → String → ℕ → Bool
is_muted host spec kind now =
    host.suppressed || is_within now spec.quiet_hours && not (bypasses kind)
