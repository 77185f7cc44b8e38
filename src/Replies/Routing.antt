-- ===== src/Replies/Routing.antt =====
-- To which blocker `route_reply` of end_of_line/notify_base.py takes a bare digit.
use end_of_line.Shared.{ℕ, Option, Bool, not, ltb, nat_eq}
use end_of_line.State.{Stamp}
use end_of_line.Replies.{OpenBlocker, place_of}

-- The other was notified no earlier.
abbrev pub is_rival : (Option Stamp → ℕ) → OpenBlocker → OpenBlocker → Bool
is_rival place b c = not (ltb (place_of place c) (place_of place b))
