-- ===== src/Quota/Gate.antt =====
-- What the pause gate promises: nobody dispatches before the reset, then one canary alone until
-- its window has passed, and no malformed row freezes the fleet.
use end_of_line.Shared.{
  ℕ, ◌+◌, ◌*◌, ◌/◌, ◌≤◌, ◌<◌, String, Option, none, some, false, ◌≡◌, ◌≢◌, ◌⊎◌, inl, inr, refl,
  arith, ◌==◌, string_eq, leb, if◌then◌else◌,
}
use end_of_line.State.{second, utcnow}
use end_of_line.Quota.{
  QuotaMatch, Pause, pause_buffer, record_quota_pause, go, hold, resume, Decoded, absent,
  unreadable, instant, decode, decide_row, readable, busy, broken, gate_decision, with_canary,
  quota_stuck, quota_canary,
}

abbrev pub paused_row : QuotaMatch → ℕ → ℕ → Pause
paused_row found reset died = record {
  paused_until = some (utcnow (reset + pause_buffer));
  signature = found.signature;
  line = found.line;
  canary_plan = none;
  canary_deadline = none;
  created_at = utcnow died;
}

-- After a quota death with a known reset, no plan is let through before the buffered reset, to the
-- second, and the pause stays as it is.
pub paused_until_reset :
    (slug : String) (found : QuotaMatch) (reset died now : ℕ) (old : Option Pause)
    → now < (reset + pause_buffer) / second * second
    → ((gate_decision readable slug now
          (record_quota_pause found (some reset) died old).1).0.dispatch
        ≡ false)
      × ((gate_decision readable slug now (record_quota_pause found (some reset) died old).1).1
          ≡ (record_quota_pause found (some reset) died old).1)
unfolding gate_decision record_quota_pause
paused_until_reset slug found reset died now old h = (ground arith, ground arith)

-- The first plan that asks after the buffered reset is let through and becomes the canary, with a
-- window of its own.
pub canary_after_reset :
    (slug : String) (found : QuotaMatch) (reset died now : ℕ) (old : Option Pause)
    → (reset + pause_buffer) / second * second ≤ now
    → gate_decision readable slug now (record_quota_pause found (some reset) died old).1
      ≡ (go, some (with_canary now slug (paused_row found reset died)))
unfolding gate_decision record_quota_pause
canary_after_reset slug found reset died now old h = ground arith

-- The canary's row: the pause is over, and a plan holds the probe until the deadline.
record IsProbing (now : ℕ) (canary : String) (deadline : ℕ) (row : Pause) : Type 0 where
  pub until : ℕ
  pub over : decode row.paused_until ≡ instant until
  pub passed : until ≤ now
  pub plan : row.canary_plan ≡ some canary
  pub window : decode row.canary_deadline ≡ instant deadline

-- While the canary is on probation every other plan is held and the row stays; the canary itself is
-- let through again; from its deadline on the pause is lifted for whoever asks.
canary_exclusive :
    (now deadline : ℕ) (canary slug : String) (row : Pause)
    → IsProbing now canary deadline row
    → gate_decision readable slug now (some row) ≡ (
        if leb deadline now
        then (resume, none)
        else if canary == slug
        then (go, some row)
        else (hold (quota_canary canary), some row))
unfolding gate_decision
canary_exclusive now deadline canary slug row p =
    rw p.over (rw p.window (ground (arith, p.passed, p.plan)))

abbrev pub paused_by : QuotaMatch → ℕ → ℕ → Option Pause → Option Pause
paused_by found reset died old = (record_quota_pause found (some reset) died old).1

-- The row once a plan has asked.
abbrev pub probing_row : String → ℕ → Option Pause → Option Pause
probing_row first now pause = (gate_decision readable first now pause).1

-- A stuck pause holds every plan and stays, until it is cleared.
pub stuck_pause_holds :
    (slug : String) (now : ℕ) (row : Pause)
    → row.paused_until ≡ none
    → decode row.canary_deadline ≢ unreadable
    → gate_decision readable slug now (some row) ≡ (hold quota_stuck, some row)
unfolding gate_decision
stuck_pause_holds slug now row h d =
    let e : decode row.paused_until ≡ absent = ground arith in
    rw e (stuck_cases (decode row.canary_deadline) d)
  where
    stuck_cases :
        (x : Decoded)
        → x ≢ unreadable
        → decide_row slug now row absent x ≡ (hold quota_stuck, some row)
    stuck_cases absent ne = refl
    stuck_cases unreadable ne = absurd (ne refl)
    stuck_cases (instant t) ne = refl

-- No malformed row freezes the fleet: an unreadable column lets every plan through, and so does a
-- store that cannot be read; a store that is merely busy holds for this tick and changes nothing.
pub malformed_pause_dispatches :
    (slug : String) (now : ℕ) (row : Pause)
    → (decode row.paused_until ≡ unreadable) ⊎ (decode row.canary_deadline ≡ unreadable)
    → (gate_decision readable slug now (some row) ≡ (go, some row))
      × (gate_decision broken slug now (some row) ≡ (go, some row))
      × ((gate_decision busy slug now (some row)).0.dispatch ≡ false)
unfolding gate_decision
malformed_pause_dispatches slug now row h = (lets_through h, refl, refl)
  where
    any_deadline : (x : Decoded) → decide_row slug now row x unreadable ≡ (go, some row)
    any_deadline absent = refl
    any_deadline unreadable = refl
    any_deadline (instant t) = refl

    lets_through :
        (decode row.paused_until ≡ unreadable) ⊎ (decode row.canary_deadline ≡ unreadable)
        → decide_row slug now row (decode row.paused_until) (decode row.canary_deadline)
          ≡ (go, some row)
    lets_through (inl e) = rw e refl
    lets_through (inr e) = rw e (any_deadline (decode row.paused_until))
