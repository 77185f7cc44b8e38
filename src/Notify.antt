-- ===== src/Notify.antt =====
-- The delivery of a notification in end_of_line/notify.py: the quiet hours, and `notify` over the
-- channels of end_of_line/config.py's `NotifySpec`. A time of day is its microseconds since midnight.
pub mod Reaching
use end_of_line.Shared.{
  ℕ, ◌*◌, String, Option, none, some, List, [], ◌∷◌, Bool, true, false, not, ◌&&◌, ◌||◌, contains,
  if◌then◌else◌, ltb, leb, ◌==◌, nat_eq, string_eq,
}

pub record ChannelSpec : Type 0 where
  pub kind : String
  pub kinds : Option (List String)
  pub enabled : Bool
  pub params : List (String × String)

-- `quiet_hours` is `none` where it is empty or where one of its two texts is no time.
pub record NotifySpec : Type 0 where
  pub channels : List ChannelSpec
  pub quiet_hours : Option (ℕ × ℕ)

-- What `from_spec` and `send` of a channel's class do: `failed` is one of the errors that `notify`
-- catches, `crashed` another.
pub data Delivery : Type 0 where
  delivered failed crashed : Delivery

pub record InboxNote : Type 0 where
  pub kind : String
  pub plan_slug : String
  pub project_root : String
  pub summary : String
  pub full_body : String

-- The process: `suppressed` is `_GLOBAL_SUPPRESS`, `is_registered` asks `_NOTIFIER_REGISTRY`, `headline`
-- is `body.splitlines()[0][:200]`, `writable` is false where the inbox cannot be written.
pub record Host : Type 0 where
  pub suppressed : Bool
  pub is_registered : String → Bool
  pub send : ChannelSpec → Delivery
  pub headline : String → String
  pub writable : Bool

-- `sent` is `none` where an error leaves `notify`.
pub record Notified : Type 0 where
  pub sent : Option Bool
  pub attempts : List ChannelSpec
  pub inbox : List InboxNote

abbrev pub day : ℕ
day = 24 * 60 * 60 * 1000000

unfoldable pub is_quiet_hours : ℕ → ℕ → ℕ → Bool
is_quiet_hours now start end =
    if start == end
    then false
    else if ltb start end
    then leb start now && ltb now end
    else leb start now || ltb now end

unfoldable pub in_quiet_window : NotifySpec → ℕ → Bool
unfolding is_quiet_hours
in_quiet_window spec now = elim spec.quiet_hours [
  | none ↦ false
  | some (start, end) ↦ is_quiet_hours now start end
]

-- `QUIET_HOURS_BYPASS_KINDS`
abbrev pub bypasses : String → Bool
bypasses kind = kind == "halted" || kind == "quota_stuck"

-- `ch.kinds is not None and kind not in ch.kinds`
abbrev pub is_unwanted : String → ChannelSpec → Bool
is_unwanted kind ch = elim ch.kinds [ none ↦ false | some kinds ↦ not (contains kind kinds) ]

-- The loop over the channels, with its `sent_any`.
unfoldable pub send_all : Host → String → Bool → List ChannelSpec → Option Bool × List ChannelSpec
send_all host kind sent_any [] = (some sent_any, [])
send_all host kind sent_any (ch ∷ rest) =
    let skipped = send_all host kind sent_any rest in
    let (sent, attempts) = send_all host kind true rest in
    if not (host.is_registered ch.kind)
    then skipped
    else if not ch.enabled
    then skipped
    else if is_unwanted kind ch
    then skipped
    else elim (host.send ch) [
      | delivered ↦ (sent, ch ∷ attempts)
      | failed ↦ (skipped.0, ch ∷ skipped.1)
      | crashed ↦ (none, ch ∷ [])
    ]

abbrev pub summary_of : Host → String → String → String
summary_of host kind body = if body == "" then kind else host.headline body

-- The inbox's part of `notify`.
unfoldable pub inbox_notes : Host → String → String → Option String → Option String → List InboxNote
inbox_notes host kind body (some plan_slug) (some project_root) =
    if host.writable
    then record {
      kind = kind;
      plan_slug = plan_slug;
      project_root = project_root;
      summary = summary_of host kind body;
      full_body = body;
    }
      ∷ []
    else []
inbox_notes host kind body _ _ = []

unfoldable pub notify :
    Host → NotifySpec → String → String → ℕ → Option String → Option String → Notified
unfolding in_quiet_window send_all inbox_notes
notify host spec kind body now plan_slug project_root =
    let inbox = inbox_notes host kind body plan_slug project_root in
    let unsent : Notified = record { sent = some false; attempts = []; inbox = inbox } in
    let (sent, attempts) = send_all host kind false spec.channels in
    if host.suppressed
    then unsent
    else if in_quiet_window spec now && not (bypasses kind)
    then unsent
    else record { sent = sent; attempts = attempts; inbox = inbox }
