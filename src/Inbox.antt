-- ===== src/Inbox.antt =====
-- The inbox of end_of_line/inbox.py: the rows of the host database's `inbox` table in order of their
-- ids, with the counter of its autoincrement. `resolve` is `Path.resolve`, `readable` says that the
-- database can be read.
pub mod Steps
pub mod Surfacing
pub mod Readback
use end_of_line.Shared.{
  ℕ, suc, ◌-◌, String, Option, none, some, List, [], ◌∷◌, ◌++◌, Bool, true, false, not, ◌&&◌, map,
  filter, drop, length, contains, if◌then◌else◌, ltb, ◌==◌, nat_eq, string_eq,
}
use end_of_line.State.{Stamp, Value, utcnow}

-- `details` is the dict that the column's text spells, `none` where it spells none.
pub record InboxRow : Type 0 where
  pub id : ℕ
  pub event_id : String
  pub ts : Stamp
  pub kind : String
  pub plan_slug : String
  pub project_root : String
  pub summary : String
  pub details : Option (List (String × Value))
  pub processed : Bool
  pub processed_at : Option Stamp

pub record Inbox : Type 0 where
  pub rows : List InboxRow
  pub next_id : ℕ

-- What the consumers are handed.
pub record Payload : Type 0 where
  pub id : String
  pub schema_version : ℕ
  pub kind : String
  pub plan_slug : String
  pub project_root : String
  pub timestamp : Stamp
  pub summary : String
  pub details : List (String × Value)

abbrev details_or_empty : Option (List (String × Value)) → List (String × Value)
details_or_empty none = []
details_or_empty (some d) = d

unfoldable pub payload : InboxRow → Payload
payload row = record {
  id = row.event_id;
  schema_version = 1;
  kind = row.kind;
  plan_slug = row.plan_slug;
  project_root = row.project_root;
  timestamp = row.ts;
  summary = row.summary;
  details = details_or_empty row.details;
}

-- The row that `write_event` inserts; `event_id` is the random id that is drawn.
abbrev pub written_row :
    (String → String)
    → ℕ
    → ℕ
    → String
    → String
    → String
    → String
    → String
    → List (String × Value)
    → InboxRow
written_row resolve now id event_id kind plan_slug project_root summary details = record {
  id = id;
  event_id = event_id;
  ts = utcnow now;
  kind = kind;
  plan_slug = plan_slug;
  project_root = resolve project_root;
  summary = summary;
  details = some details;
  processed = false;
  processed_at = none;
}

unfoldable pub write_event :
    (String → String)
    → ℕ
    → String
    → String
    → String
    → String
    → String
    → List (String × Value)
    → Inbox
    → String × Inbox
write_event resolve now event_id kind plan_slug project_root summary details inbox = (
  event_id,
  record {
    rows =
        inbox.rows
        ++ written_row resolve now inbox.next_id event_id kind plan_slug project_root summary
            details
          ∷ [];
    next_id = suc inbox.next_id;
  },
)

abbrev pub is_unprocessed : InboxRow → Bool
is_unprocessed row = not row.processed

-- `WHERE processed = 0 AND project_root = ?`
abbrev pub is_waiting_for : String → InboxRow → Bool
is_waiting_for target row = not row.processed && row.project_root == target

unfoldable pub read_unprocessed : Bool → Inbox → List Payload
unfolding payload
read_unprocessed readable inbox =
    if readable then map payload (filter is_unprocessed inbox.rows) else []

unfoldable pub list_for_project : (String → String) → Bool → String → Inbox → List Payload
unfolding payload
list_for_project resolve readable project_root inbox =
    if readable then map payload (filter (is_waiting_for (resolve project_root)) inbox.rows) else []

-- `UPDATE inbox SET processed = 1, processed_at = ? WHERE … AND processed = 0` on one row.
abbrev pub flag_row : ℕ → Bool → InboxRow → InboxRow
flag_row now hit row =
    if hit && not row.processed
    then record row { processed = true; processed_at = some (utcnow now) }
    else row

abbrev flag_event : ℕ → String → InboxRow → InboxRow
flag_event now event_id row = flag_row now (row.event_id == event_id) row

unfoldable pub mark_processed : ℕ → String → Inbox → Inbox
mark_processed now event_id inbox = record inbox { rows = map (flag_event now event_id) inbox.rows }

-- `rows[-limit:] if limit > 0 else []`
unfoldable pub newest : ℕ → List InboxRow → List InboxRow
newest limit rows = if ltb 0 limit then drop (length rows - limit) rows else []

abbrev pub row_id : InboxRow → ℕ
row_id row = row.id

abbrev pub flag_claimed : ℕ → List ℕ → InboxRow → InboxRow
flag_claimed now ids row = flag_row now (contains row.id ids) row

-- The ids of the rows that one call of `claim_for_project` flags.
unfoldable pub claimed_ids : (String → String) → String → ℕ → Inbox → List ℕ
unfolding newest
claimed_ids resolve project_root limit inbox =
    map row_id (newest limit (filter (is_waiting_for (resolve project_root)) inbox.rows))

-- All the waiting events are returned, the newest of them flagged.
unfoldable pub claim_for_project : (String → String) → ℕ → String → ℕ → Inbox → List Payload × Inbox
unfolding payload claimed_ids
claim_for_project resolve now project_root limit inbox = (
  map payload (filter (is_waiting_for (resolve project_root)) inbox.rows),
  record inbox {
    rows = map (flag_claimed now (claimed_ids resolve project_root limit inbox)) inbox.rows;
  },
)
