-- ===== src/Inbox/Readback.antt =====
-- What end_of_line/inbox.py writes is read back.
use end_of_line.Shared.{
  ℕ, String, List, [], ◌∷◌, ◌++◌, Bool, true, map, filter, if◌then◌else◌, ◌==◌, nat_eq, string_eq,
  arith, ◌≡◌,
}
use end_of_line.State.{Value, utcnow}
use end_of_line.Inbox.{
  InboxRow, Inbox, payload, write_event, written_row, is_waiting_for, list_for_project,
}

list-append_one :
    (p : InboxRow → Bool) (rows : List InboxRow) (row : InboxRow)
    → map payload (filter p (rows ++ row ∷ []))
      ≡ map payload (filter p rows) ++ (if p row then payload row ∷ [] else [])
list-append_one p [] row = ground arith
list-append_one p (x ∷ xs) row = ground (arith, list-append_one p xs row)

-- What is written is read back behind all that waited before, by the readers of its project and by
-- no other.
pub list_for_project-write_event :
    (resolve : String → String) (now : ℕ)
    (event_id kind plan_slug project_root summary other_root : String)
    (details : List (String × Value)) (inbox : Inbox)
    → list_for_project resolve true other_root
        (write_event resolve now event_id kind plan_slug project_root summary details inbox).1
      ≡ list_for_project resolve true other_root inbox
        ++ (if resolve project_root == resolve other_root
            then record {
              id = event_id;
              schema_version = 1;
              kind = kind;
              plan_slug = plan_slug;
              project_root = resolve project_root;
              timestamp = utcnow now;
              summary = summary;
              details = details;
            }
              ∷ []
            else [])
unfolding list_for_project write_event payload
list_for_project-write_event resolve now event_id kind plan_slug project_root summary other_root
      details inbox =
    list-append_one (is_waiting_for (resolve other_root)) inbox.rows
      (written_row resolve now inbox.next_id event_id kind plan_slug project_root summary details)
