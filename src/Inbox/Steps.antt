-- ===== src/Inbox/Steps.antt =====
-- What the operations of end_of_line/inbox.py keep: an event that is settled stays so, and every id
-- is below the counter.
use end_of_line.Shared.{
  ℕ, suc, ◌<◌, String, List, [], ◌∷◌, ◌++◌, Bool, true, false, not, ◌&&◌, map, contains,
  if◌then◌else◌, ltb, ◌==◌, nat_eq, string_eq, arith, refl, ◌≡◌, any, all, ap, subst,
}
use end_of_line.State.{Value}
use end_of_line.Inbox.{
  InboxRow, Inbox, Payload, write_event, written_row, flag_row, mark_processed, claimed_ids,
  claim_for_project,
}

-- An event waits: some row with the id is not processed.
abbrev pub is_pending : ℕ → InboxRow → Bool
is_pending n row = row.id == n && not row.processed

abbrev pub IsSettled : ℕ → Inbox → Type 0
IsSettled n inbox = (n < inbox.next_id) × (any (is_pending n) inbox.rows ≡ false)

-- One operation on the inbox, by any process.
pub data Step (resolve : String → String) (inbox inbox' : Inbox) : Type 0 where
  write :
      (now : ℕ) (event_id kind plan_slug project_root summary : String)
      (details : List (String × Value)) (r : String)
      → write_event resolve now event_id kind plan_slug project_root summary details inbox
        ≡ (r, inbox')
      → Step resolve inbox inbox'
  mark :
      (now : ℕ) (event_id : String)
      → mark_processed now event_id inbox ≡ inbox'
      → Step resolve inbox inbox'
  claim :
      (now : ℕ) (project_root : String) (limit : ℕ) (shown : List Payload)
      → claim_for_project resolve now project_root limit inbox ≡ (shown, inbox')
      → Step resolve inbox inbox'

pub data Run (resolve : String → String) (first : Inbox) : Inbox → Type 0 where
  start : Run resolve first first
  next :
      {last after : Inbox}
      → Run resolve first last
      → Step resolve last after
      → Run resolve first after

any-append_one :
    (p : InboxRow → Bool) (xs : List InboxRow) (y : InboxRow)
    → any p (xs ++ y ∷ []) ≡ (if any p xs then true else p y)
any-append_one p [] y = ground arith
any-append_one p (x ∷ xs) y = ground (arith, any-append_one p xs y)

-- Flagging rows makes no row pending.
any-map_flag :
    (n now : ℕ) (hit : InboxRow → Bool) (rows : List InboxRow)
    → any (is_pending n) rows ≡ false
    → any (is_pending n) (map (λ (row : InboxRow). flag_row now (hit row) row) rows) ≡ false
any-map_flag n now hit [] h = refl
any-map_flag n now hit (x ∷ xs) h = ground (arith, h, any-map_flag n now hit xs)

Step-IsSettled :
    (resolve : String → String) (n : ℕ) (inbox inbox' : Inbox)
    → Step resolve inbox inbox'
    → IsSettled n inbox
    → IsSettled n inbox'
unfolding write_event mark_processed claim_for_project
Step-IsSettled resolve n inbox inbox'
      (write now event_id kind plan_slug project_root summary details r h) settled =
    subst (IsSettled n) (ap (λ (p : String × Inbox). p.1) h) (
      omega (arith, settled.0),
      ground (
        arith,
        settled.0,
        settled.1,
        any-append_one (is_pending n) inbox.rows (
            written_row resolve now inbox.next_id event_id kind plan_slug project_root summary
              details),
      ),
    )
Step-IsSettled resolve n inbox inbox' (mark now event_id h) settled =
    subst (IsSettled n) h
      (settled.0, any-map_flag n now (λ row. row.event_id == event_id) inbox.rows settled.1)
Step-IsSettled resolve n inbox inbox' (claim now project_root limit shown h) settled =
    subst (IsSettled n) (ap (λ (p : List Payload × Inbox). p.1) h) (
      settled.0,
      any-map_flag n now (λ row. contains row.id (claimed_ids resolve project_root limit inbox))
          inbox.rows settled.1,
    )

pub Run-IsSettled :
    (resolve : String → String) (n : ℕ) (first last : Inbox)
    → Run resolve first last
    → IsSettled n first
    → IsSettled n last
Run-IsSettled resolve n first last start settled = settled
Run-IsSettled resolve n first last (next {last = mid} run step) settled =
    Step-IsSettled resolve n mid last step (Run-IsSettled resolve n first mid run settled)

-- Every id is below the counter.
abbrev pub is_below : ℕ → InboxRow → Bool
is_below m row = ltb row.id m

all-append_one :
    (p : InboxRow → Bool) (xs : List InboxRow) (y : InboxRow)
    → all p (xs ++ y ∷ []) ≡ (if all p xs then p y else false)
all-append_one p [] y = ground arith
all-append_one p (x ∷ xs) y = ground (arith, all-append_one p xs y)

all-map_flag :
    (m now : ℕ) (hit : InboxRow → Bool) (rows : List InboxRow)
    → all (is_below m) rows ≡ true
    → all (is_below m) (map (λ (row : InboxRow). flag_row now (hit row) row) rows) ≡ true
all-map_flag m now hit [] h = refl
all-map_flag m now hit (x ∷ xs) h = ground (arith, h, all-map_flag m now hit xs)

all-suc :
    (m : ℕ) (rows : List InboxRow)
    → all (is_below m) rows ≡ true
    → all (is_below (suc m)) rows ≡ true
all-suc m [] h = refl
all-suc m (x ∷ xs) h = ground (arith, h, all-suc m xs)

abbrev pub IsNumbered : Inbox → Type 0
IsNumbered inbox = all (is_below inbox.next_id) inbox.rows ≡ true

Step-IsNumbered :
    (resolve : String → String) (inbox inbox' : Inbox)
    → Step resolve inbox inbox'
    → IsNumbered inbox
    → IsNumbered inbox'
unfolding write_event mark_processed claim_for_project
Step-IsNumbered resolve inbox inbox'
      (write now event_id kind plan_slug project_root summary details r h) below =
    subst IsNumbered (ap (λ (p : String × Inbox). p.1) h) (
      ground (
        arith,
        all-suc inbox.next_id inbox.rows below,
        all-append_one (is_below (suc inbox.next_id)) inbox.rows (
            written_row resolve now inbox.next_id event_id kind plan_slug project_root summary
              details),
      ))
Step-IsNumbered resolve inbox inbox' (mark now event_id h) below =
    subst IsNumbered h
      (all-map_flag inbox.next_id now (λ row. row.event_id == event_id) inbox.rows below)
Step-IsNumbered resolve inbox inbox' (claim now project_root limit shown h) below =
    subst IsNumbered (ap (λ (p : List Payload × Inbox). p.1) h) (
      all-map_flag inbox.next_id now
        (λ row. contains row.id (claimed_ids resolve project_root limit inbox)) inbox.rows below)

pub Run-IsNumbered :
    (resolve : String → String) (seq : ℕ) (last : Inbox)
    → Run resolve (record { rows = []; next_id = seq }) last
    → IsNumbered last
Run-IsNumbered resolve seq last start = refl
Run-IsNumbered resolve seq last (next {last = mid} run step) =
    Step-IsNumbered resolve mid last step (Run-IsNumbered resolve seq mid run)
