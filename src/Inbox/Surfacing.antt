-- ===== src/Inbox/Surfacing.antt =====
-- No event of end_of_line/inbox.py is shown to two sessions, and none is lost.
use end_of_line.Shared.{
  ℕ, zero, suc, ◌-◌, ◌<◌, String, List, [], ◌∷◌, Bool, true, false, map, filter, drop, length,
  contains, if◌then◌else◌, nat_eq, string_eq, arith, refl, ◌≡◌, any, all, ap, sym, subst,
  ℕ_discrete, Bool-cases, inl, inr,
}
use end_of_line.Inbox.{
  InboxRow, Inbox, Payload, is_waiting_for, newest, row_id, flag_claimed, claimed_ids,
  claim_for_project,
}
use end_of_line.Inbox.Steps.{
  Run, IsSettled, IsNumbered, is_pending, is_below, Run-IsSettled, Run-IsNumbered,
}

-- The ids that one call of `claim_for_project` returns.
unfoldable pub waiting_ids : (String → String) → String → Inbox → List ℕ
waiting_ids resolve project_root inbox =
    map row_id (filter (is_waiting_for (resolve project_root)) inbox.rows)

-- What is claimed was there.
all-filter :
    (p q : InboxRow → Bool) (rows : List InboxRow)
    → all q rows ≡ true
    → all q (filter p rows) ≡ true
all-filter p q [] h = refl
all-filter p q (x ∷ xs) h = ground (arith, h, all-filter p q xs)

all-drop :
    (q : InboxRow → Bool) (k : ℕ) (rows : List InboxRow)
    → all q rows ≡ true
    → all q (drop k rows) ≡ true
all-drop q zero rows h = h
all-drop q (suc k) [] h = refl
all-drop q (suc k) (x ∷ xs) h = all-drop q k xs (ground (arith, h))

contains-below :
    (n m : ℕ) (rows : List InboxRow)
    → all (is_below m) rows ≡ true
    → contains n (map row_id rows) ≡ true
    → n < m
contains-below n m [] below h = absurd (ground (arith, h))
contains-below n m (x ∷ xs) below h = ground (arith, below, h, contains-below n m xs)

all-newest :
    (q : InboxRow → Bool) (limit : ℕ) (rows : List InboxRow)
    → all q rows ≡ true
    → all q (newest limit rows) ≡ true
unfolding newest
all-newest q limit rows h = ground (arith, all-drop q (length rows - limit) rows h)

claimed-below :
    (resolve : String → String) (project_root : String) (n limit : ℕ) (inbox : Inbox)
    → IsNumbered inbox
    → contains n (claimed_ids resolve project_root limit inbox) ≡ true
    → n < inbox.next_id
unfolding claimed_ids
claimed-below resolve project_root n limit inbox below hit =
    let p : (InboxRow → Bool) = is_waiting_for (resolve project_root) in
    contains-below n inbox.next_id (newest limit (filter p inbox.rows))
      (all-newest (is_below inbox.next_id) limit (filter p inbox.rows)
        (all-filter p (is_below inbox.next_id) inbox.rows below))
      hit

-- A settled id waits for no project.
waiting-settled :
    (n : ℕ) (target : String) (rows : List InboxRow)
    → any (is_pending n) rows ≡ false
    → contains n (map row_id (filter (is_waiting_for target) rows)) ≡ false
waiting-settled n target [] h = refl
waiting-settled n target (x ∷ xs) h = ground (arith, h, waiting-settled n target xs)

flagged_settled :
    (n now : ℕ) (ids : List ℕ) (rows : List InboxRow)
    → contains n ids ≡ true
    → any (is_pending n) (map (flag_claimed now ids) rows) ≡ false
flagged_settled n now ids [] h = refl
flagged_settled n now ids (x ∷ xs) h = elim (ℕ_discrete x.id n) [
  | yes same ↦ ground (arith, h, flagged_settled n now ids xs h, ap (λ k. contains k ids) same)
  | no other ↦ ground (arith, flagged_settled n now ids xs h)
]

waiting-flagged :
    (n now : ℕ) (ids : List ℕ) (target : String) (rows : List InboxRow)
    → contains n ids ≡ false
    → contains n (map row_id (filter (is_waiting_for target) (map (flag_claimed now ids) rows)))
      ≡ contains n (map row_id (filter (is_waiting_for target) rows))
waiting-flagged n now ids target [] h = refl
waiting-flagged n now ids target (x ∷ xs) h = elim (ℕ_discrete x.id n) [
  | yes same ↦
      ground (arith, h, waiting-flagged n now ids target xs h, ap (λ k. contains k ids) same)
  | no other ↦ ground (arith, waiting-flagged n now ids target xs h)
]

-- An event that one session claims is handed to no session again, for whatever project, by any
-- later operation of any process.
pub claimed_once :
    (resolve : String → String) (seq now n limit : ℕ) (project_root other_root : String)
    (shown : List Payload) (before after last : Inbox)
    → Run resolve (record { rows = []; next_id = seq }) before
    → claim_for_project resolve now project_root limit before ≡ (shown, after)
    → contains n (claimed_ids resolve project_root limit before) ≡ true
    → Run resolve after last
    → contains n (waiting_ids resolve other_root last) ≡ false
unfolding claim_for_project waiting_ids
claimed_once resolve seq now n limit project_root other_root shown before after last run claims hit
      later =
    let ids = claimed_ids resolve project_root limit before in
    let settled = subst (IsSettled n) (ap (λ (p : List Payload × Inbox). p.1) claims) (
      claimed-below resolve project_root n limit before (Run-IsNumbered resolve seq before run) hit,
      flagged_settled n now ids before.rows hit,
    ) in
    waiting-settled n (resolve other_root) last.rows
      (Run-IsSettled resolve n after last later settled).1

-- A claim takes out of the waiting events of every project exactly the ones that it flags: what it
-- did not flag still waits, in whatever project.
pub claim_for_project-waiting :
    (resolve : String → String) (now n limit : ℕ) (project_root other_root : String)
    (shown : List Payload) (before after : Inbox)
    → claim_for_project resolve now project_root limit before ≡ (shown, after)
    → contains n (waiting_ids resolve other_root after) ≡ (
        if contains n (claimed_ids resolve project_root limit before)
        then false
        else contains n (waiting_ids resolve other_root before))
unfolding claim_for_project waiting_ids
claim_for_project-waiting resolve now n limit project_root other_root shown before after claims =
    let ids = claimed_ids resolve project_root limit before in
    let target = resolve other_root in
    let moved : after ≡ record before { rows = map (flag_claimed now ids) before.rows } =
      sym (ap (λ (p : List Payload × Inbox). p.1) claims) in
    elim (Bool-cases (contains n ids)) [
      | inl hit ↦ rw hit (
          rw moved (
            waiting-settled n target (map (flag_claimed now ids) before.rows)
              (flagged_settled n now ids before.rows hit)))
      | inr miss ↦ rw miss (rw moved (waiting-flagged n now ids target before.rows miss))
    ]
