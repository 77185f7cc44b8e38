-- ===== src/Store/History/TickBody.antt =====
-- The tick's write, `apply_tick_delta` of end_of_line/plan_store.py, extends the history of its plan.
use end_of_line.Shared.{
  ℕ, suc, ◌+◌, String, Option, none, some, List, [], ◌∷◌, ◌++◌, ◌≡◌, sym, ap, ◌∙◌, length, ok,
  arith, inl, inr, Option-cases, length-append, append_assoc_lem, nat_eq,
}
use end_of_line.State.{Event, option_text_eq}
use end_of_line.State.Claims.{started_event}
use end_of_line.Store.{Row, stamp_events}
use end_of_line.Store.Fields.{ClaimField}
use end_of_line.Store.Transaction.{insert_events}
use end_of_line.Store.Apply.{
  apply_claim_updates, update_blockers, apply_blocker_updates, apply_body, claim_if_asked,
}
use end_of_line.Store.Apply.Effects.{apply_body-steps, claim_in_txn-ok, claimed_row, settled}
use end_of_line.Supervisor.Delta.{Delta, BlockerUpdate}
use end_of_line.Store.History.{history, Extends, IsQuiet}
use end_of_line.Store.History.Growth.{
  insert_events-Extends, Extends-transport, IsQuiet-trans, blocker_ids-update_blockers,
}
use end_of_line.Store.History.ClaimBodies.{Keeps}

pub stamp_events-append :
    (seq : ℕ) (xs ys : List Event)
    → stamp_events seq (xs ++ ys) ≡ stamp_events seq xs ++ stamp_events (seq + length xs) ys
unfolding stamp_events
stamp_events-append seq [] ys = ap (λ n. stamp_events n ys) (omega arith)
stamp_events-append seq (x ∷ xs) ys =
    let later = stamp_events-append (suc seq) xs ys in
    let same : suc seq + length xs ≡ seq + suc (length xs) = omega arith in
    ground (arith, later, ap (λ n. stamp_events n ys) same)

apply_claim_updates-IsQuiet :
    (token : Option String) (fields : List ClaimField) (row row' : Row)
    → apply_claim_updates token fields row ≡ ok row'
    → IsQuiet row row'
unfolding apply_claim_updates
apply_claim_updates-IsQuiet token [] row row' h = ground (arith, h)
apply_claim_updates-IsQuiet token (f ∷ fields) row row' h =
    elim (Option-cases row.plan.current_claim) [
      | inl gone ↦ absurd (ground (arith, gone, h))
      | inr (c, held) ↦ ground (arith, held, h)
    ]

apply_blocker_updates-IsQuiet :
    (us : List (ℕ × BlockerUpdate)) (row row' : Row)
    → apply_blocker_updates us row ≡ ok row'
    → IsQuiet row row'
unfolding apply_blocker_updates
apply_blocker_updates-IsQuiet [] row row' h = ground (arith, h)
apply_blocker_updates-IsQuiet ((n, u) ∷ us) row row' h =
    elim (Option-cases (update_blockers n u row.plan.blockers)) [
      | inl gone ↦ absurd (ground (arith, gone, h))
      | inr (bs, found) ↦
          let next = record row { plan = record row.plan { blockers = bs } } in
          let rest = apply_blocker_updates-IsQuiet us next row' (ground (arith, found, h)) in
          record {
            logged = rest.logged;
            blockers = rest.blockers ∙ blocker_ids-update_blockers n u row.plan.blockers bs found;
            tasks = rest.tasks;
          }
    ]

settled-IsQuiet : (delta : Delta) (row : Row) → IsQuiet row (settled delta row)
settled-IsQuiet delta row = elim (Option-cases delta.status) [
  | inl n ↦ ground (arith, n)
  | inr (s, y) ↦ ground (arith, y)
]

-- One more event behind an extension.
Extends-claimed :
    (now : ℕ) (minted phase : String) (delta : Delta) (before row : Row) (seq m : ℕ)
    → Extends before seq row m
    → Extends before seq (claimed_row now minted phase delta row m) (suc m)
Extends-claimed now minted phase delta before row seq m e =
    let start = started_event now minted phase ∷ [] in
    record {
      new = e.new ++ start;
      logged =
          sym (append_assoc_lem row.archived row.plan.events (stamp_events m start))
          ∙ ap (λ h. h ++ stamp_events m start) e.logged
          ∙ append_assoc_lem (history before) (stamp_events seq e.new) (stamp_events m start)
          ∙ ap (λ n. history before ++ (stamp_events seq e.new ++ stamp_events n start)) e.counted
          ∙ ap (λ s. history before ++ s) (sym (stamp_events-append seq e.new start));
      counted = omega (arith, e.counted, length-append e.new start);
      blockers = e.blockers;
      tasks = e.tasks;
    }

claim_if_asked-Extends :
    (now : ℕ) (minted : String) (delta : Delta) (asked : Option String) (before row row' : Row)
    (seq m seq' : ℕ) (a : Option String)
    → Extends before seq row m
    → claim_if_asked now minted delta asked (row, m) ≡ ok (a, row', seq')
    → Extends before seq row' seq'
claim_if_asked-Extends now minted delta none before row row' seq m seq' a e h =
    Extends-transport (cc h) (cc h) e
claim_if_asked-Extends now minted delta (some phase) before row row' seq m seq' a e h =
    let claimed = claim_in_txn-ok now minted phase delta row m in
    Extends-transport (ground (arith, claimed, h)) (ground (arith, claimed, h))
      (Extends-claimed now minted phase delta before row seq m e)

pub apply_body-Keeps :
    (now : ℕ) (minted : String) (delta : Delta) → Keeps (apply_body now minted delta)
apply_body-Keeps now minted delta row row' seq seq' a h =
    let (_, (row1, (row2, (claims, blockers, last)))) =
      apply_body-steps now minted delta row row' seq seq' a h in
    let quiet =
      IsQuiet-trans
        (IsQuiet-trans
          (apply_claim_updates-IsQuiet delta.claim_token delta.claim_updates row row1 claims)
          (apply_blocker_updates-IsQuiet delta.blocker_updates row1 row2 blockers))
        (settled-IsQuiet delta row2) in
    let logged =
      insert_events-Extends row (settled delta row2) seq delta.events quiet.logged
        (inl quiet.blockers) (inl quiet.tasks) in
    claim_if_asked-Extends now minted delta delta.claim_phase row
      (insert_events delta.events (settled delta row2) seq).0 row' seq
      (insert_events delta.events (settled delta row2) seq).1 seq' a logged last
