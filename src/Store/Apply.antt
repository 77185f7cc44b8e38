-- ===== src/Store/Apply.antt =====
-- `apply_tick_delta` of end_of_line/plan_store.py: one tick's whole decision in one transaction.
pub mod Effects
pub mod Errors
use end_of_line.Shared.{
  ℕ, suc, String, Option, none, some, List, [], ◌∷◌, ◌++◌, Bool, true, false, if◌then◌else◌, ◌==◌,
  nat_eq, string_eq, Result, ok, err, ◌>>=◌, ◌>>◌, tick_conflict,
}
use end_of_line.State.{Plan, Claim, Event, Blocker, Stamp, Status, option_text_eq}
use end_of_line.State.Claims.{claim_phase, get_or_default}
use end_of_line.Store.{Row, Db}
use end_of_line.Store.Fields.{ClaimField, write_fields}
use end_of_line.Store.Transaction.{PlanTxn, plan_txn, insert_events, set_claim, on_row_plan}
use end_of_line.Store.Conditions.{assert_preconditions}
use end_of_line.Supervisor.Delta.{Delta, BlockerUpdate, consumed, last_repinged_at}

-- A compare-and-set on the token that the tick was looking at; with no update nothing is checked.
unfoldable pub apply_claim_updates : Option String → List ClaimField → Row → Result Row
apply_claim_updates token [] row = ok row
apply_claim_updates token (f ∷ rest) row = elim row.plan.current_claim [
  | none ↦ err tick_conflict
  | some claim ↦
      if claim.claimed_by == token
      then ok (set_claim (some (write_fields (f ∷ rest) claim)) row)
      else err tick_conflict
]

abbrev pub update_blocker : BlockerUpdate → Blocker → Blocker
update_blocker consumed b = record b { consumed = true }
update_blocker (last_repinged_at ts) b = record b { last_repinged_at = some ts }

-- `UPDATE blockers SET … WHERE blocker_id = ?`; `none` where no row was touched.
unfoldable pub update_blockers : ℕ → BlockerUpdate → List Blocker → Option (List Blocker)
update_blockers n u [] = none
update_blockers n u (b ∷ rest) =
    let later = update_blockers n u rest in
    if b.id == n
    then some (update_blocker u b ∷ get_or_default rest later)
    else elim later [ none ↦ none | some more ↦ some (b ∷ more) ]

unfoldable pub apply_blocker_updates : List (ℕ × BlockerUpdate) → Row → Result Row
unfolding update_blockers
apply_blocker_updates [] row = ok row
apply_blocker_updates ((n, u) ∷ rest) row = elim (update_blockers n u row.plan.blockers) [
  | none ↦ err tick_conflict
  | some blockers ↦
      apply_blocker_updates rest (on_row_plan (λ p. record p { blockers = blockers }) row)
]

abbrev pub apply_release : Bool → Row → Row
apply_release release row = if release then set_claim none row else row

abbrev pub apply_status : Option Status → Row → Row
apply_status none row = row
apply_status (some status) row = on_row_plan (λ p. record p { status = status }) row

-- The scratch document of `_claim_in_txn`: no history and no claim.
abbrev pub scratch : Plan → Plan
scratch plan = record plan { events = []; current_claim = none }

abbrev pub with_attempts : Option ℕ → Option Claim → Option Claim
with_attempts none claim = claim
with_attempts (some n) none = none
with_attempts (some n) (some c) = some (record c { attempts = n })

unfoldable pub claim_in_txn : ℕ → String → String → Delta → Row → ℕ → Result (String × Row × ℕ)
claim_in_txn now minted phase delta row seq = do
  claimed ←
      claim_phase now minted phase (get_or_default 0 delta.lease_minutes) none (scratch row.plan)
  let (token, doc) = claimed
  let (row', seq') =
      insert_events doc.events
        (set_claim (with_attempts delta.claim_attempts doc.current_claim) row) seq
  ok (token, row', seq')

abbrev pub claim_if_asked :
    ℕ → String → Delta → Option String → Row × ℕ → Result (Option String × Row × ℕ)
claim_if_asked now minted delta none (row, seq) = ok (none, row, seq)
claim_if_asked now minted delta (some phase) (row, seq) = do
  minted_claim ← claim_in_txn now minted phase delta row seq
  let (token, row', seq') = minted_claim
  ok (some token, row', seq')

unfoldable pub apply_body : ℕ → String → Delta → PlanTxn (Option String)
apply_body now minted delta row seq = do
  assert_preconditions delta.pre row.plan
  row1 ← apply_claim_updates delta.claim_token delta.claim_updates row
  row2 ← apply_blocker_updates delta.blocker_updates row1
  let row3 = apply_status delta.status (apply_release delta.release_claim row2)
  claim_if_asked now minted delta delta.claim_phase (insert_events delta.events row3 seq)

unfoldable pub apply_tick_delta : ℕ → String → String → Delta → Db → Result (Option String × Db)
unfolding apply_body
apply_tick_delta now minted slug delta db = plan_txn slug (apply_body now minted delta) db
