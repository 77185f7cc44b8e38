-- ===== src/Heartbeat/Beating.antt =====
-- When the loop of end_of_line/heartbeat_daemon.py reports, and when it ends.
use end_of_line.Shared.{
  ℕ, suc, ◌+◌, String, none, some, List, [], ◌∷◌, ◌++◌, true, false, if◌then◌else◌, leb, nat_eq,
  string_eq, ◌≡◌, ◌≢◌, length, lookup, arith,
}
use end_of_line.State.Slug.{validate_slug}
use end_of_line.Store.{Row}
use end_of_line.Store.ClaimOps.{op_heartbeat, start}
use end_of_line.Store.ClaimOps.Guards.{HeldBy, token_guards}
use end_of_line.Store.Transaction.{plan_txn}
use end_of_line.Heartbeat.{
  Action, action_strike, action_exit_worker_dead, action_exit_claim_gone, Moment, tick_once, Call,
  notify_failure, report_death, strike_limit, run_loop, daemon,
}

-- All of the ticks are strikes.
abbrev pub AreStrikes : (Moment → Action) → List Moment → Type 0
AreStrikes tick [] = Unit {0}
AreStrikes tick (m ∷ ms) = (tick m ≡ action_strike) × AreStrikes tick ms

-- None of the ticks ends the loop.
abbrev pub GoesOn : (Moment → Action) → List Moment → Type 0
GoesOn tick [] = Unit {0}
GoesOn tick (m ∷ ms) =
    (tick m ≢ action_exit_worker_dead) × (tick m ≢ action_exit_claim_gone) × GoesOn tick ms

-- The calls that follow a tick that is no strike.
abbrev pub calls_after : Action → List Call → List Call
calls_after action_exit_worker_dead rest = report_death ∷ []
calls_after action_exit_claim_gone rest = []
calls_after a rest = rest

run_loop-strikes :
    (tick : Moment → Action) (n : ℕ) (burst : List Moment) (m : Moment) (rest : List Moment)
    → AreStrikes tick burst
    → (tick m ≢ action_strike)
    → run_loop tick n (burst ++ m ∷ rest) ≡ (
        if leb strike_limit n
        then calls_after (tick m) (run_loop tick 0 rest)
        else (if leb strike_limit (n + length burst)
            then notify_failure ∷ calls_after (tick m) (run_loop tick 0 rest)
            else calls_after (tick m) (run_loop tick 0 rest)))
unfolding run_loop
run_loop-strikes tick n [] m rest strikes other = ground (arith, other)
run_loop-strikes tick n (b ∷ bs) m rest strikes other =
    ground (arith, strikes.0, run_loop-strikes tick (suc n) bs m rest strikes.1 other)

-- However long the pings of a daemon fail, the operator hears of it once, and only from the third
-- failure in a row on: a burst of failures that ends, by a success, by the worker's death or by the
-- loss of the claim, is reported once if it has three ticks and not at all if it has fewer; after a
-- success the count starts again, and the two ends stop the loop, the death with its report.
pub run_loop-burst :
    (tick : Moment → Action) (burst : List Moment) (m : Moment) (rest : List Moment)
    → AreStrikes tick burst
    → (tick m ≢ action_strike)
    → run_loop tick 0 (burst ++ m ∷ rest)
      ≡ (if leb strike_limit (length burst) then notify_failure ∷ [] else [])
        ++ calls_after (tick m) (run_loop tick 0 rest)
run_loop-burst tick burst m rest strikes other =
    ground (arith, run_loop-strikes tick 0 burst m rest strikes other)

-- Only failures have been reported.
abbrev pub AreFailures : List Call → Type 0
AreFailures [] = Unit {0}
AreFailures (c ∷ cs) = (c ≡ notify_failure) × AreFailures cs

run_loop-AreFailures :
    (tick : Moment → Action) (n : ℕ) (before : List Moment)
    → GoesOn tick before
    → AreFailures (run_loop tick n before)
unfolding run_loop
run_loop-AreFailures tick n [] on = tt
run_loop-AreFailures tick n (b ∷ bs) on =
    ground
      (arith, on, run_loop-AreFailures tick 0 bs on.2, run_loop-AreFailures tick (suc n) bs on.2)

run_loop-dead :
    (tick : Moment → Action) (n : ℕ) (before : List Moment) (m : Moment) (after : List Moment)
    → GoesOn tick before
    → tick m ≡ action_exit_worker_dead
    → run_loop tick n (before ++ m ∷ after) ≡ run_loop tick n before ++ report_death ∷ []
unfolding run_loop
run_loop-dead tick n [] m after on dead = ground (arith, dead)
run_loop-dead tick n (b ∷ bs) m after on dead = ground (
  arith,
  on,
  run_loop-dead tick 0 bs m after on.2 dead,
  run_loop-dead tick (suc n) bs m after on.2 dead,
)

-- A daemon whose worker is dead at some tick says so and ends: if no tick before ended it, its calls
-- are the failure reports that it made before, and the report of the death as the last one, made
-- once.
pub daemon-reports_death :
    (slug phase token : String) (before after : List Moment) (m : Moment)
    → GoesOn (λ m. (tick_once slug phase token m).0) before
    → m.alive ≡ false
    → (daemon slug phase token (before ++ m ∷ after)
        ≡ daemon slug phase token before ++ report_death ∷ [])
      × AreFailures (daemon slug phase token before)
unfolding daemon tick_once
daemon-reports_death slug phase token before after m on dead = (
  run_loop-dead (λ m. (tick_once slug phase token m).0) 0 before m after on (ground (arith, dead)),
  run_loop-AreFailures (λ m. (tick_once slug phase token m).0) 0 before on,
)

-- A tick of a daemon whose claim was released or taken over ends it without a report, and leaves the
-- store as it was, whoever holds the claim now; a tick whose ping cannot reach the store is a strike.
pub tick_once-stale :
    (slug phase token : String) (m : Moment) (row : Row)
    → validate_slug slug ≡ true
    → lookup slug m.db.plans ≡ some row
    → (HeldBy token row → ⊥)
    → m.alive ≡ true
    → tick_once slug phase token m
      ≡ ((if m.reachable then action_exit_claim_gone else action_strike), m.db)
unfolding tick_once op_heartbeat plan_txn
tick_once-stale slug phase token m row valid found lost alive =
    let guards =
      token_guards m.now token phase "" "" none start [] none []
        (record row { version = suc row.version }) m.db.event_seq lost in
    let (e, fails) = guards.0 in ground (arith, valid, found, alive, fails)
