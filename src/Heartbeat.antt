-- ===== src/Heartbeat.antt =====
-- The worker's heartbeat daemon, end_of_line/heartbeat_daemon.py: `tick_once` and `run_loop`. One
-- moment of the loop is the store as the tick finds it, with what the tick sees of the world.
pub mod Beating
use end_of_line.Shared.{
  ℕ, suc, String, List, [], ◌∷◌, Bool, true, false, if◌then◌else◌, Result, ok, err, claim_mismatch,
  ◌==◌, nat_eq,
}
use end_of_line.State.{Stamp}
use end_of_line.Store.{Db}
use end_of_line.Store.ClaimOps.{op_heartbeat}

pub data Action : Type 0 where
  action_ok action_strike action_exit_worker_dead action_exit_claim_gone : Action

-- `alive` is the answer of the liveness probe; `reachable` is false where the ping fails outside of
-- the store's own answers, as on a busy or broken database.
pub record Moment : Type 0 where
  pub now : ℕ
  pub alive : Bool
  pub reachable : Bool
  pub db : Db

abbrev judged : Result (Stamp × Db) → Db → Action × Db
judged (ok (beat, db')) db = (action_ok, db')
judged (err (claim_mismatch m)) db = (action_exit_claim_gone, db)
judged (err e) db = (action_strike, db)

-- `tick_once`, with the store that it leaves.
unfoldable pub tick_once : String → String → String → Moment → Action × Db
unfolding op_heartbeat
tick_once slug phase token m =
    if m.alive
    then if m.reachable
      then judged (op_heartbeat m.now slug token phase m.db) m.db
      else (action_strike, m.db)
    else (action_exit_worker_dead, m.db)

-- What the loop calls.
pub data Call : Type 0 where
  notify_failure report_death : Call

abbrev pub strike_limit : ℕ
strike_limit = 3

-- The calls of `run_loop` over the ticks that it gets to make, `strikes` failures in a row behind
-- it. A call that raises changes nothing here.
unfoldable pub run_loop : (Moment → Action) → ℕ → List Moment → List Call
run_loop tick strikes [] = []
run_loop tick strikes (m ∷ ms) = elim (tick m) [
  | action_ok ↦ run_loop tick 0 ms
  | action_strike ↦
      let rest = run_loop tick (suc strikes) ms in
      if suc strikes == strike_limit then notify_failure ∷ rest else rest
  | action_exit_worker_dead ↦ report_death ∷ []
  | action_exit_claim_gone ↦ []
]

-- The loop of the daemon that reports for one claim.
unfoldable pub daemon : String → String → String → List Moment → List Call
unfolding tick_once run_loop
daemon slug phase token ms = run_loop (λ m. (tick_once slug phase token m).0) 0 ms
