-- ===== src/Supervisor/Watchdogs/Frame.antt =====
-- What the four emitters leave alone, and that each of them reports once.
use end_of_line.Shared.{
  ℕ, some, List, [], ◌∷◌, ◌≡◌, inl, inr, refl, arith, ◌∙◌, Bool-cases, Option-cases, nat_eq,
}
use end_of_line.State.{Claim, Blocker}
use end_of_line.State.Idle.{append_cpu_sample}
use end_of_line.State.Blockers.{stuck_blocker_repings}
use end_of_line.Store.Fields.{write_field, write_fields}
use end_of_line.Store.Conditions.{holder}
use end_of_line.Supervisor.Delta.{require_claim_field, require_blocker}
use end_of_line.Supervisor.Tree.{Proc, walk_worker_tree}
use end_of_line.Supervisor.Work.{
  Work, World, Config, delta_event, stamp_claim, record_claim, stamp_blocker,
}
use end_of_line.Supervisor.Watchdogs.{
  emit_stalled_claim_notify, reping, reping_all, emit_stuck_blocker_repings, is_stuck, report_stuck,
  stuck_loop, emit_stuck_tool, sample_tree, report_idle, emit_worker_idle, gap_fill, stuck_window,
  worker_pid, report_if_idle, cpu_of,
}

-- The emitters judge nothing but their own fields: the observation, the status, who holds the
-- claim, and the decisions that the chain makes later are as before.
abbrev pub Keeps : Work → Work → Type 0
Keeps w v =
    (v.delta.observed ≡ w.delta.observed)
    × (v.plan.status ≡ w.plan.status)
    × (holder v.plan.current_claim ≡ holder w.plan.current_claim)
    × (v.plan.plan_slug ≡ w.plan.plan_slug)
    × (v.delta.release_claim ≡ w.delta.release_claim)
    × (v.delta.status ≡ w.delta.status)
    × (v.delta.claim_phase ≡ w.delta.claim_phase)

Keeps-trans : (u v w : Work) → Keeps u v → Keeps v w → Keeps u w
Keeps-trans u v w a b =
    (b.0 ∙ a.0, b.1 ∙ a.1, b.2 ∙ a.2, b.3 ∙ a.3, b.4 ∙ a.4, b.5 ∙ a.5, b.6 ∙ a.6)

emit_stalled_claim_notify-Keeps : (now : ℕ) (w : Work) → Keeps w (emit_stalled_claim_notify now w)
unfolding emit_stalled_claim_notify delta_event stamp_claim require_claim_field write_fields
    write_field
emit_stalled_claim_notify-Keeps now w = elim (Option-cases w.plan.current_claim) [
  | inl n ↦ ground arith
  | inr (c, y) ↦ ground arith
]

reping-Keeps : (now : ℕ) (b : Blocker) (w : Work) → Keeps w (reping now b w)
unfolding reping delta_event stamp_blocker require_blocker
reping-Keeps now b w = ground arith

reping_all-Keeps : (now : ℕ) (bs : List Blocker) (w : Work) → Keeps w (reping_all now bs w)
unfolding reping_all
reping_all-Keeps now [] w = (refl, refl, refl, refl, refl, refl, refl)
reping_all-Keeps now (b ∷ bs) w =
    Keeps-trans w (reping now b w) (reping_all now bs (reping now b w)) (reping-Keeps now b w)
      (reping_all-Keeps now bs (reping now b w))

report_stuck-Keeps :
    (now pid : ℕ) (c : Claim) (d : Proc) (w : Work)
    → w.plan.current_claim ≡ some c
    → Keeps w (report_stuck now pid c d w)
unfolding report_stuck delta_event record_claim require_claim_field
report_stuck-Keeps now pid c d w h = ground arith

stuck_loop-Keeps :
    (cfg : Config) (now pid active : ℕ) (ds : List Proc) (w : Work)
    → Keeps w (stuck_loop cfg now pid active ds w)
unfolding stuck_loop
stuck_loop-Keeps cfg now pid active [] w = (refl, refl, refl, refl, refl, refl, refl)
stuck_loop-Keeps cfg now pid active (d ∷ ds) w = elim (Option-cases w.plan.current_claim) [
  | inl n ↦ ground arith
  | inr (c, y) ↦ elim (Bool-cases (is_stuck cfg now active c d)) [
    | inl s ↦ ground (
      arith,
      y,
      s,
      report_stuck-Keeps now pid c d w y,
      stuck_loop-Keeps cfg now pid active ds (report_stuck now pid c d w),
    )
    | inr s ↦ ground (arith, y, s, stuck_loop-Keeps cfg now pid active ds w)
  ]
]

emit_stuck_tool-Keeps :
    (cfg : Config) (world : World) (w : Work) → Keeps w (emit_stuck_tool cfg world w)
unfolding emit_stuck_tool
emit_stuck_tool-Keeps cfg world w = elim (Option-cases w.plan.current_claim) [
  | inl n ↦ ground arith
  | inr (c, y) ↦ elim (Option-cases (stuck_window c)) [
    | inl z ↦ ground arith
    | inr ((pid, active), z) ↦ ground (
      arith,
      y,
      z,
      stuck_loop-Keeps cfg world.now pid active (walk_worker_tree pid world.tool_procs) w,
    )
  ]
]

sample_tree-Keeps :
    (cfg : Config) (world : World) (pid : ℕ) (c : Claim) (w : Work)
    → w.plan.current_claim ≡ some c
    → Keeps w (sample_tree cfg world pid c w).1
      × ((sample_tree cfg world pid c w).1.plan.current_claim
          ≡ some (sample_tree cfg world pid c w).0)
unfolding sample_tree append_cpu_sample record_claim require_claim_field
sample_tree-Keeps cfg world pid c w h = elim (Option-cases (cpu_of pid world.idle_procs)) [
  | inl n ↦ ground arith
  | inr (root, y) ↦ ground arith
]

report_if_idle-Keeps :
    (cfg : Config) (now pid : ℕ) (c : Claim) (w : Work)
    → w.plan.current_claim ≡ some c
    → Keeps w (report_if_idle cfg now pid (c, w))
unfolding report_idle delta_event record_claim require_claim_field
report_if_idle-Keeps cfg now pid c w h = ground arith

emit_worker_idle-Keeps :
    (cfg : Config) (world : World) (w : Work) → Keeps w (emit_worker_idle cfg world w)
unfolding emit_worker_idle
emit_worker_idle-Keeps cfg world w = elim (Option-cases w.plan.current_claim) [
  | inl n ↦ ground arith
  | inr (c, y) ↦ elim (Option-cases (worker_pid c.pid)) [
    | inl z ↦ ground arith
    | inr (pid, z) ↦
        let s = sample_tree-Keeps cfg world pid c w y in
        ground (
          arith,
          y,
          z,
          s,
          report_if_idle-Keeps cfg world.now pid (sample_tree cfg world pid c w).0
              (sample_tree cfg world pid c w).1,
        )
  ]
]

pub gap_fill-Keeps : (cfg : Config) (world : World) (w : Work) → Keeps w (gap_fill cfg world w)
unfolding gap_fill emit_stuck_blocker_repings
gap_fill-Keeps cfg world w =
    let a = emit_stalled_claim_notify world.now w in
    let b = emit_stuck_blocker_repings world.now a in
    let c = emit_stuck_tool cfg world b in
    Keeps-trans w c (emit_worker_idle cfg world c)
      (Keeps-trans w b c
        (Keeps-trans w a b (emit_stalled_claim_notify-Keeps world.now w)
          (reping_all-Keeps world.now (stuck_blocker_repings world.now a.plan) a))
        (emit_stuck_tool-Keeps cfg world b))
      (emit_worker_idle-Keeps cfg world c)
