-- ===== src/Examples/Watches.antt =====
-- The watchdogs of end_of_line/supervisor.py on a sample claim and process table.
use end_of_line.Shared.{◌+◌, List, [], ◌∷◌, ◌≡◌, arith, string_eq, nat_eq}
use end_of_line.Supervisor.Tree.{walk, walk_worker_tree}
use end_of_line.Supervisor.Tree.{Proc}
use end_of_line.Supervisor.Tree.Walk.{walk_worker_tree-enough}
use end_of_line.Supervisor.Watchdogs.Once.{report_idle_once, IsQuietAfter}
use end_of_line.Examples.{claimed_plan, old_claim, settings, work_of, noon}

abbrev child : Proc
child = record { pid = 8; parent_pid = 7; elapsed = 700000000; cpu = 0; command = "sleep" }

-- A grandchild whose own child claims to be the root: a cycle.
abbrev procs : List Proc
procs =
    child
    ∷ record { pid = 9; parent_pid = 8; elapsed = 0; cpu = 0; command = "sh" }
    ∷ record { pid = 7; parent_pid = 9; elapsed = 0; cpu = 0; command = "worker" }
    ∷ []

walk_worker_tree-enough_example : walk 9 procs (7 ∷ []) (7 ∷ []) ≡ walk_worker_tree 7 procs
walk_worker_tree-enough_example = walk_worker_tree-enough 9 7 procs (omega arith)

report_idle_once_example :
    IsQuietAfter settings noon (noon + 30000000) 7 old_claim (work_of claimed_plan)
report_idle_once_example =
    report_idle_once settings noon (noon + 30000000) 7 old_claim (work_of claimed_plan)
