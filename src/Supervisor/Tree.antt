-- ===== src/Supervisor/Tree.antt =====
-- `walk_worker_tree` of end_of_line/supervisor.py: the descendants of a worker in one `ps` snapshot.
-- Durations are in microseconds, as every duration of the development.
pub mod Walk
use end_of_line.Shared.{
  ℕ, zero, suc, ◌+◌, String, List, [], ◌∷◌, ◌++◌, Bool, true, false, if◌then◌else◌, ◌==◌, nat_eq,
  filter, length, contains,
}

pub record Proc : Type 0 where
  pub pid : ℕ
  pub parent_pid : ℕ
  pub elapsed : ℕ
  pub cpu : ℕ
  pub command : String

abbrev pub pids : List Proc → List ℕ
pids [] = []
pids (p ∷ rest) = p.pid ∷ pids rest

-- `by_ppid.get(current, [])`
abbrev pub children : ℕ → List Proc → List Proc
children current procs = filter (λ p. p.parent_pid == current) procs

-- The loop over the children: those not seen yet, each of which is seen from then on.
unfoldable pub unseen : List ℕ → List Proc → List Proc
unseen seen [] = []
unseen seen (p ∷ rest) =
    let skipped = unseen seen rest in
    let taken = unseen (p.pid ∷ seen) rest in if contains p.pid seen then skipped else p ∷ taken

unfoldable pub walk : ℕ → List Proc → List ℕ → List ℕ → List Proc
unfolding unseen
walk zero procs queue seen = []
walk (suc fuel) procs [] seen = []
walk (suc fuel) procs (current ∷ queue) seen =
    let found = unseen seen (children current procs) in
    found ++ walk fuel procs (queue ++ pids found) (pids found ++ seen)

-- Every round takes one pid off the queue, and a pid enters it once.
unfoldable pub walk_worker_tree : ℕ → List Proc → List Proc
unfolding walk
walk_worker_tree root procs = walk (suc (length procs)) procs (root ∷ []) (root ∷ [])
