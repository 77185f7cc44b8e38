-- ===== src/Supervisor.antt =====
-- end_of_line/supervisor.py: one tick as snapshot, detection and apply.
pub mod Delta
pub mod Tree
pub mod Work
pub mod Watchdogs
pub mod Deaths
pub mod Lane
pub mod Tick
