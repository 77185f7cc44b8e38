-- ===== src/Command/Exit.antt =====
-- `ExitCode` of end_of_line/cli.py.
pub data ExitCode : Type 0 where
  ok generic invalid_slug bad_sha claim_mismatch spawn_cap unknown_task status_transition : ExitCode
  invalid_value repair_declined worktree_setup_failed queue_cap : ExitCode
