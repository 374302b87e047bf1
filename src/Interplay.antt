-- ===== src/Interplay.antt =====
-- The contract between the two tables of plugins/tribe/scripts/runner/core: what a watchdog that
-- runs with `--follow` publishes as its terminal (watchdog/decide.ts and watch-loop.ts), and the rows
-- by which the supervisor answers it (supervisor/decide.ts).
pub mod Reasons
pub mod Handled
mod Examples
