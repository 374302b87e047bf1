-- ===== src/Supervisor.antt =====
-- The campaign supervisor (plugins/tribe/scripts/runner/core/supervisor): its vocabulary, what the
-- disk says against a watchdog's terminal, the persisted counters, and the decision table.
pub mod Model
pub mod Truth
pub mod State
pub mod Entry
pub mod Decide
pub mod Permit
pub mod Loop
mod Examples
