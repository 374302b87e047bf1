-- ===== src/Watchdog.antt =====
-- The campaign watchdog (plugins/tribe/scripts/runner/core/watchdog): its vocabulary, the choice of
-- the newest run and log, the decision table, and the loop that carries the decisions out.
pub mod Model
pub mod Select
pub mod Decide
pub mod Home
pub mod Args
pub mod Loop
mod Examples
