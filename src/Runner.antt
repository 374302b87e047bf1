-- ===== src/Runner.antt =====
-- The campaign runner (plugins/tribe/scripts/runner/core): the Done commands of a card's plan, the
-- judgement of a Done run, the turns in which a session is driven through the plan, the choice of the
-- next card, and the pass over the cards.
pub mod Model
pub mod Plan
pub mod Done
pub mod Effects
pub mod Turns
pub mod Selection
pub mod Pass
pub mod MergeGate
pub mod PlanIndex
pub mod Lock
pub mod Phase
mod Examples
