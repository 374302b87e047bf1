-- ===== src/Supervisor/State.antt =====
-- plugins/tribe/scripts/runner/core/supervisor/state.ts: the persisted counters. Parsing and
-- printing the file's JSON are left out.
pub mod Rulings
use tribe.Base.{ℕ, ◌+◌, String, false, not, List, [], ◌∷◌, ◌++◌, get_or, lookup, includes, keep}
use tribe.Supervisor.Model.{SupervisorState}

unfoldable pub zero_state : SupervisorState
zero_state = record {
  ruling_rounds = [];
  spawns = 0;
  watchdog_runs = 0;
  seen_escalations = [];
  closing_verified = false;
  retriggers = [];
}

abbrev pub watchdog_retrigger_keys : List String
watchdog_retrigger_keys = "session_incomplete" ∷ "watchdog_no_terminal" ∷ "stale_terminal" ∷ []

unfoldable pub clear_watchdog_retriggers : SupervisorState → SupervisorState
clear_watchdog_retriggers s = record s {
  retriggers = keep (λ e. not (includes watchdog_retrigger_keys e.0)) s.retriggers;
}

abbrev pub rounds_of : SupervisorState → String → ℕ
rounds_of s card_id = get_or (lookup card_id s.ruling_rounds) 0

abbrev pub seen_of : SupervisorState → String → List String
seen_of s card_id = get_or (lookup card_id s.seen_escalations) []

unfoldable pub apply_ruling_outcome : SupervisorState → String → String → SupervisorState
apply_ruling_outcome s card_id sha = record s {
  ruling_rounds = (card_id, rounds_of s card_id + 1) ∷ s.ruling_rounds;
  seen_escalations = (card_id, seen_of s card_id ++ (sha ∷ [])) ∷ s.seen_escalations;
}
