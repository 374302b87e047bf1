-- ===== src/Runner/Phase/Examples.antt =====
-- The theorem on the phase of a card (plugins/tribe/scripts/runner/core/loop/phase.ts) at a card whose
-- pull request is open and whose session was never recorded.
use tribe.Base.{false, none, some, codes}
use tribe.Runner.Phase.{PhaseCard, Facts}
use tribe.Runner.Phase.Justified.{Justified}

abbrev unrecorded : PhaseCard
unrecorded = record { branch = some (codes "card/c1"); session_id = none }

abbrev open_on_github : Facts
open_on_github = record {
  escalation_exists = false;
  pr_exit_code = 0;
  pr_json = some (record { number = some 12; state = some "OPEN" });
  worktrees = codes "worktree /repo\nbranch refs/heads/main\n";
  remote_heads = codes "abc refs/heads/card/c1\n";
}
