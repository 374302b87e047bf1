-- ===== src/Runner/Plan.antt =====
-- `doneCommandsThrough` of plugins/tribe/scripts/runner/core/plan-index.ts.
pub mod Commands
use tribe.Base.{ℕ, suc, String, List, [], ◌∷◌, ◌++◌, take, includes, str_eq, if◌then◌else◌}
use tribe.Runner.Model.{ResolvedTask, PlannedCommand}

abbrev pub asked_by : String → PlannedCommand → PlannedCommand
asked_by id p = if includes p.tasks id then p else record p { tasks = p.tasks ++ (id ∷ []) }

-- One Done command of the task `id`: a command that is planned already is recorded against it too.
unfoldable pub add_command : String → String → List PlannedCommand → List PlannedCommand
add_command id command [] = record { command = command; tasks = id ∷ [] } ∷ []
add_command id command (p ∷ ps) =
    let rest = add_command id command ps in
    if str_eq p.command command then asked_by id p ∷ ps else p ∷ rest

unfoldable pub add_commands : String → List String → List PlannedCommand → List PlannedCommand
add_commands id [] planned = planned
add_commands id (c ∷ cs) planned = add_commands id cs (add_command id c planned)

unfoldable pub add_tasks : List ResolvedTask → List PlannedCommand → List PlannedCommand
add_tasks [] planned = planned
add_tasks (t ∷ ts) planned = add_tasks ts (add_commands t.id t.done_commands planned)

unfoldable pub done_commands_through : List ResolvedTask → ℕ → List PlannedCommand
done_commands_through tasks through = add_tasks (take (suc through) tasks) []
