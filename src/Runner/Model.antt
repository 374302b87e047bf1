-- ===== src/Runner/Model.antt =====
-- The vocabulary of a card's plan: plugins/tribe/scripts/runner/core/types.ts, plan-index.ts, done.ts
-- and session.ts, as far as the turns read and write it.
use tribe.Base.{ℕ, String, Bool, Option, List}

pub record TaskRef : Type 0 where
  pub id : String
  pub heading : String
  pub passed_sha : Option String

pub record ResolvedTask : Type 0 where
  pub id : String
  pub heading : String
  pub done_commands : List String

-- The fields of a card that its turns use.
pub record Card : Type 0 where
  pub branch : Option String
  pub base_sha : Option String
  pub tasks : List TaskRef
  pub done_sha : Option String

pub record PlannedCommand : Type 0 where
  pub command : String
  pub tasks : List String

-- Durations and the tails of the output are left out.
pub record DoneCommandResult : Type 0 where
  pub command : String
  pub exit_code : ℕ
  pub timed_out : Bool

-- `planned` of a failure is `none` where the source reads past the end of the plan.
pub record FailedCommand : Type 0 where
  pub planned : Option PlannedCommand
  pub result : DoneCommandResult

pub record DoneRunVerdict : Type 0 where
  pub passed : Bool
  pub failed : Option FailedCommand
  pub not_run : List PlannedCommand

-- The id of a step's task, which only messages carry, is left out.
pub data Step : Type 0 where
  task : ℕ → Step
  deliver : Step

-- One row of `done.jsonl`. `command_row step_task attempt sha tasks result` and
-- `done_run_row step_task attempt sha passed failed_command not_run`.
pub data DoneRow : Type 0 where
  command_row : String → ℕ → String → List String → DoneCommandResult → DoneRow
  done_run_row : String → ℕ → String → Bool → Option String → List String → DoneRow

-- How one session turn ended, with what each outcome carries: a permanent API error's code on
-- `error`, the task and the branch on `task_done`.
pub data TurnAnswer : Type 0 where
  shipped needs_direction timeout : TurnAnswer
  task_done : String → String → TurnAnswer
  error : Option String → TurnAnswer
