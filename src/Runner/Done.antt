-- ===== src/Runner/Done.antt =====
-- plugins/tribe/scripts/runner/core/done.ts: the next step of a card, the verdict on a Done run, its
-- record, and what a pass does to the card.
pub mod Judge
pub mod Progress
use tribe.Base.{
  ℕ, zero, suc, ◌-◌, String, Bool, true, false, not, ◌&&◌, ◌||◌, Option, none, some, List, [], ◌∷◌,
  ◌++◌, map, length, get_elem?, drop, is_some, ltb, ◌==◌, if◌then◌else◌,
}
use tribe.Runner.Model.{
  TaskRef, Card, PlannedCommand, DoneCommandResult, FailedCommand, DoneRunVerdict, Step, task,
  deliver, DoneRow, command_row, done_run_row,
}

abbrev pub max_step_attempts : ℕ
max_step_attempts = 3

abbrev pub next_index : Option ℕ → Option ℕ
next_index none = none
next_index (some i) = some (suc i)

-- `tasks.findIndex((task) => task.passedSha === undefined)`.
unfoldable pub first_unpassed : List TaskRef → Option ℕ
first_unpassed [] = none
first_unpassed (t ∷ ts) =
    let rest = first_unpassed ts in if is_some t.passed_sha then next_index rest else some 0

-- The last task; `none` where a card without tasks makes the source throw.
abbrev pub redo_last : List TaskRef → Option Step
redo_last [] = none
redo_last (t ∷ ts) = some (task (length ts))

unfoldable pub next_step : Card → Option Step
next_step card = elim (first_unpassed card.tasks) [
  | some i ↦ some (task i)
  | none ↦ if is_some card.done_sha then some deliver else redo_last card.tasks
]

abbrev pub is_failure : DoneCommandResult → Bool
is_failure r = not (r.exit_code == 0) || r.timed_out

abbrev pub after_first : Option (ℕ × DoneCommandResult) → Option (ℕ × DoneCommandResult)
after_first none = none
after_first (some (i, r)) = some (suc i, r)

-- The first result that is a failure, with its index.
unfoldable pub find_failed : List DoneCommandResult → Option (ℕ × DoneCommandResult)
find_failed [] = none
find_failed (r ∷ rs) =
    let rest = find_failed rs in if is_failure r then some (0, r) else after_first rest

unfoldable pub judge_done_run : List PlannedCommand → List DoneCommandResult → DoneRunVerdict
judge_done_run planned results = elim (find_failed results) [
  | some (i, r) ↦ record {
    passed = false;
    failed = some (record { planned = get_elem? planned i; result = r });
    not_run = drop (suc i) planned;
  }
  | none ↦
      if ltb (length results) (length planned)
      then record { passed = false; failed = none; not_run = drop (length results) planned }
      else record { passed = true; failed = none; not_run = [] }
]

abbrev pub failed_command : Option FailedCommand → Option String
failed_command none = none
failed_command (some f) = some f.result.command

-- One row for each executed command.
unfoldable pub command_rows :
    String → ℕ → String → List PlannedCommand → List DoneCommandResult → List DoneRow
command_rows step attempt sha (p ∷ ps) (r ∷ rs) =
    command_row step attempt sha p.tasks r ∷ command_rows step attempt sha ps rs
command_rows step attempt sha _ _ = []

unfoldable pub done_rows :
    String
    → ℕ
    → String
    → List PlannedCommand
    → List DoneCommandResult
    → DoneRunVerdict
    → List DoneRow
done_rows step attempt sha planned results v =
    command_rows step attempt sha planned results
    ++ (done_run_row step attempt sha v.passed (failed_command v.failed)
          (map (λ p. p.command) v.not_run)
        ∷ [])

-- `tasks.map((task, i) => i <= through ? {...task, passedSha: sha} : {...task})`.
unfoldable pub mark_passed : ℕ → String → List TaskRef → List TaskRef
mark_passed n sha [] = []
mark_passed zero sha (t ∷ ts) = record t { passed_sha = some sha } ∷ ts
mark_passed (suc n) sha (t ∷ ts) = record t { passed_sha = some sha } ∷ mark_passed n sha ts

unfoldable pub apply_pass : List TaskRef → ℕ → String → List TaskRef × Option String
apply_pass tasks through sha =
    (mark_passed through sha tasks, if suc through == length tasks then some sha else none)
