-- ===== src/Runner/Effects.antt =====
-- The effects of a turn, as plugins/tribe/scripts/runner/core/loop/card-actions.ts gives them to
-- loop/turns.ts (`TurnDeps`): `acceptTaskDone`, `runDone`, `recordBranch`, `recordPass` and
-- `clearFinalPass`. What git, the shell and the session answer is an input.
use Prim.Native.Char.{code}
use tribe.Base.{
  ℕ, String, Bool, false, not, ◌&&◌, ◌||◌, Option, none, some, List, [], ◌∷◌, leb, ◌==◌, str_eq,
  if◌then◌else◌,
}
use tribe.Runner.Model.{
  TaskRef, Card, PlannedCommand, DoneCommandResult, DoneRunVerdict, DoneRow, TurnAnswer,
}
use tribe.Runner.Done.{is_failure, judge_done_run, done_rows, apply_pass}

-- What the session is told: the prompts by what they are about, their text left out.
pub data Prompt : Type 0 where
  task_turn : String → Prompt
  deliver_turn : Prompt
  done_failed_turn : String → ℕ → Prompt
  protocol_error_turn : Prompt → ℕ → Prompt

pub record ShellRun : Type 0 where
  pub exit_code : ℕ
  pub timed_out : Bool

-- What the scratch checkout of a Done run meets: a failure to make it or to remove it, and what the
-- shell answers to each command.
pub record Scratch : Type 0 where
  pub checkout_failure : Option String
  pub shell : String → ShellRun
  pub cleanup_failure : Option String

-- What one turn is answered: the session's answer to the prompt, what git says of a branch (is it a
-- ref name, its tip, does the tip descend from the base), and the Done run's checkout.
pub record TurnReply : Type 0 where
  pub run_turn : Prompt → Bool → TurnAnswer
  pub is_ref : String → Bool
  pub tip : String → Option String
  pub descends : String → String → Bool
  pub scratch : Scratch

pub data DoneRun : Type 0 where
  verdict : DoneRunVerdict → DoneRun
  infrastructure : String → DoneRun

abbrev pub result_of : PlannedCommand → ShellRun → DoneCommandResult
result_of p run = record {
  command = p.command;
  exit_code = run.exit_code;
  timed_out = run.timed_out;
}

-- The commands in order, up to the first failure.
unfoldable pub run_commands : (String → ShellRun) → List PlannedCommand → List DoneCommandResult
run_commands shell [] = []
run_commands shell (p ∷ ps) =
    let r = result_of p (shell p.command) in
    let rest = run_commands shell ps in r ∷ (if is_failure r then [] else rest)

-- The answer of a Done run, and the rows that it appends.
unfoldable pub run_done :
    Scratch → List PlannedCommand → String → String → ℕ → DoneRun × List DoneRow
run_done scratch planned sha step_task attempt =
    let results = run_commands scratch.shell planned in
    let v = judge_done_run planned results in
    elim scratch.checkout_failure [
      | some reason ↦ (infrastructure reason, [])
      | none ↦ (
        elim scratch.cleanup_failure [ some reason ↦ infrastructure reason | none ↦ verdict v ],
        done_rows step_task attempt sha planned results v,
      )
    ]

-- JavaScript's `\s`.
abbrev pub is_space : ℕ → Bool
is_space n =
    (leb 9 n && leb n 13)
    || n == 32
    || n == 160
    || n == 5760
    || (leb 8192 n && leb n 8202)
    || n == 8232
    || n == 8233
    || n == 8239
    || n == 8287
    || n == 12288
    || n == 65279

abbrev pub has_space : String → Bool
has_space String.[] = false
has_space (String.◌∷◌ c s) = is_space (code c) || has_space s

-- Neither empty nor an option of git.
abbrev pub starts_plainly : String → Bool
starts_plainly String.[] = false
starts_plainly (String.◌∷◌ c s) = not (code c == 45)

abbrev pub other_branch : Option String → String → Bool
other_branch none branch = false
other_branch (some b) branch = not (str_eq b branch)

-- `acceptTaskDone`: the tip of the branch, `none` for a refusal.
unfoldable pub accept_task_done : TurnReply → Card → String → Option String
accept_task_done reply card branch =
    if not (starts_plainly branch) || has_space branch
    then none
    else if not (reply.is_ref branch)
    then none
    else elim (reply.tip branch) [
      | none ↦ none
      | some tip ↦ if other_branch card.branch branch then none else elim card.base_sha [
        | none ↦ none
        | some base ↦ if reply.descends base tip then some tip else none
      ]
    ]

abbrev pub or_branch : Option String → String → Option String
or_branch none branch = some branch
or_branch (some b) branch = some b

unfoldable pub record_branch : String → Card → Card
record_branch branch card = record card { branch = or_branch card.branch branch }

unfoldable pub record_pass : ℕ → String → String → Card → Card
unfolding apply_pass
record_pass through sha branch card =
    let (tasks, done_sha) = apply_pass card.tasks through sha in
    record card { tasks = tasks; done_sha = done_sha; branch = or_branch card.branch branch }

abbrev pub unpass_last : List TaskRef → List TaskRef
unpass_last [] = []
unpass_last (t ∷ []) = record t { passed_sha = none } ∷ []
unpass_last (t ∷ u ∷ ts) = t ∷ unpass_last (u ∷ ts)

unfoldable pub clear_final_pass : Card → Card
clear_final_pass card = record card { tasks = unpass_last card.tasks; done_sha = none }
