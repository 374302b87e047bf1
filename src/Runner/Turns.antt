-- ===== src/Runner/Turns.antt =====
-- plugins/tribe/scripts/runner/core/loop/turns.ts: `driveCardTurns` over the effects of
-- Runner/Effects, one reply for each turn.
pub mod Bound
pub mod Returns
pub mod Record
pub mod Evidence
pub mod Shipped
use Prim.Native.Char.{code}
use tribe.Base.{
  ℕ, suc, ◌+◌, ◌-◌, ◌≤◌, String, Bool, true, false, ◌&&◌, ◌||◌, Option, none, some, List, [], ◌∷◌,
  ◌++◌, length, get_elem?, is_some, leb, ◌==◌, str_eq, if◌then◌else◌,
}
use tribe.Runner.Model.{
  ResolvedTask, Card, DoneRunVerdict, Step, task, deliver, DoneRow, TurnAnswer, shipped,
  needs_direction, timeout, task_done, error,
}
use tribe.Runner.Plan.{done_commands_through}
use tribe.Runner.Done.{max_step_attempts, next_step}
use tribe.Runner.Effects.{
  DoneRun, Prompt, Scratch, TurnReply, accept_task_done, clear_final_pass, deliver_turn,
  done_failed_turn, infrastructure, protocol_error_turn, record_branch, record_pass, run_done,
  task_turn, verdict,
}

-- `stopped retryable api_error_code`, `escalated reason`; `finishes` hands the card to
-- `finishShipped`; `throws` is a read past the end of the tasks.
pub data CardEnd : Type 0 where
  stopped : Bool → Option String → CardEnd
  escalated : String → CardEnd
  finishes throws : CardEnd

-- The variables of `driveCardTurns`, with the card that it mutates and the rows of `done.jsonl`. The
-- text of the last problem is left out.
pub record TurnState : Type 0 where
  pub card : Card
  pub attempts : ℕ
  pub override : Option Prompt
  pub first : Bool
  pub rows : List DoneRow

pub data Outcome : Type 0 where
  continues : TurnState → Outcome
  ends : CardEnd → TurnState → Outcome

-- The prompt after a Done run that did not pass: about the command that failed, or a protocol error.
abbrev pub failed_prompt : DoneRunVerdict → String → Prompt → ℕ → Prompt
failed_prompt v id plain attempt =
    if is_some v.failed then done_failed_turn id attempt else protocol_error_turn plain attempt

-- One more attempt of the step is spent; the third escalates.
unfoldable pub spend : TurnState → Option Prompt → Outcome
spend s prompt =
    let n = suc s.attempts in
    let t = record s { attempts = n; override = prompt } in
    if leb max_step_attempts n then ends (escalated "done_failed") t else continues t

abbrev pub refuse : TurnState → Prompt → Outcome
refuse s plain = spend s (some (protocol_error_turn plain (suc s.attempts)))

abbrev pub is_deliver : Step → Bool
is_deliver deliver = true
is_deliver (task i) = false

-- The task that a `task_done` must name: the step's own, during delivery the last.
abbrev pub expected_index : List ResolvedTask → Step → ℕ
expected_index tasks (task i) = i
expected_index tasks deliver = length tasks - 1

abbrev pub step_prompt : Step → ResolvedTask → Prompt
step_prompt deliver t = deliver_turn
step_prompt (task i) t = task_turn t.id

module _ (tasks : List ResolvedTask) where
  -- The verdict of the Done run of a turn.
  unfoldable pub judged :
      Step → ResolvedTask → Prompt → String → String → DoneRun → TurnState → Outcome
  unfolding spend record_pass
  judged step t plain tip branch (infrastructure reason) s = ends (stopped false none) s
  judged step t plain tip branch (verdict v) s =
      let passed = record s { card = record_pass (expected_index tasks step) tip branch s.card } in
      if v.passed
      then (if is_deliver step
          then spend passed none
          else continues (record passed { attempts = 0 }))
      else spend s (some (failed_prompt v t.id plain (suc s.attempts)))

  -- An accepted `task_done`.
  unfoldable pub check_done :
      TurnReply → Step → ResolvedTask → Prompt → String → String → TurnState → Outcome
  unfolding judged run_done record_branch
  check_done reply step t plain tip branch s =
      let planned = done_commands_through tasks (expected_index tasks step) in
      let (run, rows) = run_done reply.scratch planned tip t.id (suc s.attempts) in
      judged step t plain tip branch run
        (record s { card = record_branch branch s.card; rows = s.rows ++ rows })

  -- What the session's answer to a turn means.
  unfoldable pub answered : TurnReply → Step → ResolvedTask → TurnAnswer → TurnState → Outcome
  unfolding check_done accept_task_done spend
  answered reply step t (error (some code)) s = ends (stopped false (some code)) s
  answered reply step t (error none) s = ends (stopped true none) s
  answered reply step t timeout s = ends (stopped false none) s
  answered reply step t needs_direction s = ends (escalated "needs_direction") s
  answered reply step t shipped s =
      if is_deliver step then ends finishes s else refuse s (step_prompt step t)
  answered reply step t (task_done id branch) s =
      if str_eq id t.id
      then elim (accept_task_done reply s.card branch) [
        | none ↦ refuse s (step_prompt step t)
        | some tip ↦ check_done reply step t (step_prompt step t) tip branch s
      ]
      else refuse s (step_prompt step t)

  abbrev pub prompt_of : Option Prompt → Prompt → Prompt
  prompt_of none plain = plain
  prompt_of (some p) plain = p

  abbrev pub at_step : TurnReply → Step → TurnState → Outcome
  at_step reply step s = elim (get_elem? tasks (expected_index tasks step)) [
    | none ↦ ends throws s
    | some t ↦
        answered reply step t (reply.run_turn (prompt_of s.override (step_prompt step t)) s.first)
          (record s { override = none; first = false })
  ]

  -- The body of the loop.
  unfoldable pub turn : TurnReply → TurnState → Outcome
  unfolding answered
  turn reply s = elim (next_step s.card) [ none ↦ ends throws s | some step ↦ at_step reply step s ]

  unfoldable pub turns : List TurnReply → TurnState → Outcome
  turns [] s = continues s
  turns (reply ∷ replies) s = elim (turn reply s) [
    | continues t ↦ turns replies t
    | ends e t ↦ ends e t
  ]

  abbrev pub start_state : Card → TurnState
  start_state card = record { card = card; attempts = 0; override = none; first = true; rows = [] }

  -- The loop's start after the Done run of a card that is to be delivered.
  abbrev pub rechecked : ResolvedTask → DoneRun → TurnState → Outcome
  rechecked t (infrastructure reason) s = ends (stopped false none) s
  rechecked t (verdict v) s =
      if v.passed
      then continues s
      else continues (record s {
        card = clear_final_pass s.card;
        attempts = 1;
        override = some (failed_prompt v t.id (task_turn t.id) 1);
      })

  abbrev pub recheck : Scratch → ResolvedTask → String → TurnState → Outcome
  recheck scratch t sha s =
      let planned = done_commands_through tasks (length tasks - 1) in
      let (run, rows) = run_done scratch planned sha t.id 1 in
      rechecked t run (record s { rows = s.rows ++ rows })

  unfoldable pub entry : Scratch → Card → Outcome
  unfolding run_done clear_final_pass
  entry scratch card = elim (next_step card) [
    | none ↦ ends throws (start_state card)
    | some (task i) ↦ continues (start_state card)
    | some deliver ↦ elim (get_elem? tasks (length tasks - 1)) [
      | none ↦ ends throws (start_state card)
      | some t ↦ elim card.done_sha [
        | none ↦ ends throws (start_state card)
        | some sha ↦ recheck scratch t sha (start_state card)
      ]
    ]
  ]

  unfoldable pub drive_card_turns : Scratch → List TurnReply → Card → Outcome
  unfolding entry turns
  drive_card_turns scratch replies card = elim (entry scratch card) [
    | continues s ↦ turns replies s
    | ends e s ↦ ends e s
  ]
