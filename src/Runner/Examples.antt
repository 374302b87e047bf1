-- ===== src/Runner/Examples.antt =====
-- The theorems on the runner's plan and turns (plugins/tribe/scripts/runner/core) at a concrete card
-- of two tasks.
use tribe.Base.{◌≡◌, ◌≤◌, ◌↔◌, refl, String, true, false, none, some, List, [], ◌∷◌, take, arith}
use tribe.Runner.Model.{
  ResolvedTask, Card, PlannedCommand, DoneCommandResult, task, TurnAnswer, shipped, timeout,
  task_done,
}
use tribe.Runner.Plan.{done_commands_through}
use tribe.Runner.Plan.Commands.{plans, asks, Distinct, done_commands_through_lem}
use tribe.Runner.Done.{first_unpassed, next_step, judge_done_run}
use tribe.Runner.Done.Judge.{AllGreen, judge_done_run_lem}
use tribe.Runner.Selection.{
  CardStatus, CampaignCard, CardFiles, NextCard, compute_blocked_card_ids, next_card,
}
use tribe.Runner.Selection.Blocked.{Exact, compute_blocked_card_ids-Exact}
use tribe.Runner.Selection.Next.{Chosen, next_card-Chosen}
use tribe.Runner.Pass.Exit.{all_shipped, compute_exit_code_lem}
use tribe.Runner.Pass.{
  any_outcome, is_parked, compute_exit_code, CardOutcome, PassConfig, PassReply, run_pass,
}
use tribe.Runner.Pass.Once.{EndsOrderly, run_pass-EndsOrderly}
use tribe.Runner.Turns.{drive_card_turns}
use tribe.Runner.Effects.{
  Prompt, task_turn, deliver_turn, done_failed_turn, protocol_error_turn, Scratch, TurnReply,
}
use tribe.Runner.Turns.Returns.{Returns, drive_card_turns-Returns}
use tribe.Runner.Turns.Shipped.{ShipsProven, drive_card_turns-ShipsProven}

abbrev tasks : List ResolvedTask
tasks =
    record { id = "T1"; heading = "Build"; done_commands = "go build" ∷ "go vet" ∷ [] }
    ∷ record { id = "T2"; heading = "Test"; done_commands = "go build" ∷ "go test" ∷ [] }
    ∷ []

abbrev card : Card
card = record {
  branch = none;
  base_sha = some "base";
  tasks =
      record { id = "T1"; heading = "Build"; passed_sha = none }
      ∷ record { id = "T2"; heading = "Test"; passed_sha = none }
      ∷ [];
  done_sha = none;
}

done_commands_through_lem_example :
    ((c : String) → plans (done_commands_through tasks 1) c ≡ asks (take 2 tasks) c)
    × Distinct (done_commands_through tasks 1)
done_commands_through_lem_example = done_commands_through_lem tasks 1

abbrev planned : List PlannedCommand
planned =
    record { command = "go build"; tasks = "T1" ∷ "T2" ∷ [] }
    ∷ record { command = "go vet"; tasks = "T1" ∷ [] }
    ∷ []

abbrev results : List DoneCommandResult
results =
    record { command = "go build"; exit_code = 0; timed_out = false }
    ∷ record { command = "go vet"; exit_code = 1; timed_out = false }
    ∷ []

judge_done_run_lem_example :
    ((judge_done_run planned results).passed ≡ true) ↔ (AllGreen results × (2 ≤ 2))
judge_done_run_lem_example = judge_done_run_lem planned results

first_is_next : next_step card ≡ some (task 0)
unfolding next_step first_unpassed
first_is_next = refl

-- A session that does what it is told, and commands that all pass.
abbrev obey : Prompt → TurnAnswer
obey (task_turn id) = task_done id "card-1"
obey deliver_turn = shipped
obey (done_failed_turn id attempt) = timeout
obey (protocol_error_turn plain attempt) = timeout

abbrev all_pass : Scratch
all_pass = record {
  checkout_failure = none;
  shell = λ command. record { exit_code = 0; timed_out = false };
  cleanup_failure = none;
}

abbrev reply : TurnReply
reply = record {
  run_turn = λ prompt first. obey prompt;
  is_ref = λ branch. true;
  tip = λ branch. some "tip";
  descends = λ base tip. true;
  scratch = all_pass;
}

abbrev replies : List TurnReply
replies = reply ∷ reply ∷ reply ∷ reply ∷ reply ∷ reply ∷ reply ∷ reply ∷ reply ∷ []

drive_card_turns-Returns_example : Returns tasks (drive_card_turns tasks all_pass replies card)
drive_card_turns-Returns_example =
    drive_card_turns-Returns tasks all_pass replies card (ground arith) refl (ground arith)

drive_card_turns-ShipsProven_example :
    ShipsProven tasks (drive_card_turns tasks all_pass replies card)
drive_card_turns-ShipsProven_example = drive_card_turns-ShipsProven tasks all_pass replies card refl

abbrev waiting : CardStatus → List String → CampaignCard
waiting status depends_on = record {
  status = status;
  spec = some "docs/spec.md";
  plan = some "docs/plan.md";
  depends_on = depends_on;
}

-- C waits for B, and B for the escalated A; D waits for nothing.
abbrev chain : List (String × CampaignCard)
chain =
    ("C", waiting CardStatus.staged ("B" ∷ []))
    ∷ ("B", waiting CardStatus.staged ("A" ∷ []))
    ∷ ("A", waiting CardStatus.escalated [])
    ∷ ("D", waiting CardStatus.blocked [])
    ∷ []

compute_blocked_card_ids-Exact_example :
    (found : List String) × (compute_blocked_card_ids chain ≡ some found) × Exact chain found
compute_blocked_card_ids-Exact_example = compute_blocked_card_ids-Exact chain

abbrev all_there : CardFiles
all_there = record { file_exists = λ path. true; escalation_present = λ id. true }

next_card-Chosen_example :
    (a : NextCard) × (trued : List (String × CampaignCard)) × (next_card
        ("C" ∷ "A" ∷ "D" ∷ [])
        chain
        all_there
        false
      ≡ some (a, trued))
    × Chosen chain all_there false ("C" ∷ "A" ∷ "D" ∷ []) trued ("C" ∷ "A" ∷ "D" ∷ []) a
next_card-Chosen_example = next_card-Chosen ("C" ∷ "A" ∷ "D" ∷ []) chain all_there false

abbrev pass_config : PassConfig
pass_config = record {
  sequence = "C" ∷ "D" ∷ [];
  cards_filter = [];
  include_escalated = false;
  max_cards = some 1;
}

abbrev pass_reply : PassReply
pass_reply = record {
  stop_file_present = false;
  files = all_there;
  is_pending = λ n. false;
  act_on_card = λ n id. CardOutcome.shipped id;
  cards_after = chain;
}

run_pass-EndsOrderly_example :
    EndsOrderly pass_config (run_pass pass_config (pass_reply ∷ pass_reply ∷ pass_reply ∷ []) chain)
run_pass-EndsOrderly_example =
    run_pass-EndsOrderly pass_config (pass_reply ∷ pass_reply ∷ pass_reply ∷ []) chain
      (ground arith)

abbrev mixed : List CardOutcome
mixed =
    CardOutcome.shipped "A"
    ∷ CardOutcome.stopped "B" true none
    ∷ CardOutcome.escalation_pending "C"
    ∷ []

compute_exit_code_lem_example :
    ((compute_exit_code mixed ≡ 0) ↔ (all_shipped mixed ≡ true))
    × ((compute_exit_code mixed ≡ 2) ↔ (any_outcome is_parked mixed ≡ true))
    × ((compute_exit_code mixed ≡ 3)
        ↔ ((all_shipped mixed ≡ false) × (any_outcome is_parked mixed ≡ false)))
compute_exit_code_lem_example = compute_exit_code_lem mixed
