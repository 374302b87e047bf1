-- ===== src/Lib.antt =====
-- The campaign control of tribe: a runner works through the cards of a campaign, a watchdog keeps a
-- runner going, and a supervisor keeps the watchdog going and answers escalations. All three are a
-- pure decision on a typed observation under an impure loop, in plugins/tribe/scripts/runner/core.
-- This library models the decisions, and of the loops what they do to the state that the next
-- decision reads.
--
-- Watchdog (core/watchdog). Watchdog/Model is model.ts; Watchdog/Select is select.ts (newestRunId,
-- newestRunIdExcluding, newestLog, isStale); Watchdog/Decide is decide.ts, one function for each
-- section of `decide`, `none` where a section falls through. Watchdog/Loop is watch-loop.ts: its
-- LoopState, `observe` (Loop/Observe) and the body of `runWatchdog` (Loop/Tick). What a tick reads
-- from the disk and the processes is a `World`, and what its action is answered a `Reply`, both
-- arbitrary at each tick, so a theorem on `run` speaks of every order of events.
--
-- Supervisor (core/supervisor). Supervisor/Model is model.ts; Supervisor/Truth is truth.ts;
-- Supervisor/State is the counters of state.ts; Supervisor/Entry (rows V1 to V8 and P1 to P5) and
-- Supervisor/Decide (rows 1 to 28, and `decide`) are decide.ts; Supervisor/Loop is what the
-- `switch` of loop.ts does to the persisted counters. The watchdog's terminal reason is the text on
-- which the supervisor's rows are keyed, and both compare run ids by the same order
-- (Watchdog/Select).
--
-- Runner (core). Runner/Model is the plan's vocabulary (types.ts, plan-index.ts, done.ts,
-- session.ts); Runner/PlanIndex is resolveTaskIndex of plan-index.ts, from the characters of the
-- plan, and Runner/Plan its doneCommandsThrough; Runner/Done is done.ts;
-- Runner/Turns is driveCardTurns of loop/turns.ts, and Runner/Effects the effects that
-- loop/card-actions.ts gives it. What the session, git and the shell answer is a `TurnReply`, one
-- for each turn. Runner/Selection is the choice of the next card in state.ts, and Runner/Pass the
-- serial pass of loop/run-loop.ts over it.
--
-- Runner/Lock is the lock of loop/lock.ts, with the processes that take it in a step relation:
-- acquireLock's look at the lock file and its write are two steps, between which others may act.
-- Lock/Race is about starts that overlap so, Lock/Separate about those that do not.
--
-- Runner/Phase is deriveCardPhase of loop/phase.ts, on what gh and git print.
--
-- Runner/MergeGate is merge-gate.ts with decideMergeGateHook of session.ts: its tokenizer
-- (MergeGate/Shell), the reading of a `gh pr merge`, and the decision. What `gh` prints is an input,
-- as the value JSON.parse gives.
--
-- Watchdog/Args is parseWatchdogArgs of core/watchdog/args.ts, with a pending flag in its state where
-- the loop reads the next argument. Watchdog/Home is resolveHomeArg and containHome of the same
-- file, and Supervisor/Permit the hooks of core/supervisor/permit.ts, over Base/Paths, which is what
-- `node:path` does with POSIX paths. `realpath` is a parameter, with `none` where it throws.
--
-- Viewer (plugins/tribe/scripts/viewer/core). Viewer/Tail is tail.ts: the state of a tail and
-- advanceTail, over the raw bytes of each read; a stream is the list of its reads, each with what
-- `stat` answered. `TextDecoder.decode` is a parameter. Viewer/Window is findWindow of window.ts, over
-- any count of the candidates of a row; each chunk goes at least a byte back and each row has its
-- newline, so the offset it starts from is fuel enough for either loop. `readBack` is a parameter, the
-- file it reads the byte at each offset (Window/Newlines).
--
-- Interplay is the contract between the watchdog's terminal reasons and the supervisor's rows. Each
-- part has a module Examples with the concrete inputs at which its theorems are applied.
--
-- Bounds. The loops are recursion on the list of their ticks or replies, so a theorem on the
-- watchdog's `run` speaks of every list. A step of a card allows three turns, so three replies for
-- each task and three for the delivery are enough for `driveCardTurns`; a pass attempts a card
-- once, so one reply for each card and one more are enough for `runPass`. `computeBlockedCardIds`
-- is on fuel, one pass for each card and one more, since every pass but the last finds a card.
-- Instants, durations and counters are natural numbers, and a difference below 0 is 0, where the
-- source compares it with a bound that is not negative.
--
-- Not modelled: JSON, the command lines of the runner and the supervisor, the rendering of status files, events, briefs and owner
-- documents (the free text of a park among them), the sleeping between ticks, the SDK sessions and
-- the git and GitHub commands. A run record, the signals of a log and the verdict of a session are
-- inputs.
pub mod Base
pub mod Watchdog
pub mod Supervisor
pub mod Runner
pub mod Viewer
pub mod Interplay
