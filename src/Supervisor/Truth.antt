-- ===== src/Supervisor/Truth.antt =====
-- plugins/tribe/scripts/runner/core/supervisor/truth.ts: whether the runs on disk contradict the
-- watchdog's terminal, and whether a park still holds.
pub mod Liveness
use tribe.Base.{
  ℕ, ◌+◌, String, Bool, true, false, not, ◌&&◌, Option, none, some, List, [], ◌∷◌, ltb, str_eq,
  if◌then◌else◌, get_or, is_some, lookup, keep,
}
use tribe.Watchdog.Select.{str_lt}
use tribe.Supervisor.Model.{RunFact, LastWatchdog, SupervisorState, SupervisorObservation}

pub data TerminalContradiction : Type 0 where
  newer_run_alive : String → TerminalContradiction
  run_finalised : String → ℕ → Option String → TerminalContradiction

abbrev pub is_liveness_park : String → Bool
is_liveness_park reason = str_eq reason "stalled"

-- The last element that passes: the loop from the end.
module _ {ℓ} {A : Type ℓ} where
  unfoldable pub find_last : (A → Bool) → List A → Option A
  find_last p [] = none
  find_last p (x ∷ xs) = elim (find_last p xs) [
    | some y ↦ some y
    | none ↦ if p x then some x else none
  ]

abbrev pub has_terminal : Option LastWatchdog → Bool
has_terminal none = false
has_terminal (some w) = is_some w.terminal

abbrev pub is_running : RunFact → Bool
is_running r = not (is_some r.ended_at) && r.alive

abbrev pub is_finalised : RunFact → Bool
is_finalised r = is_some r.ended_at && is_some r.exit_code

-- The terminal's own run and every run that is newer.
unfoldable pub candidates : String → List RunFact → List RunFact
candidates watchdog_run_id runs = keep (λ r. not (str_lt r.run_id watchdog_run_id)) runs

abbrev pub finalised_of : RunFact → Option TerminalContradiction
finalised_of r = elim r.exit_code [
  | some code ↦ some (run_finalised r.run_id code r.reason)
  | none ↦ none
]

unfoldable pub contradiction_among : List RunFact → Option TerminalContradiction
unfolding find_last
contradiction_among runs = elim (find_last is_running runs) [
  | some r ↦ some (newer_run_alive r.run_id)
  | none ↦ elim (find_last is_finalised runs) [ some r ↦ finalised_of r | none ↦ none ]
]

unfoldable pub terminal_contradiction : SupervisorObservation → Option TerminalContradiction
terminal_contradiction o =
    if has_terminal o.last_watchdog
    then elim o.watchdog_run_id [
      | none ↦ none
      | some id ↦ contradiction_among (candidates id o.runs)
    ]
    else none

-- A run's own reason in the vocabulary of the decision table; `none` makes no substitution.
unfoldable pub terminal_reason_for_run_reason : Option String → Option String
terminal_reason_for_run_reason none = none
terminal_reason_for_run_reason (some reason) =
    if str_eq reason "done"
    then some "runner_done"
    else if str_eq reason "stop_requested"
    then some "stop_requested"
    else if str_eq reason "escalations_pending"
    then some "escalations_pending"
    else if str_eq reason "session_incomplete"
    then some "session_incomplete"
    else if str_eq reason "error"
    then some "error"
    else none

abbrev pub retriggers_of : SupervisorState → String → ℕ
retriggers_of s key = get_or (lookup key s.retriggers) 0

unfoldable pub stale_terminal_retrigger_available : SupervisorObservation → Bool
stale_terminal_retrigger_available o =
    ltb o.state.watchdog_runs o.limits.max_watchdog_runs
    && ltb (retriggers_of o.state "stale_terminal") 1

abbrev pub contradicted : SupervisorObservation → Option TerminalContradiction → Bool
contradicted o none = false
contradicted o (some (run_finalised id code reason)) = true
contradicted o (some (newer_run_alive id)) = stale_terminal_retrigger_available o

unfoldable pub park_still_holds : SupervisorObservation → Bool
park_still_holds o = elim o.parked_terminal [
  | none ↦ true
  | some p ↦
      if is_liveness_park p.reason then not (contradicted o (terminal_contradiction o)) else true
]
