-- ===== src/Supervisor/Decide.antt =====
-- plugins/tribe/scripts/runner/core/supervisor/decide.ts, one function for each group of rows.
-- `none` is a group that falls through to the next.
mod Cases
pub mod Spawns
pub mod Parks
pub mod Supersede
use tribe.Base.{
  ◌+◌, String, Bool, true, false, not, ◌&&◌, ◌||◌, Option, none, some, List, [], ◌∷◌, ◌++◌, map,
  ltb, leb, ◌==◌, str_eq, if◌then◌else◌, find, keep, includes,
}
use tribe.Supervisor.Model.{
  ruling, closing, ParkReason, CardOutcome, CampaignReportFacts, EscalationFact, LastWatchdog,
  SupervisorObservation, Retrigger, SupervisorAction, run_watchdog, spawn_session,
  archive_escalation, exit,
}
use tribe.Supervisor.Truth.{
  TerminalContradiction, newer_run_alive, run_finalised, terminal_contradiction,
  terminal_reason_for_run_reason, stale_terminal_retrigger_available, retriggers_of,
}
use tribe.Supervisor.State.{rounds_of, seen_of}
use tribe.Supervisor.Entry.{marker_park, or_next, park_for, post_session, pre_loop}

-- The first escalation whose file has not been archived.
abbrev pub next_unanswered : List EscalationFact → Option EscalationFact
next_unanswered escalations = find (λ e. e.file_present) escalations

abbrev pub once_only_reasons : List String
once_only_reasons =
    "runner_alive" ∷ "quota_wait_pending" ∷ "overload_backoff_pending" ∷ "launched" ∷ "relaunched"
    ∷ []

unfoldable pub is_once_only : String → Bool
is_once_only reason = includes once_only_reasons reason

abbrev pub terminal_reason : LastWatchdog → Option String
terminal_reason w = elim w.terminal [ none ↦ none | some t ↦ some t.reason ]

abbrev pub opt_is : Option String → String → Bool
opt_is none s = false
opt_is (some r) s = str_eq r s

-- The permanent API error of the very run that the terminal is about is not replaced.
abbrev pub own_run_verdict : SupervisorObservation → Option String → String → Bool
own_run_verdict o reason run_id =
    opt_is reason "permanent_api_error" && opt_is o.watchdog_run_id run_id

abbrev pub first_reason : Option String → Option String → Option String
first_reason none r = r
first_reason (some q) r = some q

abbrev pub reason_under :
    SupervisorObservation → Option TerminalContradiction → Option String → Option String
reason_under o none reason = reason
reason_under o (some (newer_run_alive id)) reason = reason
reason_under o (some (run_finalised id code run_reason)) reason =
    if own_run_verdict o reason id
    then reason
    else first_reason (terminal_reason_for_run_reason run_reason) reason

-- G5: the reason that the rows are keyed on.
unfoldable pub effective_reason : SupervisorObservation → LastWatchdog → Option String
effective_reason o w = reason_under o (terminal_contradiction o) (terminal_reason w)

abbrev pub alive_row :
    SupervisorObservation → Option TerminalContradiction → Option SupervisorAction
alive_row o (some (newer_run_alive id)) =
    if stale_terminal_retrigger_available o
    then some (run_watchdog none false (some Retrigger.stale_terminal))
    else none
alive_row o _ = none

-- G2: a newer run is alive.
unfoldable pub stale_terminal_row : SupervisorObservation → Option SupervisorAction
stale_terminal_row o = alive_row o (terminal_contradiction o)

-- Rows 1 to 3.
unfoldable pub runner_done_row : SupervisorObservation → SupervisorAction
runner_done_row o =
    if o.state.closing_verified
    then exit "campaign_closed"
    else if o.verify_shipped_plugin_available
    then spawn_session closing none
    else park_for ParkReason.closing_failed

abbrev pub is_not_reached : CardOutcome → Bool
is_not_reached CardOutcome.not_reached = true
is_not_reached _ = false

abbrev pub not_reached_cards : Option CampaignReportFacts → List String
not_reached_cards none = []
not_reached_cards (some r) = map (λ e. e.0) (keep (λ e. is_not_reached e.1) r.cards)

abbrev pub answered_cards : List EscalationFact → List String
answered_cards es = map (λ e. e.card_id) (keep (λ e. not e.file_present) es)

-- Rows 8 to 12.
unfoldable pub judge_escalation : SupervisorObservation → EscalationFact → SupervisorAction
judge_escalation o next =
    if includes o.owner_only_escalations next.reason
    then park_for ParkReason.owner_only
    else if includes (seen_of o.state next.card_id) next.content_sha256
    then park_for ParkReason.repeat_escalation
    else if leb o.limits.max_ruling_rounds (rounds_of o.state next.card_id)
    then park_for ParkReason.w7_cap
    else if leb o.limits.max_spawns o.state.spawns
    then park_for ParkReason.spawn_cap
    else spawn_session ruling (some next.card_id)

-- Rows 5 and 7.
unfoldable pub answer_escalation : SupervisorObservation → EscalationFact → SupervisorAction
unfolding judge_escalation
answer_escalation o next = elim next.landed_ruling_id [
  | some id ↦ archive_escalation next.card_id id
  | none ↦ elim (find (λ m. str_eq m.card_id next.card_id) o.park_markers) [
    | some m ↦ park_for (marker_park m.kind)
    | none ↦ judge_escalation o next
  ]
]

unfoldable pub escalations_row : SupervisorObservation → SupervisorAction
unfolding answer_escalation
escalations_row o = elim (next_unanswered o.escalations) [
  | none ↦
      run_watchdog (some (answered_cards o.escalations ++ not_reached_cards o.report)) false none
  | some next ↦ answer_escalation o next
]

-- Rows 16, 17, 24 and 25: one more run, then a park.
unfoldable pub retrigger_once : SupervisorObservation → String → ParkReason → SupervisorAction
retrigger_once o key reason =
    if ltb o.state.watchdog_runs o.limits.max_watchdog_runs && ltb (retriggers_of o.state key) 1
    then run_watchdog none false none
    else park_for reason

-- Rows 24 to 28 and the residual backstop.
unfoldable pub backstop : SupervisorObservation → LastWatchdog → SupervisorAction
unfolding retrigger_once
backstop o w = elim w.terminal [
  | none ↦ retrigger_once o "watchdog_no_terminal" ParkReason.watchdog_no_terminal
  | some t ↦
      if elim w.owned_exit_code [ none ↦ false | some code ↦ code == 1 ]
      then park_for ParkReason.watchdog_usage
      else if leb o.limits.max_watchdog_runs o.state.watchdog_runs
      then park_for ParkReason.watchdog_run_cap
      else park_for ParkReason.error
]

-- Rows 18 to 23.
unfoldable pub park_row : String → Option SupervisorAction
unfolding is_once_only
park_row reason =
    if str_eq reason "quota_cap"
    then some (park_for ParkReason.quota_cap)
    else if str_eq reason "overloaded"
    then some (park_for ParkReason.overloaded)
    else if str_eq reason "stalled"
    then some (park_for ParkReason.stalled)
    else if str_eq reason "lock_conflict"
    then some (park_for ParkReason.lock_conflict)
    else if str_eq reason "error"
    then some (park_for ParkReason.error)
    else if str_eq reason "permanent_api_error"
    then some (park_for ParkReason.permanent_api_error)
    else if is_once_only reason
    then some (park_for ParkReason.unexpected_running)
    else none

unfoldable pub reason_row : SupervisorObservation → String → Option SupervisorAction
unfolding runner_done_row escalations_row retrigger_once park_row
reason_row o reason =
    if str_eq reason "runner_done"
    then some (runner_done_row o)
    else if str_eq reason "stop_requested"
    then some (exit "stop_requested")
    else if str_eq reason "escalations_pending"
    then some (escalations_row o)
    else if str_eq reason "session_incomplete"
    then some (retrigger_once o "session_incomplete" ParkReason.session_incomplete)
    else park_row reason

abbrev pub reason_rows : SupervisorObservation → Option String → Option SupervisorAction
reason_rows o none = none
reason_rows o (some reason) = reason_row o reason

-- Rows 1 to 28, keyed on the watchdog's terminal.
unfoldable pub main_rows : SupervisorObservation → Option LastWatchdog → SupervisorAction
unfolding stale_terminal_row effective_reason reason_row backstop
main_rows o none = run_watchdog none false none
main_rows o (some w) =
    or_next (stale_terminal_row o) (or_next (reason_rows o (effective_reason o w)) (backstop o w))

unfoldable pub decide : SupervisorObservation → SupervisorAction
unfolding post_session pre_loop main_rows
decide o =
    or_next (post_session o o.last_session_outcome)
      (or_next (pre_loop o) (main_rows o o.last_watchdog))
