-- ===== src/Supervisor/Loop.antt =====
-- plugins/tribe/scripts/runner/core/supervisor/loop.ts: what carrying out an action does to the
-- persisted counters. Reading the disk, spawning and the artifacts that are published are left out.
pub mod Budget
pub mod Rulings
use tribe.Base.{
  ◌+◌, String, Bool, true, false, Option, none, some, [], ◌∷◌, str_eq, if◌then◌else◌, find, is_some,
}
use tribe.Supervisor.Model.{
  SessionKind, ruling, EscalationFact, LastWatchdog, SessionOutcome, SessionVerdict,
  SupervisorState, SupervisorObservation, Retrigger, SupervisorAction, run_watchdog, await_watchdog,
  spawn_session, archive_escalation, park, supersede_park, exit,
}
use tribe.Supervisor.Truth.{retriggers_of}
use tribe.Supervisor.State.{apply_ruling_outcome, clear_watchdog_retriggers}
use tribe.Supervisor.Decide.{opt_is, terminal_reason}
use tribe.Supervisor.Entry.{retry_key}

unfoldable pub increment_retrigger : SupervisorState → String → SupervisorState
increment_retrigger s key = record s { retriggers = (key, retriggers_of s key + 1) ∷ s.retriggers }

-- The credit of rows 16 and 24, by the watchdog's own terminal.
abbrev pub credit_terminal : Option LastWatchdog → SupervisorState → SupervisorState
credit_terminal none s = s
credit_terminal (some w) s =
    if opt_is (terminal_reason w) "session_incomplete"
    then increment_retrigger s "session_incomplete"
    else if is_some w.terminal
    then s
    else increment_retrigger s "watchdog_no_terminal"

unfoldable pub credit_run :
    SupervisorObservation → Option Retrigger → SupervisorState → SupervisorState
unfolding increment_retrigger
credit_run o (some Retrigger.owner_resume) s = clear_watchdog_retriggers s
credit_run o (some Retrigger.stale_terminal) s =
    increment_retrigger (credit_terminal o.last_watchdog s) "stale_terminal"
credit_run o none s = credit_terminal o.last_watchdog s

abbrev pub sha_of : Option EscalationFact → String
sha_of none = ""
sha_of (some e) = e.content_sha256

-- The body of the escalation that the session is spawned for.
unfoldable pub spawned_sha : SupervisorObservation → String → String
spawned_sha o card_id = sha_of (find (λ e. str_eq e.card_id card_id) o.escalations)

abbrev pub count_ruling :
    SupervisorObservation → SessionKind → Option String → SupervisorState → SupervisorState
count_ruling o ruling (some card_id) s = apply_ruling_outcome s card_id (spawned_sha o card_id)
count_ruling o _ _ s = s

unfoldable pub count_spawn :
    SupervisorObservation → SessionKind → Option String → SupervisorState → SupervisorState
unfolding increment_retrigger
count_spawn o kind card_id s =
    let counted = count_ruling o kind card_id (record s { spawns = s.spawns + 1 }) in
    if is_some o.last_session_outcome
    then increment_retrigger counted (retry_key kind card_id)
    else counted

abbrev pub is_closed : Option SessionOutcome → Bool
is_closed none = false
is_closed (some s) = elim s.outcome [ SessionVerdict.closed ↦ true | _ ↦ false ]

-- The counters after an action has been carried out.
unfoldable pub carry_out : SupervisorObservation → SupervisorAction → SupervisorState
unfolding credit_run count_spawn
carry_out o (run_watchdog cards escalated retrigger) =
    let credited = credit_run o retrigger o.state in
    record credited { watchdog_runs = credited.watchdog_runs + 1 }
carry_out o (spawn_session kind card_id) = count_spawn o kind card_id o.state
carry_out o (exit reason) =
    if is_closed o.last_session_outcome
    then record (o.state) { closing_verified = true }
    else o.state
carry_out o (await_watchdog pid) = o.state
carry_out o (archive_escalation card_id ruling_id) = o.state
carry_out o (park reason recorded) = o.state
carry_out o (supersede_park reason) = o.state
