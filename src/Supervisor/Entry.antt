-- ===== src/Supervisor/Entry.antt =====
-- The rows of plugins/tribe/scripts/runner/core/supervisor/decide.ts that come before those on the
-- watchdog's terminal: V1 to V8 on a session that has just returned, and P1 to P5.
use Prim.Native.String.{◌++◌ as text_append}
use tribe.Base.{
  String, Bool, false, Option, none, some, List, [], ◌∷◌, ltb, leb, if◌then◌else◌, get_or, includes,
}
use tribe.Supervisor.Model.{
  SessionKind, ruling, closing, ParkMarkerKind, ParkReason, LiveProcess, RecordedPark,
  SessionVerdict, SessionOutcome, SupervisorObservation, Retrigger, SupervisorAction, run_watchdog,
  await_watchdog, spawn_session, archive_escalation, park, supersede_park, exit,
}
use tribe.Supervisor.Truth.{park_still_holds, retriggers_of}

abbrev pub park_for : ParkReason → SupervisorAction
park_for reason = park reason none

abbrev pub watchdog_terminal_park_reasons : List String
watchdog_terminal_park_reasons =
    "session_incomplete" ∷ "permanent_api_error" ∷ "quota_cap" ∷ "overloaded" ∷ "stalled"
    ∷ "lock_conflict" ∷ "error" ∷ "unexpected_running" ∷ "watchdog_no_terminal" ∷ "watchdog_usage"
    ∷ []

unfoldable pub is_watchdog_terminal_park : String → Bool
is_watchdog_terminal_park reason = includes watchdog_terminal_park_reasons reason

abbrev pub or_next : Option SupervisorAction → SupervisorAction → SupervisorAction
or_next none next = next
or_next (some a) next = a

abbrev pub card_text : Option String → String
card_text none = "null"
card_text (some id) = id

-- `${kind}:${cardId}`.
unfoldable pub retry_key : SessionKind → Option String → String
retry_key ruling card_id = text_append "ruling:" (card_text card_id)
retry_key closing card_id = text_append "closing:" (card_text card_id)

abbrev pub marker_park : ParkMarkerKind → ParkReason
marker_park ParkMarkerKind.owner_only = ParkReason.owner_only
marker_park ParkMarkerKind.too_hard = ParkReason.too_hard

abbrev pub failed_park : SessionKind → ParkReason
failed_park ruling = ParkReason.ruling_failed
failed_park closing = ParkReason.closing_failed

-- V5 and V6: one bounded retry, then a park.
unfoldable pub retry_or_park : SupervisorObservation → SessionOutcome → SupervisorAction
retry_or_park o s =
    if ltb (retriggers_of o.state (retry_key s.kind s.card_id)) o.limits.session_retries
    then spawn_session s.kind s.card_id
    else park_for (failed_park s.kind)

abbrev pub ruled_row : Option String → Option String → Option SupervisorAction
ruled_row (some card_id) (some ruling_id) = some (archive_escalation card_id ruling_id)
ruled_row _ _ = none

abbrev pub parked_row : Option ParkMarkerKind → Option SupervisorAction
parked_row none = none
parked_row (some kind) = some (park_for (marker_park kind))

-- V1 to V8.
abbrev pub verdict_row :
    SupervisorObservation → SessionOutcome → SessionVerdict → Option SupervisorAction
verdict_row o s SessionVerdict.history_rewritten = some (park_for ParkReason.history_rewritten)
verdict_row o s SessionVerdict.ruled = ruled_row s.card_id s.ruling_id
verdict_row o s SessionVerdict.parked = parked_row s.park_marker_kind
verdict_row o s SessionVerdict.failed = some (retry_or_park o s)
verdict_row o s SessionVerdict.timeout = some (retry_or_park o s)
verdict_row o s SessionVerdict.closed = some (exit "campaign_closed")

unfoldable pub post_session :
    SupervisorObservation → Option SessionOutcome → Option SupervisorAction
unfolding retry_or_park
post_session o none = none
post_session o (some s) = verdict_row o s s.outcome

abbrev pub process_alive : Option LiveProcess → Bool
process_alive none = false
process_alive (some p) = p.alive

abbrev pub recorded_reason : Option RecordedPark → Option String
recorded_reason none = none
recorded_reason (some p) = some p.reason

-- P2: an unresolved park is obeyed while it holds.
unfoldable pub unresolved_park : SupervisorObservation → SupervisorAction
unresolved_park o =
    if park_still_holds o
    then park ParkReason.resume_blocked (recorded_reason o.parked_terminal)
    else supersede_park (get_or (recorded_reason o.parked_terminal) "unknown")

-- P5: the owner has deleted `NEEDS_OWNER.md` of a park that the watchdog's terminal made.
unfoldable pub owner_resume : SupervisorObservation → Option RecordedPark → Option SupervisorAction
unfolding is_watchdog_terminal_park
owner_resume o none = none
owner_resume o (some p) =
    if is_watchdog_terminal_park p.reason
    then some (
        if leb o.limits.max_watchdog_runs o.state.watchdog_runs
        then park_for ParkReason.watchdog_run_cap
        else run_watchdog none false (some Retrigger.owner_resume))
    else none

abbrev pub live_watchdog : Option LiveProcess → Option SupervisorAction
live_watchdog none = none
live_watchdog (some p) = if p.alive then some (await_watchdog p.pid) else none

-- P1 to P5.
unfoldable pub pre_loop : SupervisorObservation → Option SupervisorAction
pre_loop o =
    if process_alive o.supervisor_lock
    then some (park_for ParkReason.resume_blocked)
    else if o.needs_owner_present
    then some (unresolved_park o)
    else if o.stop_file_present
    then some (exit "stop_requested")
    else elim (live_watchdog o.watchdog_live) [
      | some a ↦ some a
      | none ↦ owner_resume o o.acknowledged_park
    ]
