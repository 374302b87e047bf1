-- ===== src/Watchdog/Decide.antt =====
-- plugins/tribe/scripts/runner/core/watchdog/decide.ts, one function for each numbered section.
-- `none` is a section that falls through to the next.
mod Cases
pub mod Safety
pub mod Budget
pub mod Launch
pub mod Stale
pub mod Reasons
use tribe.Base.{
  ℕ, zero, suc, ◌+◌, ◌*◌, min, String, Bool, true, false, not, ◌&&◌, ◌||◌, Option, none, some, ltb,
  leb, ◌==◌, if◌then◌else◌, get_or, is_some, includes, List, [], ◌∷◌,
}
use tribe.Watchdog.Model.{
  WatchdogMode, once, follow, WatchdogRunObservation, LockHolder, WaitCause, PendingWait,
  WatchdogObservation, RelaunchCause, ExitStatus, done, needs_human, running, WatchdogAction,
  launch, attach, wait_until, relaunch, stall, exit,
}
use tribe.Watchdog.Select.{is_stale}

abbrev pub is_once : WatchdogMode → Bool
is_once once = true
is_once follow = false

abbrev pub max_quota_wait_ms : ℕ
max_quota_wait_ms = 7 * 24 * 60 * 60 * 1000

-- The table 30, 60, 120, 240, 480 with the index clamped. The counters that are passed are natural
-- numbers, so the rounding and the non-finite cases of the source have no counterpart.
unfoldable pub overload_backoff_seconds : ℕ → ℕ
overload_backoff_seconds zero = 30
overload_backoff_seconds (suc zero) = 60
overload_backoff_seconds (suc (suc zero)) = 120
overload_backoff_seconds (suc (suc (suc zero))) = 240
overload_backoff_seconds (suc (suc (suc (suc n)))) = 480

-- Every reason a pass can end on (model.ts).
abbrev pub terminal_reasons : List String
terminal_reasons =
    "runner_done" ∷ "escalations_pending" ∷ "error" ∷ "session_incomplete" ∷ "stop_requested"
    ∷ "runner_alive" ∷ "lock_conflict" ∷ "quota_cap" ∷ "quota_wait_pending" ∷ "overloaded"
    ∷ "overload_backoff_pending" ∷ "stalled" ∷ "permanent_api_error" ∷ []

pub is_terminal_reason : String → Bool
is_terminal_reason reason = includes terminal_reasons reason

abbrev pub plain_exit : ExitStatus → String → WatchdogAction
plain_exit status reason = exit status reason none none

abbrev pub stop : WatchdogAction
stop = plain_exit done "stop_requested"

-- `a ?? b` over sections: the first that answers.
abbrev pub or_next : Option WatchdogAction → WatchdogAction → WatchdogAction
or_next none next = next
or_next (some a) next = a

-- 1. A live runner.
pub watch_live : WatchdogObservation → WatchdogRunObservation → WatchdogAction
unfolding is_stale
watch_live o run =
    if is_stale o.now_ms run.newest_log_mtime_ms o.limits.stall_minutes run.no_log_since_ms
    then stall run.newest_log_path run.newest_log_mtime_ms
        (if is_once o.mode then running else needs_human) "stalled"
    else if is_once o.mode
    then plain_exit running "runner_alive"
    else attach run.runner_pid

unfoldable pub live_run :
    WatchdogObservation → Option WatchdogRunObservation → Option WatchdogAction
unfolding watch_live
live_run o none = none
live_run o (some run) = if run.alive then some (watch_live o run) else none

-- 2. Terminal runner outcomes.
unfoldable pub terminal_outcome : Option ℕ → Option WatchdogAction
terminal_outcome none = none
terminal_outcome (some code) =
    if code == 0
    then some (plain_exit done "runner_done")
    else if code == 2
    then some (plain_exit needs_human "escalations_pending")
    else if code == 4
    then some (plain_exit needs_human "error")
    else none

-- A live foreign holder of the runner's lock.
pub foreign_holder : WatchdogMode → Option LockHolder → Option WatchdogAction
foreign_holder mode none = none
foreign_holder mode (some holder) =
    if holder.alive
    then some (if is_once mode then plain_exit running "runner_alive" else attach (some holder.pid))
    else none

abbrev pub provenanced : WatchdogObservation → Bool
provenanced o = get_or o.last_exit_code_provenanced true

abbrev pub exit_is : Option ℕ → ℕ → Bool
exit_is none n = false
exit_is (some code) n = code == n

-- 3. Exit 1: the single-instance lock refused the start.
pub lock_relaunch : WatchdogObservation → Option WatchdogAction
lock_relaunch o =
    if provenanced o
    then some (
        if o.stop_file_present
        then stop
        else if leb 1 o.counters.lock_relaunches
        then plain_exit needs_human "lock_conflict"
        else relaunch RelaunchCause.lock_free none)
    else none

unfoldable pub lock_refused : WatchdogObservation → Option WatchdogAction
unfolding foreign_holder lock_relaunch
lock_refused o =
    if exit_is o.last_exit_code 1
    then elim (foreign_holder o.mode o.lock_holder) [ some a ↦ some a | none ↦ lock_relaunch o ]
    else none

-- 4. The recoverable deaths.
abbrev pub is_unknown_exit : Option ℕ → Bool
is_unknown_exit none = false
is_unknown_exit (some code) = not (code == 0 || code == 1 || code == 2 || code == 3 || code == 4)

abbrev pub is_recoverable : WatchdogObservation → Bool
is_recoverable o =
    exit_is o.last_exit_code 3
    || is_unknown_exit o.last_exit_code
    || (not (is_some o.last_exit_code) && o.crash_suspected)

pub permanent_error : WatchdogObservation → Option WatchdogAction
permanent_error o = elim o.permanent_api_error [
  | none ↦ none
  | some e ↦
      if provenanced o
      then some (exit needs_human "permanent_api_error" none (some e.code))
      else none
]

-- The clamped deadline.
abbrev pub quota_until_ms : WatchdogObservation → ℕ → ℕ
quota_until_ms o resets_at =
    min ((resets_at + o.limits.quota_grace_seconds) * 1000) (o.now_ms + max_quota_wait_ms)

pub quota_wait : WatchdogObservation → ℕ → WatchdogAction
quota_wait o resets_at =
    if o.stop_file_present
    then stop
    else if leb o.limits.max_quota_waits o.counters.quota_waits
    then plain_exit needs_human "quota_cap"
    else if is_once o.mode
    then exit running "quota_wait_pending" (some (quota_until_ms o resets_at)) none
    else wait_until (quota_until_ms o resets_at) WaitCause.quota

abbrev pub served : WaitCause → ℕ → Option PendingWait → Bool
served cause now none = false
served WaitCause.quota now (some w) = elim w.cause [
  | WaitCause.quota ↦ leb w.until_ms now
  | WaitCause.overload ↦ false
]
served WaitCause.overload now (some w) = elim w.cause [
  | WaitCause.quota ↦ false
  | WaitCause.overload ↦ leb w.until_ms now
]

pub quota_signal : WatchdogObservation → Option WatchdogAction
unfolding quota_wait
quota_signal o = elim o.quota_resets_at_epoch_s [
  | none ↦ none
  | some resets_at ↦
      if ltb o.now_ms (resets_at * 1000)
      then some (quota_wait o resets_at)
      else if served WaitCause.quota o.now_ms o.pending_wait
      then some (if o.stop_file_present then stop else relaunch RelaunchCause.quota none)
      else none
]

pub overload_exhausted : WatchdogObservation → Option String → WatchdogAction
overload_exhausted o none = plain_exit needs_human "overloaded"
overload_exhausted o (some model) =
    if not o.counters.fallback_used
    then relaunch RelaunchCause.overload (some model)
    else plain_exit needs_human "overloaded"

abbrev pub overload_until_ms : WatchdogObservation → ℕ
overload_until_ms o = o.now_ms + overload_backoff_seconds o.counters.overload_backoffs * 1000

pub overload_backoff : WatchdogObservation → WatchdogAction
unfolding overload_exhausted
overload_backoff o =
    if o.stop_file_present
    then stop
    else if served WaitCause.overload o.now_ms o.pending_wait
    then relaunch RelaunchCause.overload none
    else if leb o.limits.max_overload_backoffs o.counters.overload_backoffs
    then overload_exhausted o o.fallback_model
    else if is_once o.mode
    then exit running "overload_backoff_pending" (some (overload_until_ms o)) none
    else wait_until (overload_until_ms o) WaitCause.overload

pub overload_signal : WatchdogObservation → Option WatchdogAction
unfolding overload_backoff
overload_signal o = elim o.overload_status [ none ↦ none | some _ ↦ some (overload_backoff o) ]

pub crash_relaunch : WatchdogObservation → Option WatchdogAction
crash_relaunch o =
    if provenanced o
    then some (
        if o.stop_file_present
        then stop
        else if leb o.limits.max_crash_relaunches o.counters.crash_relaunches
        then plain_exit needs_human "session_incomplete"
        else relaunch RelaunchCause.crash none)
    else none

unfoldable pub recoverable_death : WatchdogObservation → Option WatchdogAction
unfolding permanent_error quota_signal overload_signal crash_relaunch
recoverable_death o =
    if is_recoverable o
    then elim (permanent_error o) [
      | some a ↦ some a
      | none ↦ elim (quota_signal o) [
        | some a ↦ some a
        | none ↦ elim (overload_signal o) [ some a ↦ some a | none ↦ crash_relaunch o ]
      ]
    ]
    else none

-- 5. Nothing has run yet this invocation.
unfoldable pub nothing_yet : WatchdogObservation → WatchdogAction
unfolding foreign_holder
nothing_yet o =
    or_next (foreign_holder o.mode o.lock_holder) (if o.stop_file_present then stop else launch)

unfoldable pub decide : WatchdogObservation → WatchdogAction
unfolding live_run terminal_outcome lock_refused recoverable_death nothing_yet
decide o = or_next (live_run o o.run) (
    or_next (terminal_outcome o.last_exit_code)
      (or_next (lock_refused o) (or_next (recoverable_death o) (nothing_yet o))))
