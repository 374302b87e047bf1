-- ===== src/Watchdog/Loop/Tick.antt =====
-- The body of `runWatchdog`'s loop (plugins/tribe/scripts/runner/core/watchdog/watch-loop.ts): the
-- decision on what was observed, and what performing it does to the state. The publishing of
-- `status.json` and the event log are left out; they change no field of the state.
use tribe.Base.{ℕ, ◌+◌, String, true, Option, none, some, List, [], ◌∷◌, ◌++◌, if◌then◌else◌}
use tribe.Watchdog.Model.{
  WatchdogCounters, WatchdogRunObservation, WaitCause, RelaunchCause, ExitStatus, done, needs_human,
  running, WatchdogAction, launch, attach, wait_until, relaunch, stall, exit,
}
use tribe.Watchdog.Decide.{is_once, decide}
use tribe.Watchdog.Loop.{WatchdogConfig, World, Reply, Stall, LoopState, owns_live_child}
use tribe.Watchdog.Loop.Observe.{observation, remembered}

pub record WatchdogTerminal : Type 0 where
  pub exit_code : ℕ
  pub status : ExitStatus
  pub reason : String
  pub runner_pid : Option ℕ
  pub api_error_code : Option String

-- The loop goes on, returns its terminal, or throws.
pub data Outcome : Type 0 where
  continues : LoopState → Outcome
  terminates : WatchdogTerminal → LoopState → Outcome
  throws : Outcome

unfoldable pub exit_code_of : ExitStatus → ℕ
exit_code_of done = 0
exit_code_of needs_human = 10
exit_code_of running = 11

abbrev pub charge_relaunch : RelaunchCause → WatchdogCounters → WatchdogCounters
charge_relaunch RelaunchCause.crash c = record c { crash_relaunches = c.crash_relaunches + 1 }
charge_relaunch RelaunchCause.lock_free c = record c { lock_relaunches = c.lock_relaunches + 1 }
charge_relaunch RelaunchCause.quota c = c
charge_relaunch RelaunchCause.overload c = c

abbrev pub charge_wait : WaitCause → WatchdogCounters → WatchdogCounters
charge_wait WaitCause.quota c = record c { quota_waits = c.quota_waits + 1 }
charge_wait WaitCause.overload c = record c { overload_backoffs = c.overload_backoffs + 1 }

abbrev pub use_fallback : Option String → LoopState → LoopState
use_fallback none s = s
use_fallback (some model) s = record s {
  model = model;
  counters = record (s.counters) { fallback_used = true };
}

runner_argv : WatchdogConfig → String → List String
runner_argv config model =
    config.runner_command
    ++ ("--repo" ∷ config.repo_root ∷ "--model" ∷ model ∷ "--home" ∷ config.home_dir ∷ [])
    ++ config.passthrough

-- The part of `spawnRunnerNow` after the counters.
unfoldable pub spawn_child : WatchdogConfig → Reply → LoopState → LoopState
unfolding runner_argv
spawn_child config reply s = record s {
  attempt = s.attempt + 1;
  runner_command = runner_argv config s.model;
  prior_run_ids = reply.run_ids_at_spawn;
  run_id = none;
  no_log_since = none;
  child = some reply.child_pid;
  owned_exit_code = none;
  next_wake_at_ms = none;
  pending_wait = none;
}

abbrev pub charge : RelaunchCause → Option String → LoopState → LoopState
charge cause model s = use_fallback model (record s { counters = charge_relaunch cause s.counters })

abbrev pub pid_of : Option WatchdogRunObservation → Option ℕ
pid_of none = none
pid_of (some r) = r.runner_pid

abbrev pub after_spawn : WatchdogConfig → String → LoopState → Outcome
after_spawn config reason s =
    if is_once config.mode
    then terminates
        (record {
          exit_code = 11;
          status = running;
          reason = reason;
          runner_pid = s.child;
          api_error_code = none;
        })
        s
    else continues s

abbrev pub stall_of : Option String → Option ℕ → Option Stall
stall_of (some path) (some mtime) = some (record { log_path = path; last_mtime_ms = mtime })
stall_of _ _ = none

abbrev pub stall_exit_code : ExitStatus → ℕ
stall_exit_code needs_human = 10
stall_exit_code _ = 11

unfoldable pub perform :
    WatchdogConfig → Reply → Option WatchdogRunObservation → WatchdogAction → LoopState → Outcome
unfolding spawn_child owns_live_child exit_code_of
perform config reply run launch s = after_spawn config "launched" (spawn_child config reply s)
perform config reply run (relaunch cause model) s =
    after_spawn config "relaunched" (spawn_child config reply (charge cause model s))
perform config reply run (attach pid) s =
    if is_once config.mode
    then throws
    else continues
        (if owns_live_child s then record s { owned_exit_code = reply.waited_exit_code } else s)
perform config reply run (wait_until until_ms cause) s = continues (record s {
  counters = charge_wait cause s.counters;
  next_wake_at_ms = none;
  pending_wait = some (record { cause = cause; until_ms = until_ms });
})
perform config reply run (stall path mtime status reason) s =
    terminates
      (record {
        exit_code = stall_exit_code status;
        status = status;
        reason = reason;
        runner_pid = pid_of run;
        api_error_code = none;
      })
      (record s { stall = stall_of path mtime })
perform config reply run (exit status reason wake code) s =
    terminates
      (record {
        exit_code = exit_code_of status;
        status = status;
        reason = reason;
        runner_pid = pid_of run;
        api_error_code = code;
      })
      (record s { next_wake_at_ms = wake })

unfoldable pub tick : WatchdogConfig → World → Reply → LoopState → Outcome
unfolding perform
tick config w reply s =
    let o = observation w s config in perform config reply o.run (decide o) (remembered w s)

-- The loop over the ticks that happen; the state it stands in when they are used up, or at its end.
unfoldable pub run : WatchdogConfig → List (World × Reply) → LoopState → Outcome
run config [] s = continues s
run config ((w, reply) ∷ ticks) s = elim (tick config w reply s) [
  | continues s' ↦ run config ticks s'
  | terminates t s' ↦ terminates t s'
  | throws ↦ throws
]
