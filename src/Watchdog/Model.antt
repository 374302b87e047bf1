-- ===== src/Watchdog/Model.antt =====
-- plugins/tribe/scripts/runner/core/watchdog/model.ts. Instants and durations are milliseconds,
-- seconds or minutes since the epoch, as the field's name says, and natural numbers.
use tribe.Base.{ℕ, String, Bool, Option}

pub data WatchdogMode : Type 0 where
  once follow : WatchdogMode

pub record WatchdogCounters : Type 0 where
  pub quota_waits : ℕ
  pub overload_backoffs : ℕ
  pub crash_relaunches : ℕ
  pub lock_relaunches : ℕ
  pub fallback_used : Bool

pub record WatchdogLimits : Type 0 where
  pub stall_minutes : ℕ
  pub max_quota_waits : ℕ
  pub max_overload_backoffs : ℕ
  pub max_crash_relaunches : ℕ
  pub quota_grace_seconds : ℕ

-- One observed runner pass.
pub record WatchdogRunObservation : Type 0 where
  pub run_id : Option String
  pub runner_pid : Option ℕ
  pub alive : Bool
  pub ended_at : Option String
  pub newest_log_path : Option String
  pub newest_log_mtime_ms : Option ℕ
  pub no_log_since_ms : Option ℕ

pub record LockHolder : Type 0 where
  pub pid : ℕ
  pub alive : Bool

pub record PermanentApiError : Type 0 where
  pub status : Option ℕ
  pub code : String

pub data WaitCause : Type 0 where
  quota overload : WaitCause

pub record PendingWait : Type 0 where
  pub cause : WaitCause
  pub until_ms : ℕ

-- `quota` and `overload` are the one number that their object holds. An optional field is `none`
-- where it is absent.
pub record WatchdogObservation : Type 0 where
  pub now_ms : ℕ
  pub mode : WatchdogMode
  pub stop_file_present : Bool
  pub lock_holder : Option LockHolder
  pub run : Option WatchdogRunObservation
  pub last_exit_code : Option ℕ
  pub crash_suspected : Bool
  pub last_exit_code_provenanced : Option Bool
  pub quota_resets_at_epoch_s : Option ℕ
  pub overload_status : Option ℕ
  pub permanent_api_error : Option PermanentApiError
  pub counters : WatchdogCounters
  pub limits : WatchdogLimits
  pub fallback_model : Option String
  pub pending_wait : Option PendingWait

pub data RelaunchCause : Type 0 where
  quota overload crash lock_free : RelaunchCause

pub data ExitStatus : Type 0 where
  done needs_human running : ExitStatus

-- `exit status reason next_wake_at_ms api_error_code`, the last two optional.
pub data WatchdogAction : Type 0 where
  launch : WatchdogAction
  attach : Option ℕ → WatchdogAction
  wait_until : ℕ → WaitCause → WatchdogAction
  relaunch : RelaunchCause → Option String → WatchdogAction
  stall : Option String → Option ℕ → ExitStatus → String → WatchdogAction
  exit : ExitStatus → String → Option ℕ → Option String → WatchdogAction
