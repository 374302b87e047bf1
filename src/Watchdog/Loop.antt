-- ===== src/Watchdog/Loop.antt =====
-- plugins/tribe/scripts/runner/core/watchdog/watch-loop.ts: one tick of the supervision loop
-- (observe, decide, perform) as a function of the loop's state and of what the tick reads.
pub mod Observe
pub mod Tick
pub mod Spawns
pub mod Modes
pub mod Silence
use tribe.Base.{
  ℕ, ◌+◌, String, Bool, true, false, not, ◌&&◌, ◌||◌, Option, none, some, List, [], ◌∷◌, ◌++◌, ◌==◌,
  str_eq, if◌then◌else◌, is_some,
}
use tribe.Watchdog.Model.{
  WatchdogMode, WatchdogCounters, WatchdogLimits, PermanentApiError, PendingWait, stall,
}
use tribe.Watchdog.Select.{LogEntry, newest_run_id, newest_run_id_excluding}

pub record WatchdogConfig : Type 0 where
  pub repo_root : String
  pub model : String
  pub home_dir : String
  pub mode : WatchdogMode
  pub limits : WatchdogLimits
  pub fallback_model : Option String
  pub passthrough : List String
  pub runner_command : List String

-- `run.json` as far as it is read: a field of another type than expected is `none`.
pub record RunRecord : Type 0 where
  pub pid : Option ℕ
  pub ended_at : Option String
  pub exit_code : Option ℕ

-- What `parseSessionSignals` found in the tail of a log.
pub record SessionSignals : Type 0 where
  pub quota_resets_at_epoch_s : Option ℕ
  pub overload_status : Option ℕ
  pub permanent_api_error : Option PermanentApiError

-- What one tick reads through `io`. `run_record` is `none` for a file that is empty or caught
-- mid-write; `log_path` joins a run id and a log's name to a path.
pub record World : Type 0 where
  pub now_ms : ℕ
  pub run_ids : List String
  pub run_record : String → Option RunRecord
  pub is_process_alive : ℕ → Bool
  pub logs : String → List LogEntry
  pub log_path : String → String → String
  pub signals : String → SessionSignals
  pub lock : Option ℕ
  pub stop_file_present : Bool

-- What the tick's action is answered: the run directories and the child's pid at a spawn, and the
-- child's exit code, `none` while it still runs.
pub record Reply : Type 0 where
  pub run_ids_at_spawn : List String
  pub child_pid : ℕ
  pub waited_exit_code : Option ℕ

-- Whose silence the clock measures: `attempt-n`, or a run id.
pub data SilenceKey : Type 0 where
  attempt_key : ℕ → SilenceKey
  run_key : Option String → SilenceKey

pub record NoLogSince : Type 0 where
  pub key : SilenceKey
  pub since_ms : ℕ

pub record Stall : Type 0 where
  pub log_path : String
  pub last_mtime_ms : ℕ

pub record LoopState : Type 0 where
  pub child : Option ℕ
  pub owned_exit_code : Option ℕ
  pub attempt : ℕ
  pub model : String
  pub run_id : Option String
  pub next_wake_at_ms : Option ℕ
  pub stall : Option Stall
  pub runner_command : List String
  pub counters : WatchdogCounters
  pub tracked_run_id : Option String
  pub prior_run_ids : List String
  pub pending_wait : Option PendingWait
  pub no_log_since : Option NoLogSince

abbrev pub no_counters : WatchdogCounters
no_counters = record {
  quota_waits = 0;
  overload_backoffs = 0;
  crash_relaunches = 0;
  lock_relaunches = 0;
  fallback_used = false;
}

unfoldable pub init_state : WatchdogConfig → LoopState
init_state config = record {
  child = none;
  owned_exit_code = none;
  attempt = 0;
  model = config.model;
  run_id = none;
  next_wake_at_ms = none;
  stall = none;
  runner_command = [];
  counters = no_counters;
  tracked_run_id = none;
  prior_run_ids = [];
  pending_wait = none;
  no_log_since = none;
}

abbrev pub opt_str_eq : Option String → Option String → Bool
opt_str_eq none none = true
opt_str_eq (some s) (some t) = str_eq s t
opt_str_eq _ _ = false

unfoldable pub key_eq : SilenceKey → SilenceKey → Bool
key_eq (attempt_key m) (attempt_key n) = m == n
key_eq (run_key r) (run_key s) = opt_str_eq r s
key_eq _ _ = false

unfoldable pub owns_live_child : LoopState → Bool
owns_live_child s = is_some s.child && not (is_some s.owned_exit_code)

-- Which run the tick looks at.
unfoldable pub observed_run_id : World → LoopState → Option String
unfolding owns_live_child
observed_run_id w s =
    if owns_live_child s
    then newest_run_id_excluding w.run_ids s.prior_run_ids
    else newest_run_id w.run_ids

unfoldable pub observed_record : World → Option String → Option RunRecord
observed_record w none = none
observed_record w (some id) = w.run_record id

abbrev pub record_pid : Option RunRecord → Option ℕ
record_pid none = none
record_pid (some r) = r.pid

abbrev pub record_ended_at : Option RunRecord → Option String
record_ended_at none = none
record_ended_at (some r) = r.ended_at

abbrev pub record_exit_code : Option RunRecord → Option ℕ
record_exit_code none = none
record_exit_code (some r) = r.exit_code

abbrev pub confirmed_dead : World → Option ℕ → Bool
confirmed_dead w none = false
confirmed_dead w (some pid) = not (w.is_process_alive pid)

unfoldable pub not_finalized : World → Option RunRecord → Bool
not_finalized w r =
    is_some r && not (is_some (record_ended_at r)) && not (confirmed_dead w (record_pid r))
