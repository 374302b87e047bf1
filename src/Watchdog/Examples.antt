-- ===== src/Watchdog/Examples.antt =====
-- The theorems on plugins/tribe/scripts/runner/core/watchdog at concrete observations, worlds and
-- runs.
use tribe.Base.{ℕ, ◌+◌, ◌≤◌, ◌≡◌, refl, String, true, false, none, some, List, [], ◌∷◌, ◌⊎◌, arith}
use tribe.Watchdog.Model.{
  WatchdogMode, once, follow, WatchdogLimits, WatchdogRunObservation, LockHolder,
  WatchdogObservation, launch, stall, needs_human,
}
use tribe.Watchdog.Select.{newest_run_id_excluding, str_lt}
use tribe.Watchdog.Decide.{
  decide, provenanced, live_run, terminal_outcome, lock_refused, recoverable_death, nothing_yet,
}
use tribe.Watchdog.Decide.Safety.{
  Sleeps, Starts, decide-once_never-Sleeps, decide-stop-Starts_nothing,
}
use tribe.Watchdog.Decide.Budget.{Paid, decide-Paid}
use tribe.Watchdog.Decide.Launch.{decide-launch}
use tribe.Watchdog.Loop.{
  WatchdogConfig, World, Reply, LoopState, attempt_key, no_counters, init_state, owns_live_child,
  observed_run_id,
}
use tribe.Watchdog.Loop.Observe.{observation, observed_log, no_signals}
use tribe.Watchdog.Loop.Tick.{tick, run}
use tribe.Watchdog.Loop.Spawns.{Leaves, run-spawns_bounded}
use tribe.Watchdog.Loop.Modes.{Ends, tick-once-Ends}
use tribe.Watchdog.Loop.Silence.{silent_child_stalls}

abbrev limits : WatchdogLimits
limits = record {
  stall_minutes = 10;
  max_quota_waits = 3;
  max_overload_backoffs = 5;
  max_crash_relaunches = 2;
  quota_grace_seconds = 60;
}

abbrev at_start : WatchdogMode → WatchdogObservation
at_start mode = record {
  now_ms = 1000000;
  mode = mode;
  stop_file_present = false;
  lock_holder = none;
  run = none;
  last_exit_code = none;
  crash_suspected = false;
  last_exit_code_provenanced = some false;
  quota_resets_at_epoch_s = none;
  overload_status = none;
  permanent_api_error = none;
  counters = no_counters;
  limits = limits;
  fallback_model = none;
  pending_wait = none;
}

-- The child has ended on exit 3 with a quota signal that lies ahead.
abbrev after_quota : WatchdogMode → WatchdogObservation
after_quota mode = record (at_start mode) {
  last_exit_code = some 3;
  last_exit_code_provenanced = some true;
  quota_resets_at_epoch_s = some 5000;
}

abbrev live : WatchdogRunObservation
live = record {
  run_id = some "20260808-1";
  runner_pid = some 7;
  alive = true;
  ended_at = none;
  newest_log_path = some "card.log";
  newest_log_mtime_ms = some 990000;
  no_log_since_ms = none;
}

abbrev three_ids : List String
three_ids = "20260808-2" ∷ "20260808-3" ∷ "20260808-1" ∷ []

excluding_two : newest_run_id_excluding three_ids ("20260808-3" ∷ []) ≡ some "20260808-2"
unfolding newest_run_id_excluding str_lt
excluding_two = refl

decide-once_never-Sleeps_example : ¬ Sleeps (decide (after_quota once))
decide-once_never-Sleeps_example = decide-once_never-Sleeps (after_quota once) refl

abbrev stopped_quota : WatchdogObservation
stopped_quota = record (after_quota follow) { stop_file_present = true }

decide-stop-Starts_nothing_example : ¬ Starts (decide stopped_quota)
decide-stop-Starts_nothing_example = decide-stop-Starts_nothing stopped_quota refl

abbrev live_after_quota : WatchdogObservation
live_after_quota = record (after_quota follow) { run = some live }

decide-Paid_example : Paid (after_quota follow) (decide (after_quota follow))
decide-Paid_example = decide-Paid (after_quota follow)

launched_at_start : decide (at_start follow) ≡ launch
unfolding decide live_run terminal_outcome lock_refused recoverable_death nothing_yet
launched_at_start = refl

decide-launch_example :
    ((at_start follow).stop_file_present ≡ false)
    × ((r : WatchdogRunObservation) → (at_start follow).run ≡ some r → r.alive ≡ false)
    × ((holder : LockHolder) → (at_start follow).lock_holder ≡ some holder → holder.alive ≡ false)
    × ((provenanced (at_start follow) ≡ false)
        ⊎ (((at_start follow).last_exit_code ≡ none) × ((at_start follow).crash_suspected ≡ false)))
decide-launch_example = decide-launch (at_start follow) launched_at_start

abbrev config : WatchdogMode → WatchdogConfig
config mode = record {
  repo_root = "/repo";
  model = "opus";
  home_dir = "/home/campaign";
  mode = mode;
  limits = limits;
  fallback_model = none;
  passthrough = [];
  runner_command = "tribe" ∷ "run" ∷ [];
}

abbrev empty_home : ℕ → World
empty_home now = record {
  now_ms = now;
  run_ids = [];
  run_record = λ id. none;
  is_process_alive = λ pid. false;
  logs = λ id. [];
  log_path = λ id name. name;
  signals = λ path. no_signals;
  lock = none;
  stop_file_present = false;
}

abbrev child_runs : Reply
child_runs = record { run_ids_at_spawn = []; child_pid = 7; waited_exit_code = none }

abbrev child_crashed : Reply
child_crashed = record { run_ids_at_spawn = []; child_pid = 7; waited_exit_code = some 137 }

-- The first run crashes, and the loop starts another one.
abbrev crash_ticks : List (World × Reply)
crash_ticks =
    (empty_home 1000, child_runs)
    ∷ (empty_home 2000, child_crashed)
    ∷ (empty_home 3000, child_runs)
    ∷ (empty_home 4000, child_runs)
    ∷ []

run-spawns_bounded_example :
    Leaves
      (λ s. s.attempt ≤ 2 + 3 + 5 + 3)
      (run (config follow) crash_ticks (init_state (config follow)))
run-spawns_bounded_example = run-spawns_bounded (config follow) crash_ticks

tick-once-Ends_example :
    Ends (tick (config once) (empty_home 1000) child_runs (init_state (config once)))
tick-once-Ends_example =
    tick-once-Ends (config once) (empty_home 1000) child_runs (init_state (config once)) refl

abbrev stopped_home : World
stopped_home = record (empty_home 1000) { stop_file_present = true }

-- The first child runs since 1 s and has written no log.
abbrev child_running : LoopState
unfolding init_state
child_running = record (init_state (config follow)) {
  child = some 7;
  attempt = 1;
  no_log_since = some (record { key = attempt_key 1; since_ms = 1000 });
}

silent_child_stalls_example :
    decide (observation (empty_home 700000) child_running (config follow))
    ≡ stall none none needs_human "stalled"
unfolding owns_live_child observed_log observed_run_id newest_run_id_excluding child_running
silent_child_stalls_example =
    silent_child_stalls (config follow) (empty_home 700000) child_running
      (record { key = attempt_key 1; since_ms = 1000 }) refl (ground arith) refl refl refl
      (ground arith)
