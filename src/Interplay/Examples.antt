-- ===== src/Interplay/Examples.antt =====
-- The contract between the tables, at a watchdog whose runner asks for a ruling.
use tribe.Base.{true, false, none, some, List, [], ◌∷◌, refl}
use tribe.Watchdog.Model.{follow}
use tribe.Watchdog.Loop.{WatchdogConfig, World, Reply, init_state}
use tribe.Watchdog.Loop.Observe.{no_signals}
use tribe.Watchdog.Loop.Tick.{run}
use tribe.Supervisor.Model.{SupervisorObservation}
use tribe.Interplay.Reasons.{EndsOn}
use tribe.Interplay.Handled.{Handled, run-Handled}

abbrev config : WatchdogConfig
config = record {
  repo_root = "/repo";
  model = "opus";
  home_dir = "/home/campaign";
  mode = follow;
  limits = record {
    stall_minutes = 10;
    max_quota_waits = 3;
    max_overload_backoffs = 5;
    max_crash_relaunches = 2;
    quota_grace_seconds = 60;
  };
  fallback_model = none;
  passthrough = [];
  runner_command = "tribe" ∷ [];
}

abbrev home : World
home = record {
  now_ms = 1000;
  run_ids = [];
  run_record = λ id. none;
  is_process_alive = λ pid. false;
  logs = λ id. [];
  log_path = λ id name. name;
  signals = λ path. no_signals;
  lock = none;
  stop_file_present = false;
}

abbrev ruling_wanted : Reply
ruling_wanted = record { run_ids_at_spawn = []; child_pid = 7; waited_exit_code = some 2 }

-- The runner is launched, ends on exit 2, and its end is observed.
abbrev ticks : List (World × Reply)
ticks = (home, ruling_wanted) ∷ (home, ruling_wanted) ∷ (home, ruling_wanted) ∷ []

abbrev observed : SupervisorObservation
observed = record {
  now_ms = 2000;
  stop_file_present = false;
  needs_owner_present = false;
  supervisor_lock = none;
  watchdog_live = none;
  last_watchdog = none;
  report = none;
  escalations = [];
  owner_only_escalations = [];
  park_markers = [];
  runs = [];
  watchdog_run_id = none;
  parked_terminal = none;
  acknowledged_park = none;
  state = record {
    ruling_rounds = [];
    spawns = 0;
    watchdog_runs = 1;
    seen_escalations = [];
    closing_verified = false;
    retriggers = [];
  };
  limits = record {
    max_ruling_rounds = 3;
    max_spawns = 20;
    max_watchdog_runs = 10;
    session_retries = 1;
  };
  last_session_outcome = none;
  verify_shipped_plugin_available = true;
}

run-Handled_example : EndsOn (Handled observed) (run config ticks (init_state config))
run-Handled_example = run-Handled config ticks observed refl
