-- ===== src/Watchdog/Decide/Stale.antt =====
-- A live run that has been silent for too long.
use tribe.Base.{◌≡◌, some, arith, true, if◌then◌else◌}
use tribe.Watchdog.Model.{WatchdogObservation, WatchdogRunObservation, stall, running, needs_human}
use tribe.Watchdog.Decide.{decide, live_run, is_once}
use tribe.Watchdog.Select.{is_stale}

-- It is reported, whatever else was observed, and the status says whether the caller comes back.
pub decide_stale :
    (o : WatchdogObservation) (run : WatchdogRunObservation)
    → o.run ≡ some run
    → run.alive ≡ true
    → is_stale o.now_ms run.newest_log_mtime_ms o.limits.stall_minutes run.no_log_since_ms ≡ true
    → decide o
      ≡ stall run.newest_log_path run.newest_log_mtime_ms
          (if is_once o.mode then running else needs_human)
          "stalled"
unfolding decide live_run
decide_stale o run e a h = ground arith
