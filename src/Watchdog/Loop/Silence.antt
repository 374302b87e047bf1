-- ===== src/Watchdog/Loop/Silence.antt =====
-- A runner that this invocation spawned and that never writes a log line is reported.
use tribe.Base.{
  ◌-◌, ◌*◌, ◌<◌, ◌≡◌, refl, none, some, arith, true, false, String, inl, inr, Option-cases,
  includes, if◌then◌else◌, lt→ltb,
}
use tribe.Watchdog.Model.{stall, running, needs_human}
use tribe.Watchdog.Select.{is_stale}
use tribe.Watchdog.Select.Newest.{newest_run_id_excluding_sound}
use tribe.Watchdog.Decide.{decide, is_once}
use tribe.Watchdog.Decide.Stale.{decide_stale}
use tribe.Watchdog.Loop.{
  WatchdogConfig, World, LoopState, NoLogSince, record_ended_at, attempt_key, owns_live_child,
  observed_run_id,
}
use tribe.Watchdog.Loop.Observe.{
  observation, observed_run, observed_log, observed_log_path, our_own_run, no_log_clock, seen_id,
  seen_record, observed_pid, since_of,
}

module _ (w : World) (s : LoopState) (live : owns_live_child s ≡ true) where
  child_id_fresh :
      (id : String) → observed_run_id w s ≡ some id → includes s.prior_run_ids id ≡ false
  unfolding observed_run_id
  child_id_fresh id e =
      (newest_run_id_excluding_sound w.run_ids s.prior_run_ids id (rw live at e)).1

  -- Its run directory, once it shows, was not there before the spawn.
  child_is_ours : 0 < s.attempt → our_own_run w s ≡ true
  unfolding our_own_run
  child_is_ours started = elim (Option-cases (observed_run_id w s)) [
    | inl e ↦ ground arith
    | inr (id, e) ↦ ground (arith, child_id_fresh id e)
  ]

  -- So the clock of the attempt goes on, also when the directory shows.
  clock_kept :
      (since : NoLogSince)
      → 0 < s.attempt
      → observed_log w s ≡ none
      → s.no_log_since ≡ some since
      → since.key ≡ attempt_key s.attempt
      → no_log_clock w s ≡ some since
  unfolding no_log_clock owns_live_child
  clock_kept since started l c k = ground (arith, child_is_ours started, live)

  no_path : observed_log w s ≡ none → observed_log_path w s ≡ none
  unfolding observed_log_path
  no_path l = ground (arith, Option-cases (observed_run_id w s))

  live_run_seen :
      observed_log w s ≡ none
      → observed_run w s
        ≡ some (record {
          run_id = seen_id w s;
          runner_pid = observed_pid w s;
          alive = true;
          ended_at = record_ended_at (seen_record w s);
          newest_log_path = none;
          newest_log_mtime_ms = none;
          no_log_since_ms = since_of (no_log_clock w s);
        })
  unfolding observed_run
  live_run_seen l = ground (arith, no_path l, live)

-- While the child of this invocation has not exited and its run has no log, and the clock that the
-- attempt started shows more than `stallMinutes`, the decision is a stall: `needs_human` with
-- `--follow`, `running` with `--once`.
pub silent_child_stalls :
    (config : WatchdogConfig) (w : World) (s : LoopState) (since : NoLogSince)
    → owns_live_child s ≡ true
    → 0 < s.attempt
    → observed_log w s ≡ none
    → s.no_log_since ≡ some since
    → since.key ≡ attempt_key s.attempt
    → config.limits.stall_minutes * 60000 < w.now_ms - since.since_ms
    → decide (observation w s config)
      ≡ stall none none (if is_once config.mode then running else needs_human) "stalled"
unfolding observation
silent_child_stalls config w s since live started l c k late =
    decide_stale (observation w s config) _ (live_run_seen w s live l) refl
      (rw (clock_kept w s live since started l c k) (unfold is_stale in lt→ltb _ _ late))
