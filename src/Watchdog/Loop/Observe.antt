-- ===== src/Watchdog/Loop/Observe.antt =====
-- `observe` of plugins/tribe/scripts/runner/core/watchdog/watch-loop.ts: the facts of one tick, and
-- what the loop's state remembers of them.
use tribe.Base.{
  ℕ, String, Bool, true, false, not, ◌&&◌, ◌||◌, Option, none, some, ltb, ◌==◌, if◌then◌else◌,
  is_some, includes,
}
use tribe.Watchdog.Model.{WatchdogRunObservation, LockHolder, WatchdogObservation}
use tribe.Watchdog.Select.{LogEntry, newest_log}
use tribe.Watchdog.Loop.{
  WatchdogConfig, RunRecord, SessionSignals, World, SilenceKey, attempt_key, run_key, NoLogSince,
  LoopState, opt_str_eq, key_eq, owns_live_child, observed_run_id, observed_record, record_pid,
  record_ended_at, record_exit_code, not_finalized,
}

abbrev pub mtime_of : Option LogEntry → Option ℕ
mtime_of none = none
mtime_of (some e) = some e.mtime_ms

abbrev pub since_of : Option NoLogSince → Option ℕ
since_of none = none
since_of (some n) = some n.since_ms

abbrev pub no_signals : SessionSignals
no_signals = record {
  quota_resets_at_epoch_s = none;
  overload_status = none;
  permanent_api_error = none;
}

abbrev pub run_id_of : Option WatchdogRunObservation → Option String
run_id_of none = none
run_id_of (some r) = r.run_id

module _ (w : World) (s : LoopState) where
  abbrev pub seen_id : Option String
  seen_id = observed_run_id w s

  abbrev pub seen_record : Option RunRecord
  seen_record = observed_record w seen_id

  -- The run that this invocation has seen running.
  unfoldable pub tracked : Option String
  tracked =
      if is_some seen_id && (is_some s.child || not_finalized w seen_record)
      then seen_id
      else s.tracked_run_id

  abbrev pub self_corrects : Bool
  self_corrects = elim (record_exit_code seen_record) [
    | none ↦ false
    | some code ↦ code == 1 || code == 3
  ]

  unfoldable pub provenance_matches : Bool
  unfolding tracked
  provenance_matches = is_some seen_id && opt_str_eq seen_id tracked

  unfoldable pub finalized_here : Bool
  unfolding provenance_matches
  finalized_here = is_some (record_ended_at seen_record) && (self_corrects || provenance_matches)

  unfoldable pub is_alive : Bool
  unfolding owns_live_child not_finalized
  is_alive = owns_live_child s || not_finalized w seen_record

  unfoldable pub observed_pid : Option ℕ
  unfolding owns_live_child
  observed_pid = if owns_live_child s then s.child else record_pid seen_record

  unfoldable pub crash_suspected : Bool
  unfolding is_alive
  crash_suspected =
      is_some seen_id
      && not is_alive
      && not (is_some (record_ended_at seen_record))
      && not (is_some s.owned_exit_code)

  unfoldable pub exit_code_provenanced : Bool
  unfolding crash_suspected provenance_matches
  exit_code_provenanced =
      is_some s.owned_exit_code
      || crash_suspected
      || (is_some (record_ended_at seen_record) && provenance_matches)

  unfoldable pub observed_log : Option LogEntry
  observed_log = elim seen_id [ none ↦ none | some id ↦ newest_log (w.logs id) ]

  unfoldable pub observed_log_path : Option String
  unfolding observed_log
  observed_log_path = elim seen_id [
    | none ↦ none
    | some id ↦ elim observed_log [ none ↦ none | some e ↦ some (w.log_path id e.name) ]
  ]

  -- A run that this invocation spawned: its directory was not there before the spawn.
  unfoldable pub our_own_run : Bool
  our_own_run =
      ltb 0 s.attempt && elim seen_id [ none ↦ true | some id ↦ not (includes s.prior_run_ids id) ]

  unfoldable pub silence_key : SilenceKey
  unfolding our_own_run
  silence_key = if our_own_run then attempt_key s.attempt else run_key seen_id

  abbrev pub fresh_clock : NoLogSince
  fresh_clock = record { key = silence_key; since_ms = w.now_ms }

  unfoldable pub no_log_clock : Option NoLogSince
  unfolding is_alive observed_log silence_key key_eq
  no_log_clock =
      if is_alive && not (is_some observed_log)
      then elim s.no_log_since [
        | none ↦ some fresh_clock
        | some since ↦ if key_eq since.key silence_key then some since else some fresh_clock
      ]
      else none

  unfoldable pub observed_signals : SessionSignals
  unfolding observed_log_path
  observed_signals = elim observed_log_path [ none ↦ no_signals | some path ↦ w.signals path ]

  abbrev pub lock_of : Option ℕ → Option LockHolder
  lock_of none = none
  lock_of (some pid) = some (record { pid = pid; alive = w.is_process_alive pid })

  unfoldable pub observed_run : Option WatchdogRunObservation
  unfolding owns_live_child is_alive observed_pid observed_log observed_log_path no_log_clock
  observed_run =
      if not (is_some seen_id) && not (owns_live_child s)
      then none
      else some (record {
        run_id = seen_id;
        runner_pid = observed_pid;
        alive = is_alive;
        ended_at = record_ended_at seen_record;
        newest_log_path = observed_log_path;
        newest_log_mtime_ms = mtime_of observed_log;
        no_log_since_ms = since_of no_log_clock;
      })

  unfoldable pub resolved_exit_code : Option ℕ
  unfolding finalized_here
  resolved_exit_code = elim s.owned_exit_code [
    | some code ↦ some code
    | none ↦ if finalized_here then record_exit_code seen_record else none
  ]

  unfoldable pub observation : WatchdogConfig → WatchdogObservation
  unfolding observed_run resolved_exit_code exit_code_provenanced crash_suspected observed_signals
  observation config = record {
    now_ms = w.now_ms;
    mode = config.mode;
    stop_file_present = w.stop_file_present;
    lock_holder = lock_of w.lock;
    run = observed_run;
    last_exit_code = resolved_exit_code;
    crash_suspected = crash_suspected;
    last_exit_code_provenanced = some exit_code_provenanced;
    quota_resets_at_epoch_s = observed_signals.quota_resets_at_epoch_s;
    overload_status = observed_signals.overload_status;
    permanent_api_error = observed_signals.permanent_api_error;
    counters = s.counters;
    limits = config.limits;
    fallback_model = config.fallback_model;
    pending_wait = s.pending_wait;
  }

  -- What `observe` leaves in the loop's state, with the run id that the loop takes from it.
  unfoldable pub remembered : LoopState
  unfolding tracked no_log_clock observed_run
  remembered = record s {
    tracked_run_id = tracked;
    no_log_since = no_log_clock;
    run_id = elim (run_id_of observed_run) [ some id ↦ some id | none ↦ s.run_id ];
  }
