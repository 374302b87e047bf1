-- ===== src/Supervisor/Examples.antt =====
-- The theorems on plugins/tribe/scripts/runner/core/supervisor at concrete homes.
use tribe.Base.{◌≤◌, ◌≡◌, ◌≢◌, refl, String, true, false, Option, none, some, [], ◌∷◌, inl, arith}
use mathlib.Core.List.{Memᴰ}
use tribe.Watchdog.Select.{str_lt}
use tribe.Supervisor.Model.{
  ruling, ParkReason, EscalationFact, SupervisorLimits, SupervisorState, RunFact, LastWatchdog,
  SessionVerdict, SessionOutcome, SupervisorObservation, run_watchdog, spawn_session,
  supersede_park,
}
use tribe.Supervisor.Truth.{
  newer_run_alive, run_finalised, candidates, contradiction_among, terminal_contradiction,
  terminal_reason_for_run_reason, retriggers_of,
}
use tribe.Supervisor.Truth.Liveness.{liveness_wins}
use tribe.Supervisor.Decide.{decide, effective_reason, stale_terminal_row, main_rows}
use tribe.Supervisor.Entry.{park_for, retry_key, post_session, retry_or_park}
use tribe.Supervisor.Decide.Spawns.{Justified, decide-Justified}
use tribe.Supervisor.Decide.Parks.{Superseding, decide-Superseding}
use tribe.Supervisor.Decide.Supersede.{
  Informative, IsStalledPark, after_supersede, superseded_not_parked_again,
}
use tribe.Supervisor.Decide.Supersede.Churn.{Unexplained, superseded_parked_again}
use tribe.Supervisor.Loop.{carry_out, spawned_sha}
use tribe.Supervisor.Loop.Budget.{respawn_within_retries, stalled_incomplete_uncharged}
use tribe.Supervisor.Loop.Rulings.{now, ruled_body_not_ruled_again}

abbrev limits : SupervisorLimits
limits = record {
  max_ruling_rounds = 3;
  max_spawns = 20;
  max_watchdog_runs = 10;
  session_retries = 1;
}

abbrev no_counts : SupervisorState
no_counts = record {
  ruling_rounds = [];
  spawns = 0;
  watchdog_runs = 0;
  seen_escalations = [];
  closing_verified = false;
  retriggers = [];
}

abbrev ended_on : String → LastWatchdog
ended_on reason = record {
  terminal =
      some
        (record { status = "needs_human"; reason = reason; exit_code = 10; api_error_code = none });
  owned_exit_code = some 10;
}

abbrev home_after : String → SupervisorObservation
home_after reason = record {
  now_ms = 1000000;
  stop_file_present = false;
  needs_owner_present = false;
  supervisor_lock = none;
  watchdog_live = none;
  last_watchdog = some (ended_on reason);
  report = none;
  escalations = [];
  owner_only_escalations = [];
  park_markers = [];
  runs = [];
  watchdog_run_id = some "run-1";
  parked_terminal = none;
  acknowledged_park = none;
  state = no_counts;
  limits = limits;
  last_session_outcome = none;
  verify_shipped_plugin_available = true;
}

abbrev finished : Option String → RunFact
finished reason = record {
  run_id = "run-1";
  pid = some 7;
  alive = false;
  ended_at = some "2026-08-08T10:00:00Z";
  exit_code = some 3;
  reason = reason;
}

abbrev alive_run : RunFact
alive_run = record {
  run_id = "run-2";
  pid = some 8;
  alive = true;
  ended_at = none;
  exit_code = none;
  reason = none;
}

abbrev two_runs : SupervisorObservation
two_runs = record (home_after "stalled") { runs = finished none ∷ alive_run ∷ [] }

liveness_wins_example :
    (id : String) × (terminal_contradiction two_runs ≡ some (newer_run_alive id))
unfolding str_lt
liveness_wins_example =
    liveness_wins two_runs "run-1" alive_run refl refl (Memᴰ.tail (Memᴰ.head refl)) refl refl

abbrev one_finished : Option String → SupervisorObservation
one_finished reason = record (home_after "stalled") { runs = finished reason ∷ [] }

finished_found :
    terminal_contradiction (one_finished (some "session_incomplete"))
    ≡ some (run_finalised "run-1" 3 (some "session_incomplete"))
unfolding terminal_contradiction candidates contradiction_among str_lt
finished_found = refl

abbrev retried : SupervisorState
retried = record no_counts { retriggers = ("stale_terminal", 1) ∷ ("ruling:C1", 1) ∷ [] }

abbrev escalation : EscalationFact
escalation = record {
  card_id = "C1";
  file_present = true;
  content_sha256 = "sha";
  reason = "needs_direction";
  landed_ruling_id = none;
}

abbrev escalated : SupervisorObservation
escalated = record (home_after "escalations_pending") { escalations = escalation ∷ [] }

decide-Justified_example : Justified escalated (decide escalated)
decide-Justified_example = decide-Justified escalated refl

abbrev failed_ruling : SessionOutcome
failed_ruling = record {
  kind = ruling;
  card_id = some "C1";
  outcome = SessionVerdict.failed;
  ruling_id = none;
  park_marker_kind = none;
}

abbrev after_failure : SupervisorObservation
after_failure = record escalated { last_session_outcome = some failed_ruling }

abbrev parked_on : String → SupervisorObservation → SupervisorObservation
parked_on reason o = record o {
  needs_owner_present = true;
  parked_terminal = some (record { reason = reason; at_ms = 900000 });
}

abbrev stalled_park : Option String → SupervisorObservation
stalled_park reason = parked_on "stalled" (one_finished reason)

decide-Superseding_example :
    Superseding (stalled_park (some "done")) (decide (stalled_park (some "done")))
decide-Superseding_example = decide-Superseding (stalled_park (some "done"))

informed :
    Informative (stalled_park (some "done")) (terminal_contradiction (stalled_park (some "done")))
unfolding terminal_contradiction candidates contradiction_among str_lt
    terminal_reason_for_run_reason
informed e = ground (arith, e)

superseded_not_parked_again_example :
    ¬ IsStalledPark (decide (after_supersede (stalled_park (some "done"))))
superseded_not_parked_again_example =
    superseded_not_parked_again (stalled_park (some "done")) informed

unexplained : Unexplained (stalled_park none)
unfolding terminal_contradiction candidates contradiction_among str_lt
    terminal_reason_for_run_reason
unexplained = record {
  parked = refl;
  present = refl;
  alone = refl;
  not_stopped = refl;
  no_watchdog = refl;
  not_acknowledged = refl;
  no_session = refl;
  finalised = ("run-1", 3, none, refl, refl);
  terminal = (ended_on "stalled", refl, refl);
}

superseded_parked_again_example :
    (decide (stalled_park none) ≡ supersede_park "stalled")
    × (decide (after_supersede (stalled_park none)) ≡ park_for ParkReason.stalled)
superseded_parked_again_example = superseded_parked_again (stalled_park none) unexplained

retry_decided : decide after_failure ≡ spawn_session ruling (some "C1")
unfolding decide post_session retry_or_park
retry_decided = refl

respawn_within_retries_example :
    (retriggers_of (carry_out after_failure (decide after_failure)) (retry_key ruling (some "C1"))
      ≡ 1)
    × (retriggers_of (carry_out after_failure (decide after_failure)) (retry_key ruling (some "C1"))
        ≤ 1)
unfolding retry_key
respawn_within_retries_example =
    respawn_within_retries after_failure failed_ruling refl (inl refl) retry_decided

effective_incomplete :
    effective_reason (one_finished (some "session_incomplete")) (ended_on "stalled")
    ≡ some "session_incomplete"
unfolding effective_reason terminal_contradiction candidates contradiction_among str_lt
    terminal_reason_for_run_reason
effective_incomplete = refl

no_stale_row : stale_terminal_row (one_finished (some "session_incomplete")) ≡ none
unfolding stale_terminal_row terminal_contradiction candidates contradiction_among str_lt
no_stale_row = refl

stalled_incomplete_uncharged_example :
    let o = one_finished (some "session_incomplete") in
    (main_rows o (some (ended_on "stalled")) ≡ run_watchdog none false none)
    × (retriggers_of (carry_out o (run_watchdog none false none)) "session_incomplete" ≡ 0)
stalled_incomplete_uncharged_example =
    stalled_incomplete_uncharged (one_finished (some "session_incomplete")) (ended_on "stalled")
      refl refl effective_incomplete no_stale_row (ground arith) refl

-- The same home after the ruling session of `escalated` has been counted.
abbrev after_ruling : SupervisorObservation
after_ruling = record escalated { state = carry_out escalated (spawn_session ruling (some "C1")) }

ruled_body_not_ruled_again_example : decide after_ruling ≢ spawn_session ruling (some "C1")
unfolding spawned_sha
ruled_body_not_ruled_again_example =
    ruled_body_not_ruled_again escalated after_ruling escalation (some "C1") now refl refl refl
