-- ===== src/Supervisor/Model.antt =====
-- plugins/tribe/scripts/runner/core/supervisor/model.ts, as far as the decision reads and writes it.
use tribe.Base.{ℕ, String, Bool, Option, List}

pub data SessionKind : Type 0 where
  ruling closing : SessionKind

pub data ParkMarkerKind : Type 0 where
  owner_only too_hard : ParkMarkerKind

pub record ParkMarker : Type 0 where
  pub kind : ParkMarkerKind
  pub card_id : String
  pub trigger : String
  pub note : String

pub data ParkReason : Type 0 where
  owner_only too_hard w7_cap spawn_cap watchdog_run_cap repeat_escalation : ParkReason
  ruling_failed closing_failed session_incomplete quota_cap overloaded stalled : ParkReason
  lock_conflict error unexpected_running watchdog_no_terminal watchdog_usage : ParkReason
  resume_blocked history_rewritten permanent_api_error : ParkReason

pub data CardOutcome : Type 0 where
  shipped escalated blocked not_reached : CardOutcome

-- `campaign-report.json`: the outcome of each card, in the report's order.
pub record CampaignReportFacts : Type 0 where
  pub cards : List (String × CardOutcome)

pub record EscalationFact : Type 0 where
  pub card_id : String
  pub file_present : Bool
  pub content_sha256 : String
  pub reason : String
  pub landed_ruling_id : Option String

pub record SupervisorLimits : Type 0 where
  pub max_ruling_rounds : ℕ
  pub max_spawns : ℕ
  pub max_watchdog_runs : ℕ
  pub session_retries : ℕ

-- A `Record<string, T>` is the list of its entries, the one set last in front.
pub record SupervisorState : Type 0 where
  pub ruling_rounds : List (String × ℕ)
  pub spawns : ℕ
  pub watchdog_runs : ℕ
  pub seen_escalations : List (String × List String)
  pub closing_verified : Bool
  pub retriggers : List (String × ℕ)

pub record RunFact : Type 0 where
  pub run_id : String
  pub pid : Option ℕ
  pub alive : Bool
  pub ended_at : Option String
  pub exit_code : Option ℕ
  pub reason : Option String

pub record LiveProcess : Type 0 where
  pub pid : ℕ
  pub alive : Bool

pub record TerminalFact : Type 0 where
  pub status : String
  pub reason : String
  pub exit_code : ℕ
  pub api_error_code : Option String

pub record LastWatchdog : Type 0 where
  pub terminal : Option TerminalFact
  pub owned_exit_code : Option ℕ

pub record RecordedPark : Type 0 where
  pub reason : String
  pub at_ms : ℕ

pub data SessionVerdict : Type 0 where
  ruled closed parked failed timeout history_rewritten : SessionVerdict

pub record SessionOutcome : Type 0 where
  pub kind : SessionKind
  pub card_id : Option String
  pub outcome : SessionVerdict
  pub ruling_id : Option String
  pub park_marker_kind : Option ParkMarkerKind

pub record SupervisorObservation : Type 0 where
  pub now_ms : ℕ
  pub stop_file_present : Bool
  pub needs_owner_present : Bool
  pub supervisor_lock : Option LiveProcess
  pub watchdog_live : Option LiveProcess
  pub last_watchdog : Option LastWatchdog
  pub report : Option CampaignReportFacts
  pub escalations : List EscalationFact
  pub owner_only_escalations : List String
  pub park_markers : List ParkMarker
  pub runs : List RunFact
  pub watchdog_run_id : Option String
  pub parked_terminal : Option RecordedPark
  pub acknowledged_park : Option RecordedPark
  pub state : SupervisorState
  pub limits : SupervisorLimits
  pub last_session_outcome : Option SessionOutcome
  pub verify_shipped_plugin_available : Bool

pub data Retrigger : Type 0 where
  stale_terminal owner_resume : Retrigger

-- The `detail` of a park, the text that the owner reads, is left out. `run_watchdog` carries
-- `cards`, `includeEscalated` and `retrigger`; `park` its reason and `recordedReason`; an exit's
-- status is always `done`.
pub data SupervisorAction : Type 0 where
  run_watchdog : Option (List String) → Bool → Option Retrigger → SupervisorAction
  await_watchdog : ℕ → SupervisorAction
  spawn_session : SessionKind → Option String → SupervisorAction
  archive_escalation : String → String → SupervisorAction
  park : ParkReason → Option String → SupervisorAction
  supersede_park : String → SupervisorAction
  exit : String → SupervisorAction
