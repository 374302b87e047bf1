-- ===== src/Watchdog/Decide/Cases.antt =====
-- How a proof about `decide` goes through its sections.
use tribe.Base.{Option, none, some, arith}
use tribe.Watchdog.Model.{WatchdogObservation, WatchdogAction}
use tribe.Watchdog.Decide.{
  live_run, terminal_outcome, lock_refused, permanent_error, quota_signal, overload_signal,
  crash_relaunch, recoverable_death, nothing_yet, decide,
}

-- What a section answers has the property; a section that falls through owes nothing.
abbrev pub Answers : (WatchdogAction → Type 0) → Option WatchdogAction → Type 0
Answers P none = Unit
Answers P (some a) = P a

module _ (P : WatchdogAction → Type 0) (o : WatchdogObservation) where
  pub recoverable_death-Answers :
      Answers P (permanent_error o)
      → Answers P (quota_signal o)
      → Answers P (overload_signal o)
      → Answers P (crash_relaunch o)
      → Answers P (recoverable_death o)
  unfolding recoverable_death
  recoverable_death-Answers p q r c = ground arith

  pub decide_cases :
      Answers P (live_run o o.run)
      → Answers P (terminal_outcome o.last_exit_code)
      → Answers P (lock_refused o)
      → Answers P (recoverable_death o)
      → P (nothing_yet o)
      → P (decide o)
  unfolding decide
  decide_cases l t k r n = ground arith
