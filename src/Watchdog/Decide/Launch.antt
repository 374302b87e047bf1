-- ===== src/Watchdog/Decide/Launch.antt =====
-- When the decision table launches a runner.
use tribe.Base.{◌≡◌, ◌≢◌, refl, Option, none, some, arith, true, false, ◌⊎◌, subst}
use tribe.Watchdog.Model.{
  WatchdogObservation, WatchdogRunObservation, LockHolder, WatchdogAction, launch,
}
use tribe.Watchdog.Decide.{
  live_run, terminal_outcome, lock_refused, permanent_error, quota_signal, overload_signal,
  crash_relaunch, recoverable_death, nothing_yet, decide, or_next, provenanced, is_recoverable,
  exit_is,
}
use tribe.Watchdog.Decide.Cases.{Answers, recoverable_death-Answers}

abbrev pub NotLaunch : WatchdogAction → Type 0
NotLaunch launch = ⊥
NotLaunch _ = Unit

or_next_falls :
    (m : Option WatchdogAction) (next : WatchdogAction)
    → Answers NotLaunch m
    → or_next m next ≡ launch
    → (m ≡ none) × (next ≡ launch)
or_next_falls none next h e = (refl, e)
or_next_falls (some a) next h e = absurd (subst NotLaunch e h)

module _ (o : WatchdogObservation) where
  death_no_launch : Answers NotLaunch (recoverable_death o)
  unfolding permanent_error quota_signal overload_signal crash_relaunch
  death_no_launch =
      recoverable_death-Answers NotLaunch o (ground arith) (ground arith) (ground arith)
        (ground arith)

  provenanced_death_answers :
      is_recoverable o ≡ true → provenanced o ≡ true → recoverable_death o ≢ none
  unfolding recoverable_death
  provenanced_death_answers h k = ground arith

  provenanced_lock_answers :
      exit_is o.last_exit_code 1 ≡ true → provenanced o ≡ true → lock_refused o ≢ none
  unfolding lock_refused
  provenanced_lock_answers h k = ground arith

  live_no_launch : Answers NotLaunch (live_run o o.run)
  unfolding live_run
  live_no_launch = ground arith

  terminal_no_launch : Answers NotLaunch (terminal_outcome o.last_exit_code)
  unfolding terminal_outcome
  terminal_no_launch = ground arith

  lock_no_launch : Answers NotLaunch (lock_refused o)
  unfolding lock_refused
  lock_no_launch = ground arith

  -- When a launch is chosen, every section above it fell through.
  launch_falls_through :
      decide o ≡ launch
      → (live_run o o.run ≡ none)
        × (terminal_outcome o.last_exit_code ≡ none)
        × (lock_refused o ≡ none)
        × (recoverable_death o ≡ none)
        × (nothing_yet o ≡ launch)
  unfolding decide
  launch_falls_through e =
      let (l, e₁) = or_next_falls _ _ live_no_launch e in
      let (t, e₂) = or_next_falls _ _ terminal_no_launch e₁ in
      let (k, e₃) = or_next_falls _ _ lock_no_launch e₂ in
      let (d, e₄) = or_next_falls _ _ death_no_launch e₃ in (l, t, k, d, e₄)

  launch_stop : nothing_yet o ≡ launch → o.stop_file_present ≡ false
  unfolding nothing_yet
  launch_stop n = ground arith

  launch_holder :
      nothing_yet o ≡ launch
      → (holder : LockHolder) → o.lock_holder ≡ some holder
      → holder.alive ≡ false
  unfolding nothing_yet
  launch_holder n holder h = ground arith

  launch_run :
      live_run o o.run ≡ none
      → (run : WatchdogRunObservation) → o.run ≡ some run
      → run.alive ≡ false
  unfolding live_run
  launch_run l run h = ground arith

  launch_code :
      terminal_outcome o.last_exit_code ≡ none
      → lock_refused o ≡ none
      → recoverable_death o ≡ none
      → (provenanced o ≡ false) ⊎ ((o.last_exit_code ≡ none) × (o.crash_suspected ≡ false))
  unfolding terminal_outcome
  launch_code t k d = ground (arith, provenanced_death_answers, provenanced_lock_answers)

  -- A launch is chosen only with no STOP file, no live run and no live holder of the runner's lock,
  -- and not on an exit code or a crash that this invocation has seen itself.
  pub decide-launch :
      decide o ≡ launch
      → (o.stop_file_present ≡ false)
        × ((run : WatchdogRunObservation) → o.run ≡ some run → run.alive ≡ false)
        × ((holder : LockHolder) → o.lock_holder ≡ some holder → holder.alive ≡ false)
        × ((provenanced o ≡ false) ⊎ ((o.last_exit_code ≡ none) × (o.crash_suspected ≡ false)))
  decide-launch e =
      let (l, t, k, d, n) = launch_falls_through e in
      (launch_stop n, launch_run l, launch_holder n, launch_code t k d)
