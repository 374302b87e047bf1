-- ===== src/Watchdog/Decide/Safety.antt =====
-- What the decision table never does.
use tribe.Base.{◌≡◌, refl, some, arith, true, ◌⊎◌, All}
use tribe.Watchdog.Model.{
  WatchdogObservation, WatchdogRunObservation, WatchdogAction, launch, attach, wait_until, relaunch,
  stall, exit, once, follow, needs_human, done,
}
use tribe.Watchdog.Decide.{
  live_run, terminal_outcome, lock_refused, permanent_error, quota_signal, overload_signal,
  crash_relaunch, recoverable_death, nothing_yet, decide, terminal_reasons, is_terminal_reason,
}
use tribe.Watchdog.Decide.Cases.{Answers, recoverable_death-Answers, decide_cases}

-- The watchdog stays behind for a later tick.
abbrev pub Sleeps : WatchdogAction → Type 0
Sleeps (attach _) = Unit
Sleeps (wait_until _ _) = Unit
Sleeps _ = ⊥

-- Work is started, or a wait for work is ordered.
abbrev pub Starts : WatchdogAction → Type 0
Starts launch = Unit
Starts (relaunch _ _) = Unit
Starts (wait_until _ _) = Unit
Starts _ = ⊥

module _ (o : WatchdogObservation) (m : o.mode ≡ once) where
  once_death : Answers (λ a. ¬ Sleeps a) (recoverable_death o)
  unfolding permanent_error quota_signal overload_signal crash_relaunch
  once_death =
      recoverable_death-Answers (λ a. ¬ Sleeps a) o (ground arith) (ground arith) (ground arith)
        (ground arith)

  -- With `--once` the table never answers `attach` or `wait_until`, whatever is observed.
  pub decide-once_never-Sleeps : ¬ Sleeps (decide o)
  unfolding live_run terminal_outcome lock_refused nothing_yet
  decide-once_never-Sleeps =
      decide_cases (λ a. ¬ Sleeps a) o (ground arith) (ground arith) (ground arith) once_death
        (ground arith)

module _ (o : WatchdogObservation) (stopped : o.stop_file_present ≡ true) where
  stopped_death : Answers (λ a. ¬ Starts a) (recoverable_death o)
  unfolding permanent_error quota_signal overload_signal crash_relaunch
  stopped_death =
      recoverable_death-Answers (λ a. ¬ Starts a) o (ground arith) (ground arith) (ground arith)
        (ground arith)

  -- While the STOP file is there, the table never launches, relaunches or orders a wait.
  pub decide-stop-Starts_nothing : ¬ Starts (decide o)
  unfolding live_run terminal_outcome lock_refused nothing_yet
  decide-stop-Starts_nothing =
      decide_cases (λ a. ¬ Starts a) o (ground arith) (ground arith) (ground arith) stopped_death
        (ground arith)

-- While the observed run is alive, the table starts nothing, whatever else was observed.
pub decide-live-Starts_nothing :
    (o : WatchdogObservation) (run : WatchdogRunObservation)
    → o.run ≡ some run
    → run.alive ≡ true
    → ¬ Starts (decide o)
unfolding decide live_run
decide-live-Starts_nothing o run e h = ground arith

-- What is published: a reason of the closed list, and from `--follow` a status that ends the
-- supervision.
abbrev pub Published : WatchdogObservation → WatchdogAction → Type 0
Published o (exit status reason wake code) =
    (is_terminal_reason reason ≡ true)
    × (o.mode ≡ follow → (status ≡ done) ⊎ (status ≡ needs_human))
Published o (stall log mtime status reason) =
    (is_terminal_reason reason ≡ true) × (o.mode ≡ follow → status ≡ needs_human)
Published o _ = Unit

listed : All (λ reason. is_terminal_reason reason ≡ true) terminal_reasons
unfolding is_terminal_reason
listed = (
  refl,
  (
    refl,
    (refl, (refl, (refl, (refl, (refl, (refl, (refl, (refl, (refl, (refl, (refl, tt))))))))))),
  ),
)

module _ (o : WatchdogObservation) where
  Published-death : Answers (Published o) (recoverable_death o)
  unfolding permanent_error quota_signal overload_signal crash_relaunch
  Published-death =
      recoverable_death-Answers (Published o) o (ground (arith, listed)) (ground (arith, listed))
        (ground (arith, listed)) (ground (arith, listed))

  -- Every exit and every stall carries a reason of `TERMINAL_REASONS`; with `--follow` an exit is
  -- `done` or `needs_human` and a stall is `needs_human`.
  pub decide-Published : Published o (decide o)
  unfolding live_run terminal_outcome lock_refused nothing_yet
  decide-Published =
      decide_cases (Published o) o (ground (arith, listed)) (ground (arith, listed))
        (ground (arith, listed)) Published-death (ground (arith, listed))
