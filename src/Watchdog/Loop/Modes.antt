-- ===== src/Watchdog/Loop/Modes.antt =====
-- What the two modes promise of a tick.
use tribe.Base.{◌≡◌, Option, arith, true, inl, inr, Option-cases}
use mathlib.Core.Bool.{false≢true}
use tribe.Watchdog.Model.{WatchdogRunObservation, WatchdogAction, once}
use tribe.Watchdog.Decide.{decide}
use tribe.Watchdog.Decide.Safety.{
  Sleeps, Starts, decide-once_never-Sleeps, decide-live-Starts_nothing, decide-stop-Starts_nothing,
}
use tribe.Watchdog.Loop.{WatchdogConfig, World, Reply, LoopState, owns_live_child}
use tribe.Watchdog.Loop.Observe.{observation, remembered, observed_run}
use tribe.Watchdog.Loop.Tick.{Outcome, terminates, throws, perform, tick}
use tribe.Watchdog.Loop.Spawns.{Leaves}

abbrev pub Ends : Outcome → Type 0
Ends (terminates _ _) = Unit
Ends _ = ⊥

abbrev pub Throws : Outcome → Type 0
Throws throws = Unit
Throws _ = ⊥

module _ (config : WatchdogConfig) (w : World) (reply : Reply) (s : LoopState) where
  once_perform :
      (r : Option WatchdogRunObservation) (a : WatchdogAction) (s' : LoopState)
      → config.mode ≡ once
      → ¬ Sleeps a
      → Ends (perform config reply r a s')
  unfolding perform
  once_perform r a s' m h = ground arith

  -- With `--once` the loop's first tick returns a terminal: it neither goes on nor throws.
  pub tick-once-Ends : config.mode ≡ once → Ends (tick config w reply s)
  unfolding tick observation
  tick-once-Ends m =
      once_perform (observation w s config).run (decide (observation w s config)) (remembered w s) m
        (decide-once_never-Sleeps (observation w s config) m)

  idle_perform :
      (r : Option WatchdogRunObservation) (a : WatchdogAction) (s' : LoopState)
      → ¬ Starts a
      → Leaves
          (λ t. (t.attempt ≡ s'.attempt) × (t.counters ≡ s'.counters))
          (perform config reply r a s')
  unfolding perform
  idle_perform r a s' h = ground arith

  idle_tick :
      ¬ Starts (decide (observation w s config))
      → Leaves (λ t. (t.attempt ≡ s.attempt) × (t.counters ≡ s.counters)) (tick config w reply s)
  unfolding tick remembered
  idle_tick h =
      idle_perform (observation w s config).run (decide (observation w s config)) (remembered w s) h

  -- While the STOP file is there a tick starts no runner and charges no budget.
  pub tick-stopped_idle :
      w.stop_file_present ≡ true
      → Leaves (λ t. (t.attempt ≡ s.attempt) × (t.counters ≡ s.counters)) (tick config w reply s)
  unfolding observation
  tick-stopped_idle h = idle_tick (decide-stop-Starts_nothing (observation w s config) h)

  -- While the child that this invocation spawned has not exited, a tick starts no second runner and
  -- charges no budget, whatever the disk shows.
  pub tick-live_child_idle :
      owns_live_child s ≡ true
      → Leaves (λ t. (t.attempt ≡ s.attempt) × (t.counters ≡ s.counters)) (tick config w reply s)
  unfolding observation observed_run
  tick-live_child_idle h = elim (Option-cases (observed_run w s)) [
    | inl e ↦ absurd (false≢true (ground (arith, e, h)))
    | inr (r, e) ↦
        idle_tick (decide-live-Starts_nothing (observation w s config) r e (ground (arith, e, h)))
  ]
