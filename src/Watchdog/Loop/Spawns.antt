-- ===== src/Watchdog/Loop/Spawns.antt =====
-- How many runners one invocation of the watchdog starts.
use tribe.Base.{
  ℕ, ◌+◌, ◌≤◌, ◌≡◌, ◌≢◌, refl, Option, none, some, List, [], ◌∷◌, arith, true, false, Bool, inl,
  inr, Option-cases, is_some, ap, sym, ◌∙◌,
}
use mathlib.Core.Bool.{false≢true}
use tribe.Watchdog.Model.{
  WatchdogRunObservation, WatchdogLimits, WaitCause, RelaunchCause, WatchdogAction, launch, attach,
  wait_until, relaunch, stall, exit,
}
use tribe.Watchdog.Decide.{decide}
use tribe.Watchdog.Decide.Budget.{Paid, decide-Paid}
use tribe.Watchdog.Decide.Launch.{decide-launch}
use tribe.Watchdog.Loop.{WatchdogConfig, World, Reply, LoopState, init_state}
use tribe.Watchdog.Loop.Observe.{
  observation, remembered, observed_run, resolved_exit_code, exit_code_provenanced,
}
use tribe.Watchdog.Loop.Tick.{Outcome, continues, terminates, throws, perform, tick, run}

abbrev pub flag : Bool → ℕ
flag true = 1
flag false = 0

-- Every runner started so far has been paid for, and no budget is overdrawn.
pub record Accounted (limits : WatchdogLimits) (s : LoopState) : Type 0 where
  pub crash_capped : s.counters.crash_relaunches ≤ limits.max_crash_relaunches
  pub lock_capped : s.counters.lock_relaunches ≤ 1
  pub quota_capped : s.counters.quota_waits ≤ limits.max_quota_waits
  pub overload_capped : s.counters.overload_backoffs ≤ limits.max_overload_backoffs
  pub paid :
      s.attempt + flag (is_some s.pending_wait)
      ≤ flag (is_some s.child)
        + s.counters.crash_relaunches
        + s.counters.lock_relaunches
        + s.counters.quota_waits
        + s.counters.overload_backoffs
        + flag s.counters.fallback_used

-- A property of the state that an outcome leaves.
abbrev pub Leaves : (LoopState → Type 0) → Outcome → Type 0
Leaves P (continues s) = P s
Leaves P (terminates t s) = P s
Leaves P throws = Unit

-- The counters of `remembered` are those of the state.
module _ (config : WatchdogConfig) (w : World) (s : LoopState) where
  remembered-Accounted : Accounted config.limits s → Accounted config.limits (remembered w s)
  unfolding remembered
  remembered-Accounted a = ground arith

  live_child_runs : is_some s.child ≡ true → s.owned_exit_code ≡ none → observed_run w s ≢ none
  unfolding observed_run
  live_child_runs c o e = ground arith

  live_child_alive :
      is_some s.child ≡ true
      → s.owned_exit_code ≡ none
      → (r : WatchdogRunObservation) → observed_run w s ≡ some r
      → r.alive ≡ true
  unfolding observed_run
  live_child_alive c o r e = ground arith

  exited_child_known :
      (code : ℕ)
      → s.owned_exit_code ≡ some code
      → (resolved_exit_code w s ≡ some code) × (exit_code_provenanced w s ≡ true)
  unfolding resolved_exit_code exit_code_provenanced
  exited_child_known code o = ground arith

  -- Once this invocation has spawned a child, no tick launches another.
  launch_is_first : decide (observation w s config) ≡ launch → s.child ≡ none
  unfolding observation
  launch_is_first e =
      let (_, run, _, code) = decide-launch (observation w s config) e in
      elim (Option-cases s.child) [
        | inl c ↦ c
        | inr (pid, c) ↦ absurd (elim (Option-cases s.owned_exit_code) [
          | inl o ↦ elim (Option-cases (observed_run w s)) [
            | inl n ↦ live_child_runs (ap is_some c) o n
            | inr (r, h) ↦ false≢true (sym (run r h) ∙ live_child_alive (ap is_some c) o r h)
          ]
          | inr (k, o) ↦ ground (arith, code, exited_child_known k o)
        ])
      ]

  perform-Accounted :
      (reply : Reply) (r : Option WatchdogRunObservation) (a : WatchdogAction)
      → Paid (observation w s config) a
      → (a ≡ launch → s.child ≡ none)
      → Accounted config.limits s
      → Leaves (Accounted config.limits) (perform config reply r a (remembered w s))
  unfolding perform observation remembered
  perform-Accounted reply r launch p f a = ground (arith, f refl)
  perform-Accounted reply r (attach pid) p f a = ground arith
  perform-Accounted reply r (wait_until t WaitCause.quota) p f a = ground arith
  perform-Accounted reply r (wait_until t WaitCause.overload) p f a = ground arith
  perform-Accounted reply r (relaunch RelaunchCause.quota m) p f a = ground arith
  perform-Accounted reply r (relaunch RelaunchCause.overload none) p f a = ground arith
  perform-Accounted reply r (relaunch RelaunchCause.overload (some m)) p f a = ground arith
  perform-Accounted reply r (relaunch RelaunchCause.crash m) p f a = ground arith
  perform-Accounted reply r (relaunch RelaunchCause.lock_free m) p f a = ground arith
  perform-Accounted reply r (stall x y z u) p f a = ground arith
  perform-Accounted reply r (exit x y z u) p f a = ground arith

  pub tick-Accounted :
      (reply : Reply)
      → Accounted config.limits s
      → Leaves (Accounted config.limits) (tick config w reply s)
  unfolding tick
  tick-Accounted reply a =
      perform-Accounted reply (observation w s config).run (decide (observation w s config))
        (decide-Paid (observation w s config)) launch_is_first a

Leaves-next :
    (P : LoopState → Type 0) (t : Outcome) (next : LoopState → Outcome)
    → Leaves P t
    → ((s : LoopState) → P s → Leaves P (next s))
    → Leaves P (elim t [ continues s ↦ next s | terminates u s ↦ terminates u s | throws ↦ throws ])
Leaves-next P (continues s) next h k = k s h
Leaves-next P (terminates u s) next h k = h
Leaves-next P throws next h k = tt

run-Accounted :
    (config : WatchdogConfig) (ticks : List (World × Reply)) (s : LoopState)
    → Accounted config.limits s
    → Leaves (Accounted config.limits) (run config ticks s)
unfolding run
run-Accounted config [] s a = a
run-Accounted config ((w, reply) ∷ ticks) s a =
    Leaves-next (Accounted config.limits) (tick config w reply s) (run config ticks)
      (tick-Accounted config w s reply a) (λ s' b. run-Accounted config ticks s' b)

init-Accounted : (config : WatchdogConfig) → Accounted config.limits (init_state config)
unfolding init_state
init-Accounted config = ground arith

spawn_bound :
    (limits : WatchdogLimits) (s : LoopState)
    → Accounted limits s
    → s.attempt
      ≤ limits.max_crash_relaunches + limits.max_quota_waits + limits.max_overload_backoffs + 3
spawn_bound limits s a = ground (arith, a)

-- Whatever is observed and in whatever order, one invocation starts at most
-- `maxCrashRelaunches + maxQuotaWaits + maxOverloadBackoffs + 3` runners: the first, the relaunches
-- that the three budgets pay for, one after a lock conflict and one with the fallback model.
pub run-spawns_bounded :
    (config : WatchdogConfig) (ticks : List (World × Reply))
    → Leaves
        (λ s.
          s.attempt
          ≤ config.limits.max_crash_relaunches + config.limits.max_quota_waits
            + config.limits.max_overload_backoffs + 3)
        (run config ticks (init_state config))
run-spawns_bounded config ticks =
    go (run config ticks (init_state config))
      (run-Accounted config ticks (init_state config) (init-Accounted config))
  where
    go :
        (t : Outcome)
        → Leaves (Accounted config.limits) t
        → Leaves
            (λ s.
              s.attempt
              ≤ config.limits.max_crash_relaunches + config.limits.max_quota_waits
                + config.limits.max_overload_backoffs + 3)
            t
    go (continues s) a = spawn_bound config.limits s a
    go (terminates u s) a = spawn_bound config.limits s a
    go throws a = tt
