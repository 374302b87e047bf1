-- ===== src/Watchdog/Decide/Budget.antt =====
-- Every retry is paid for from a bounded budget, and every ordered wait is bounded.
use tribe.Base.{ℕ, zero, suc, String, ◌+◌, ◌<◌, ◌≤◌, ◌≡◌, Option, none, some, arith, true, false}
use tribe.Watchdog.Model.{
  WatchdogObservation, WatchdogAction, WaitCause, RelaunchCause, wait_until, relaunch,
}
use tribe.Watchdog.Decide.{
  live_run, terminal_outcome, lock_refused, permanent_error, quota_signal, overload_signal,
  crash_relaunch, recoverable_death, nothing_yet, decide, provenanced, served, max_quota_wait_ms,
  overload_backoff_seconds,
}
use tribe.Watchdog.Decide.Cases.{Answers, recoverable_death-Answers, decide_cases}

-- What a relaunch needs, by its cause.
abbrev pub PaidRelaunch : WatchdogObservation → RelaunchCause → Option String → Type 0
PaidRelaunch o RelaunchCause.crash model =
    (o.counters.crash_relaunches < o.limits.max_crash_relaunches)
    × (provenanced o ≡ true)
    × (model ≡ none)
PaidRelaunch o RelaunchCause.lock_free model =
    (o.counters.lock_relaunches ≡ 0) × (provenanced o ≡ true) × (model ≡ none)
PaidRelaunch o RelaunchCause.quota model =
    (served WaitCause.quota o.now_ms o.pending_wait ≡ true) × (model ≡ none)
PaidRelaunch o RelaunchCause.overload none =
    served WaitCause.overload o.now_ms o.pending_wait ≡ true
PaidRelaunch o RelaunchCause.overload (some model) =
    (o.counters.fallback_used ≡ false)
    × (o.fallback_model ≡ some model)
    × (o.limits.max_overload_backoffs ≤ o.counters.overload_backoffs)

abbrev pub PaidWait : WatchdogObservation → WaitCause → Type 0
PaidWait o WaitCause.quota = o.counters.quota_waits < o.limits.max_quota_waits
PaidWait o WaitCause.overload = o.counters.overload_backoffs < o.limits.max_overload_backoffs

-- A retry has budget left; a wait has budget left and ends in the future, within a week.
abbrev pub Paid : WatchdogObservation → WatchdogAction → Type 0
Paid o (relaunch cause model) = PaidRelaunch o cause model
Paid o (wait_until until_ms cause) =
    PaidWait o cause × (o.now_ms < until_ms) × (until_ms ≤ o.now_ms + max_quota_wait_ms)
Paid o _ = Unit

overload_backoff_seconds_bounds :
    (n : ℕ) → (30 ≤ overload_backoff_seconds n) × (overload_backoff_seconds n ≤ 480)
unfolding overload_backoff_seconds
overload_backoff_seconds_bounds zero = omega arith
overload_backoff_seconds_bounds (suc zero) = omega arith
overload_backoff_seconds_bounds (suc (suc zero)) = omega arith
overload_backoff_seconds_bounds (suc (suc (suc zero))) = omega arith
overload_backoff_seconds_bounds (suc (suc (suc (suc n)))) = omega arith

module _ (o : WatchdogObservation) where
  Paid-overload : Answers (Paid o) (overload_signal o)
  unfolding overload_signal
  Paid-overload = ground (arith, overload_backoff_seconds_bounds o.counters.overload_backoffs)

  Paid-death : Answers (Paid o) (recoverable_death o)
  unfolding permanent_error quota_signal crash_relaunch
  Paid-death =
      recoverable_death-Answers (Paid o) o (ground arith) (ground arith) Paid-overload
        (ground arith)

  -- A crash or lock relaunch has its own budget left and is made on an event that this invocation
  -- saw; a quota relaunch, and an overload relaunch of the same model, follow a wait that has been
  -- served; the fallback model is used once, after the overload budget. A wait has its budget left
  -- and ends after now and at most a week later.
  pub decide-Paid : Paid o (decide o)
  unfolding live_run terminal_outcome lock_refused nothing_yet
  decide-Paid =
      decide_cases (Paid o) o (ground arith) (ground arith) (ground arith) Paid-death (ground arith)
