-- ===== src/Watchdog/Decide/Reasons.antt =====
-- The reasons that the table answers with `--follow`.
use tribe.Base.{◌≡◌, refl, String, Bool, true, List, [], ◌∷◌, arith, includes, All}
use tribe.Watchdog.Model.{WatchdogObservation, WatchdogAction, stall, exit, follow}
use tribe.Watchdog.Decide.{
  live_run, terminal_outcome, lock_refused, permanent_error, quota_signal, overload_signal,
  crash_relaunch, recoverable_death, nothing_yet, decide,
}
use tribe.Watchdog.Decide.Cases.{Answers, recoverable_death-Answers, decide_cases}

abbrev pub follow_reasons : List String
follow_reasons =
    "runner_done" ∷ "escalations_pending" ∷ "error" ∷ "session_incomplete" ∷ "stop_requested"
    ∷ "lock_conflict" ∷ "quota_cap" ∷ "overloaded" ∷ "stalled" ∷ "permanent_api_error" ∷ []

unfoldable pub is_follow_reason : String → Bool
is_follow_reason reason = includes follow_reasons reason

abbrev pub Follows : WatchdogObservation → WatchdogAction → Type 0
Follows o (exit status reason wake code) = o.mode ≡ follow → is_follow_reason reason ≡ true
Follows o (stall log mtime status reason) = o.mode ≡ follow → is_follow_reason reason ≡ true
Follows o _ = Unit

listed : All (λ reason. is_follow_reason reason ≡ true) follow_reasons
unfolding is_follow_reason
listed = (refl, (refl, (refl, (refl, (refl, (refl, (refl, (refl, (refl, (refl, tt))))))))))

module _ (o : WatchdogObservation) where
  Follows-death : Answers (Follows o) (recoverable_death o)
  unfolding permanent_error quota_signal overload_signal crash_relaunch
  Follows-death =
      recoverable_death-Answers (Follows o) o (ground (arith, listed)) (ground (arith, listed))
        (ground (arith, listed)) (ground (arith, listed))

  pub decide-Follows : Follows o (decide o)
  unfolding live_run terminal_outcome lock_refused nothing_yet
  decide-Follows =
      decide_cases (Follows o) o (ground (arith, listed)) (ground (arith, listed))
        (ground (arith, listed)) Follows-death (ground (arith, listed))
