-- ===== src/Interplay/Handled.antt =====
-- The supervisor's rows answer every reason that a watchdog publishes with `--follow`.
use tribe.Base.{
  ◌≡◌, refl, String, true, none, some, List, arith, All, All-includes, Option-cases, inl, inr,
}
use tribe.Watchdog.Model.{follow}
use tribe.Watchdog.Loop.{WatchdogConfig, World, Reply, init_state}
use tribe.Watchdog.Loop.Tick.{Outcome, continues, terminates, throws, run}
use tribe.Supervisor.Model.{
  ParkReason, EscalationFact, SupervisorObservation, SupervisorAction, park, exit,
}
use tribe.Supervisor.Decide.{
  next_unanswered, runner_done_row, judge_escalation, answer_escalation, escalations_row,
  retrigger_once, park_row, reason_row,
}
use tribe.Watchdog.Decide.Reasons.{follow_reasons, is_follow_reason}
use tribe.Interplay.Reasons.{EndsOn, run-EndsOn}

-- Not the park of row 23, by which the supervisor refuses a reason of `--once`.
abbrev pub Expected : SupervisorAction → Type 0
Expected (park ParkReason.unexpected_running recorded) = ⊥
Expected _ = Unit

-- A row before the backstop answers the reason, and as an expected one.
abbrev pub Handled : SupervisorObservation → String → Type 0
Handled o reason = (a : SupervisorAction) × (reason_row o reason ≡ some a) × Expected a

module _ (o : SupervisorObservation) where
  answer-Expected : (e : EscalationFact) → Expected (answer_escalation o e)
  unfolding answer_escalation judge_escalation
  answer-Expected e = ground arith

  escalations-Expected : Expected (escalations_row o)
  unfolding escalations_row
  escalations-Expected = elim (Option-cases (next_unanswered o.escalations)) [
    | inl h ↦ rw (h, escalations_row) tt
    | inr (e, h) ↦ rw (h, escalations_row) (answer-Expected e)
  ]

  done-Expected : Expected (runner_done_row o)
  unfolding runner_done_row
  done-Expected = ground arith

  incomplete-Expected :
      Expected (retrigger_once o "session_incomplete" ParkReason.session_incomplete)
  unfolding retrigger_once
  incomplete-Expected = ground arith

  All-Handled : All (Handled o) follow_reasons
  unfolding reason_row park_row
  All-Handled = (
    (runner_done_row o, refl, done-Expected),
    (
      (escalations_row o, refl, escalations-Expected),
      (
        (park ParkReason.error none, refl, tt),
        (
          (
            retrigger_once o "session_incomplete" ParkReason.session_incomplete,
            refl,
            incomplete-Expected,
          ),
          (
            (exit "stop_requested", refl, tt),
            (
              (park ParkReason.lock_conflict none, refl, tt),
              (
                (park ParkReason.quota_cap none, refl, tt),
                (
                  (park ParkReason.overloaded none, refl, tt),
                  (
                    (park ParkReason.stalled none, refl, tt),
                    ((park ParkReason.permanent_api_error none, refl, tt), tt),
                  ),
                ),
              ),
            ),
          ),
        ),
      ),
    ),
  )

  handled : (reason : String) → is_follow_reason reason ≡ true → Handled o reason
  unfolding is_follow_reason
  handled reason h = All-includes (Handled o) follow_reasons reason All-Handled h

-- A watchdog that runs with `--follow` never throws, and whatever reason it ends on, after any ticks,
-- a row of the supervisor's table before the backstop answers that reason, never with the park
-- `unexpected_running`, in whatever state the supervisor observes it.
pub run-Handled :
    (config : WatchdogConfig) (ticks : List (World × Reply)) (o : SupervisorObservation)
    → config.mode ≡ follow
    → EndsOn (Handled o) (run config ticks (init_state config))
run-Handled config ticks o m =
    reason_handled (run config ticks (init_state config))
      (run-EndsOn config m ticks (init_state config))
  where
    reason_handled :
        (t : Outcome) → EndsOn (λ r. is_follow_reason r ≡ true) t → EndsOn (Handled o) t
    reason_handled (continues s) h = tt
    reason_handled (terminates t s) h = handled o t.reason h
    reason_handled throws h = h
