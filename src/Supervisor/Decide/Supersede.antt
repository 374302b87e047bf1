-- ===== src/Supervisor/Decide/Supersede.antt =====
-- What follows when a park is superseded: the next decision on the same disk.
pub mod Churn
use tribe.Base.{
  ℕ, ◌≡◌, ◌≢◌, refl, sym, ap, ◌∙◌, String, Bool, true, false, subst, if◌then◌else◌, Option, none,
  some, arith, inl, inr, ◌⊎◌, Option-cases, Bool-cases, str_eq, str_eq_iff, and_left,
}
use mathlib.Core.Bool.{false≢true}
use tribe.Supervisor.Model.{
  ParkReason, EscalationFact, LastWatchdog, SupervisorObservation, SupervisorAction, Retrigger,
  run_watchdog, park,
}
use tribe.Supervisor.Truth.{
  TerminalContradiction, newer_run_alive, run_finalised, terminal_contradiction,
  terminal_reason_for_run_reason, stale_terminal_retrigger_available,
}
use tribe.Supervisor.Decide.{
  escalations_row, runner_done_row, retrigger_once, park_row, reason_row, reason_rows, backstop,
  effective_reason, stale_terminal_row, main_rows, decide, reason_under, terminal_reason,
  own_run_verdict, opt_is, is_once_only, answer_escalation, next_unanswered,
}
use tribe.Supervisor.Entry.{pre_loop, unresolved_park, owner_resume, post_session}
use tribe.Supervisor.Decide.Cases.{
  Answers, if_Answers, if_split, next_Answers, reason_cases, main_cases,
}

-- The loop's `supersede_park` case: `NEEDS_OWNER.md` is renamed and the next tick observes a home
-- without a park; the rest of the disk is taken to be the same.
unfoldable pub after_supersede : SupervisorObservation → SupervisorObservation
after_supersede o = record o {
  needs_owner_present = false;
  parked_terminal = none;
  last_session_outcome = none;
}

abbrev pub IsStalledPark : SupervisorAction → Type 0
IsStalledPark (park ParkReason.stalled recorded) = Unit
IsStalledPark _ = ⊥

abbrev NotStalled : SupervisorAction → Type 0
NotStalled a = ¬ IsStalledPark a

-- The contradiction gives the next decision something else to go on than `stalled`: a run that is
-- alive may be attached to, or a finished run has a reason that the table knows.
abbrev pub Informative : SupervisorObservation → Option TerminalContradiction → Type 0
Informative o none = ⊥
Informative o (some (newer_run_alive id)) = stale_terminal_retrigger_available o ≡ true
Informative o (some (run_finalised id code reason)) = terminal_reason_for_run_reason reason ≢ none

abbrev OtherReason : Option String → Type 0
OtherReason none = Unit
OtherReason (some s) = str_eq s "stalled" ≡ false

if_OtherReason :
    (b : Bool) (x y : Option String)
    → OtherReason x
    → OtherReason y
    → OtherReason (if b then x else y)
if_OtherReason true x y h k = h
if_OtherReason false x y h k = k

translated-OtherReason : (r : Option String) → OtherReason (terminal_reason_for_run_reason r)
unfolding terminal_reason_for_run_reason
translated-OtherReason none = tt
translated-OtherReason (some r) = if_OtherReason (str_eq r "done") _ _ refl (
    if_OtherReason (str_eq r "stop_requested") _ _ refl (
      if_OtherReason (str_eq r "escalations_pending") _ _ refl (
        if_OtherReason (str_eq r "session_incomplete") _ _ refl
          (if_OtherReason (str_eq r "error") _ _ refl tt))))

permanent-OtherReason :
    (reason : Option String) → opt_is reason "permanent_api_error" ≡ true → OtherReason reason
permanent-OtherReason none h = tt
permanent-OtherReason (some s) h =
    subst (λ t. str_eq t "stalled" ≡ false) (sym ((str_eq_iff s "permanent_api_error").0 h)) refl

module _ (o : SupervisorObservation) where
  answer-NotStalled : (e : EscalationFact) → NotStalled (answer_escalation o e)
  unfolding answer_escalation
  answer-NotStalled e = ground arith

  escalations-NotStalled : NotStalled (escalations_row o)
  unfolding escalations_row
  escalations-NotStalled = elim (Option-cases (next_unanswered o.escalations)) [
    | inl h ↦ rw (h, escalations_row) (λ x. x)
    | inr (e, h) ↦ rw (h, escalations_row) (answer-NotStalled e)
  ]

  park_row-NotStalled :
      (reason : String) → str_eq reason "stalled" ≡ false → Answers NotStalled (park_row reason)
  unfolding park_row
  park_row-NotStalled reason h =
      if_Answers NotStalled (str_eq reason "quota_cap") _ _ (λ x. x)
        (if_Answers NotStalled (str_eq reason "overloaded") _ _ (λ x. x)
          (if_split NotStalled (str_eq reason "stalled") _ _ (λ t. absurd (false≢true (sym h ∙ t)))
            (λ _.
              if_Answers NotStalled (str_eq reason "lock_conflict") _ _ (λ x. x)
                (if_Answers NotStalled (str_eq reason "error") _ _ (λ x. x)
                  (if_Answers NotStalled (str_eq reason "permanent_api_error") _ _ (λ x. x)
                    (if_Answers NotStalled (is_once_only reason) _ _ (λ x. x) tt))))))

  reason-NotStalled :
      (reason : String) → str_eq reason "stalled" ≡ false → Answers NotStalled (reason_row o reason)
  unfolding runner_done_row retrigger_once
  reason-NotStalled reason h =
      reason_cases NotStalled o reason (ground arith) (λ x. x) escalations-NotStalled (ground arith)
        (park_row-NotStalled reason h)

  backstop-NotStalled : (w : LastWatchdog) → NotStalled (backstop o w)
  unfolding backstop
  backstop-NotStalled w = ground arith

  pre_loop-NotStalled : Answers NotStalled (pre_loop o)
  unfolding pre_loop unresolved_park owner_resume
  pre_loop-NotStalled = ground arith

  rows-NotStalled :
      (reason : Option String) → OtherReason reason → Answers NotStalled (reason_rows o reason)
  rows-NotStalled none h = tt
  rows-NotStalled (some reason) h = reason-NotStalled reason h

  -- The reason that a finished run of a known reason leaves is not `stalled`.
  finalised-OtherReason :
      (id : String) (code : ℕ) (r reason : Option String)
      → terminal_reason_for_run_reason r ≢ none
      → OtherReason (reason_under o (some (run_finalised id code r)) reason)
  finalised-OtherReason id code r reason h = elim (Bool-cases (own_run_verdict o reason id)) [
    | inl t ↦ rw t (permanent-OtherReason reason (and_left _ _ t))
    | inr f ↦ elim (Option-cases (terminal_reason_for_run_reason r)) [
      | inl n ↦ absurd (h n)
      | inr (s, e) ↦ rw (f, e) (subst OtherReason e (translated-OtherReason r))
    ]
  ]

  stale_row_taken :
      (id : String)
      → terminal_contradiction o ≡ some (newer_run_alive id)
      → stale_terminal_retrigger_available o ≡ true
      → stale_terminal_row o ≡ some (run_watchdog none false (some Retrigger.stale_terminal))
  unfolding stale_terminal_row
  stale_row_taken id e a = rw e (rw a)

  stale_row_passed :
      (id : String) (code : ℕ) (r : Option String)
      → terminal_contradiction o ≡ some (run_finalised id code r)
      → stale_terminal_row o ≡ none
  unfolding stale_terminal_row
  stale_row_passed id code r e = rw e

  finalised_effective :
      (w : LastWatchdog) (id : String) (code : ℕ) (r : Option String)
      → terminal_contradiction o ≡ some (run_finalised id code r)
      → effective_reason o w ≡ reason_under o (some (run_finalised id code r)) (terminal_reason w)
  unfolding effective_reason
  finalised_effective w id code r e = ap (λ c. reason_under o c (terminal_reason w)) e

  main-NotStalled :
      (w : LastWatchdog) (c : Option TerminalContradiction)
      → terminal_contradiction o ≡ c
      → Informative o c
      → NotStalled (main_rows o (some w))
  unfolding main_rows
  main-NotStalled w none e i = absurd i
  main-NotStalled w (some (newer_run_alive id)) e i = rw (stale_row_taken id e i) (λ x. x)
  main-NotStalled w (some (run_finalised id code r)) e i =
      main_cases NotStalled o w (subst (Answers NotStalled) (sym (stale_row_passed id code r e)) tt)
        (rows-NotStalled (effective_reason o w) (
          subst OtherReason (sym (finalised_effective w id code r e))
            (finalised-OtherReason id code r (terminal_reason w) i)))
        (backstop-NotStalled w)

main_any-NotStalled :
    (o : SupervisorObservation) (w : Option LastWatchdog)
    → Informative o (terminal_contradiction o)
    → NotStalled (main_rows o w)
unfolding main_rows
main_any-NotStalled o none h = λ x. x
main_any-NotStalled o (some w) h = main-NotStalled o w (terminal_contradiction o) refl h

post_none :
    (o : SupervisorObservation)
    → o.last_session_outcome ≡ none
    → Answers NotStalled (post_session o o.last_session_outcome)
unfolding post_session
post_none o h = ground arith

same_contradiction :
    (o : SupervisorObservation)
    → terminal_contradiction (after_supersede o) ≡ terminal_contradiction o
unfolding after_supersede terminal_contradiction
same_contradiction o = refl

Informative-after :
    (o : SupervisorObservation) (c : Option TerminalContradiction)
    → Informative o c
    → Informative (after_supersede o) c
unfolding after_supersede stale_terminal_retrigger_available
Informative-after o none h = h
Informative-after o (some (newer_run_alive id)) h = h
Informative-after o (some (run_finalised id code r)) h = h

Informative-after_supersede :
    (o : SupervisorObservation)
    → Informative o (terminal_contradiction o)
    → Informative (after_supersede o) (terminal_contradiction (after_supersede o))
Informative-after_supersede o h =
    Informative-after o _ (subst (Informative o) (sym (same_contradiction o)) h)

-- A park that is superseded is not made again: on the same disk without the park, the next decision
-- is not a `stalled` park, provided that the contradiction is a live run that may still be attached
-- to or a finished run whose reason the table knows.
pub superseded_not_parked_again :
    (o : SupervisorObservation)
    → Informative o (terminal_contradiction o)
    → ¬ IsStalledPark (decide (after_supersede o))
unfolding decide after_supersede
superseded_not_parked_again o h =
    next_Answers NotStalled (post_session (after_supersede o) none)
      (post_none (after_supersede o) refl)
      (next_Answers NotStalled (pre_loop (after_supersede o))
        (pre_loop-NotStalled (after_supersede o))
        (main_any-NotStalled (after_supersede o) o.last_watchdog (Informative-after_supersede o h)))
