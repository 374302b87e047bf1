-- ===== src/Supervisor/Decide/Parks.antt =====
-- When the supervisor drops a park that the disk has falsified.
use tribe.Base.{
  ◌≡◌, refl, String, true, false, Option, none, some, arith, inl, inr, Option-cases, Bool-cases,
  str_eq, str_eq_iff,
}
use tribe.Supervisor.Model.{
  LastWatchdog, RecordedPark, SupervisorObservation, SupervisorAction, run_watchdog, await_watchdog,
  spawn_session, archive_escalation, park, supersede_park, exit,
}
use tribe.Supervisor.Truth.{terminal_contradiction, contradicted, park_still_holds}
use tribe.Supervisor.Decide.{
  escalations_row, runner_done_row, retrigger_once, reason_rows, backstop, effective_reason,
  stale_terminal_row, main_rows, decide,
}
use tribe.Supervisor.Entry.{
  pre_loop, unresolved_park, owner_resume, is_watchdog_terminal_park, post_session, process_alive,
  recorded_reason,
}
use tribe.Supervisor.Decide.Cases.{Answers, next_Answers, park_cases, reason_cases, main_cases}

abbrev pub NoSupersede : SupervisorAction → Type 0
NoSupersede (supersede_park _) = ⊥
NoSupersede _ = Unit

-- A predicate on what may be superseded.
abbrev pub Superseding : SupervisorObservation → SupervisorAction → Type 0
Superseding o (supersede_park reason) =
    (reason ≡ "stalled")
    × (o.needs_owner_present ≡ true)
    × (process_alive o.supervisor_lock ≡ false)
    × (contradicted o (terminal_contradiction o) ≡ true)
Superseding o _ = Unit

module _ (o : SupervisorObservation) where
  falsified :
      park_still_holds o ≡ false
      → (recorded_reason o.parked_terminal ≡ some "stalled")
        × (contradicted o (terminal_contradiction o) ≡ true)
  unfolding park_still_holds
  falsified h = elim (Option-cases o.parked_terminal) [
    | inl e ↦ ground (arith, e)
    | inr (p, e) ↦ elim (Bool-cases (str_eq p.reason "stalled")) [
      | inl s ↦ let q = (str_eq_iff p.reason "stalled").0 s in ground (arith, e, q)
      | inr s ↦ ground (arith, e, s)
    ]
  ]

  escalations-NoSupersede : NoSupersede (escalations_row o)
  unfolding escalations_row
  escalations-NoSupersede = ground arith

  reasons-NoSupersede : (reason : Option String) → Answers NoSupersede (reason_rows o reason)
  unfolding runner_done_row retrigger_once
  reasons-NoSupersede none = tt
  reasons-NoSupersede (some reason) =
      reason_cases NoSupersede o reason (ground arith) tt escalations-NoSupersede (ground arith)
        (park_cases NoSupersede reason (λ r. tt))

  main-NoSupersede : (w : Option LastWatchdog) → NoSupersede (main_rows o w)
  unfolding main_rows stale_terminal_row backstop
  main-NoSupersede none = tt
  main-NoSupersede (some w) =
      main_cases NoSupersede o w (ground arith) (reasons-NoSupersede (effective_reason o w))
        (ground arith)

  NoSupersede-Superseding : (a : SupervisorAction) → NoSupersede a → Superseding o a
  NoSupersede-Superseding (supersede_park x) h = absurd h
  NoSupersede-Superseding (run_watchdog x y z) h = tt
  NoSupersede-Superseding (await_watchdog x) h = tt
  NoSupersede-Superseding (spawn_session x y) h = tt
  NoSupersede-Superseding (archive_escalation x y) h = tt
  NoSupersede-Superseding (park x y) h = tt
  NoSupersede-Superseding (exit x) h = tt

  unresolved-Superseding :
      o.needs_owner_present ≡ true
      → process_alive o.supervisor_lock ≡ false
      → Superseding o (unresolved_park o)
  unfolding unresolved_park
  unresolved-Superseding n l = elim (Bool-cases (park_still_holds o)) [
    | inl h ↦ rw (h, unresolved_park) tt
    | inr h ↦ rw (h, unresolved_park) (let (r, c) = falsified h in (rw r refl, n, l, c))
  ]

  owner_resume-Superseding : (p : Option RecordedPark) → Answers (Superseding o) (owner_resume o p)
  unfolding owner_resume
  owner_resume-Superseding none = tt
  owner_resume-Superseding (some p) = elim (Bool-cases (is_watchdog_terminal_park p.reason)) [
    | inl h ↦ ground (arith, h)
    | inr h ↦ ground (arith, h)
  ]

  pre_loop-Superseding : Answers (Superseding o) (pre_loop o)
  unfolding pre_loop
  pre_loop-Superseding =
      ground (arith, unresolved-Superseding, owner_resume-Superseding o.acknowledged_park)

  post-Superseding : Answers (Superseding o) (post_session o o.last_session_outcome)
  unfolding post_session
  post-Superseding = ground arith

  -- A park is superseded only if it is there, was recorded as `stalled`, no other supervisor is
  -- alive, and the runs on disk contradict the terminal in a way that leaves a remedy.
  pub decide-Superseding : Superseding o (decide o)
  unfolding decide
  decide-Superseding =
      next_Answers (Superseding o) (post_session o o.last_session_outcome) post-Superseding (
        next_Answers (Superseding o) (pre_loop o) pre_loop-Superseding (
          NoSupersede-Superseding (main_rows o o.last_watchdog) (main-NoSupersede o.last_watchdog)))
