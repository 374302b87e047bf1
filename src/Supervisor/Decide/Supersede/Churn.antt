-- ===== src/Supervisor/Decide/Supersede/Churn.antt =====
-- When superseding a park leads back to it (supervisor/decide.ts and truth.ts).
use tribe.Base.{
  ℕ, ◌≡◌, ap, ◌∙◌, String, true, false, Option, none, some, arith, inl, inr, Option-cases,
  str_eq_iff,
}
use tribe.Supervisor.Model.{ParkReason, LastWatchdog, SupervisorObservation, supersede_park}
use tribe.Supervisor.Truth.{
  run_finalised, terminal_contradiction, park_still_holds, terminal_reason_for_run_reason,
}
use tribe.Supervisor.Decide.{
  effective_reason, stale_terminal_row, main_rows, decide, reason_under, terminal_reason,
  first_reason,
}
use tribe.Supervisor.Entry.{
  pre_loop, unresolved_park, owner_resume, post_session, park_for, process_alive, recorded_reason,
}
use tribe.Supervisor.Decide.Supersede.{
  after_supersede, same_contradiction, finalised_effective, stale_row_passed,
}

-- What the park was about, and a finished run whose reason the table does not know.
pub record Unexplained (o : SupervisorObservation) : Type 0 where
  pub parked : recorded_reason o.parked_terminal ≡ some "stalled"
  pub present : o.needs_owner_present ≡ true
  pub alone : process_alive o.supervisor_lock ≡ false
  pub not_stopped : o.stop_file_present ≡ false
  pub no_watchdog : o.watchdog_live ≡ none
  pub not_acknowledged : o.acknowledged_park ≡ none
  pub no_session : o.last_session_outcome ≡ none
  pub finalised :
      (id : String) × (code : ℕ) × (r : Option String) × (terminal_contradiction o
        ≡ some (run_finalised id code r))
      × (terminal_reason_for_run_reason r ≡ none)
  pub terminal :
      (w : LastWatchdog) × (o.last_watchdog ≡ some w) × (terminal_reason w ≡ some "stalled")

module _ (o : SupervisorObservation) (u : Unexplained o) where
  unexplained_falsified : park_still_holds o ≡ false
  unfolding park_still_holds
  unexplained_falsified = elim (Option-cases o.parked_terminal) [
    | inl n ↦ absurd (ground (arith, n, u.parked))
    | inr (p, e) ↦
        let named : p.reason ≡ "stalled" = ground (arith, e, u.parked) in
        let (id, code, r, c, _) = u.finalised in
        ground (arith, e, (str_eq_iff p.reason "stalled").1 named, c)
  ]

  unexplained_superseded : decide o ≡ supersede_park "stalled"
  unfolding decide post_session pre_loop unresolved_park
  unexplained_superseded = ground (
    arith,
    u.no_session,
    u.alone,
    u.present,
    u.parked,
    unexplained_falsified,
    Option-cases o.parked_terminal,
  )

  quiet_pre_loop : pre_loop (after_supersede o) ≡ none
  unfolding pre_loop owner_resume after_supersede
  quiet_pre_loop = ground (arith, u.alone, u.not_stopped, u.no_watchdog, u.not_acknowledged)

  still_stalled :
      (w : LastWatchdog)
      → terminal_reason w ≡ some "stalled"
      → effective_reason (after_supersede o) w ≡ some "stalled"
  still_stalled w t =
      let (id, code, r, c, n) = u.finalised in
      finalised_effective (after_supersede o) w id code r (same_contradiction o ∙ c)
      ∙ ap (reason_under (after_supersede o) (some (run_finalised id code r))) t
      ∙ ap (λ q. first_reason q (some "stalled")) n

  stale_quiet : stale_terminal_row (after_supersede o) ≡ none
  stale_quiet =
      let (id, code, r, c, n) = u.finalised in
      stale_row_passed (after_supersede o) id code r (same_contradiction o ∙ c)

  unexplained_main :
      (w : LastWatchdog)
      → terminal_reason w ≡ some "stalled"
      → main_rows (after_supersede o) (some w) ≡ park_for ParkReason.stalled
  unfolding main_rows
  unexplained_main w t = rw (stale_quiet, still_stalled w t)

  unexplained_parked : decide (after_supersede o) ≡ park_for ParkReason.stalled
  unfolding decide after_supersede post_session
  unexplained_parked =
      let (w, e, t) = u.terminal in
      rw quiet_pre_loop (ap (main_rows (after_supersede o)) e ∙ unexplained_main w t)

-- Let a park recorded as `stalled` be there that the owner has not taken away, the watchdog's terminal
-- be `stalled`, and the runs on disk contradict it with a finished run of a reason that the table does
-- not know (`null` among them). If then no other supervisor and no watchdog is alive, there is no STOP
-- file, no acknowledged park and no outcome of a session, the park is superseded and the next decision
-- on the same disk makes it again.
pub superseded_parked_again :
    (o : SupervisorObservation)
    → Unexplained o
    → (decide o ≡ supersede_park "stalled")
      × (decide (after_supersede o) ≡ park_for ParkReason.stalled)
superseded_parked_again o u = (unexplained_superseded o u, unexplained_parked o u)
