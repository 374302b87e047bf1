-- ===== src/Supervisor/Decide/Spawns.antt =====
-- When the supervisor spawns a session.
use tribe.Base.{
  ◌<◌, ◌≤◌, ◌≡◌, String, true, false, Option, none, some, arith, inl, inr, Option-cases, includes,
  find, str_eq, ◌⊎◌,
}
use tribe.Supervisor.Model.{
  ParkReason, ruling, closing, EscalationFact, SessionOutcome, SessionVerdict, LastWatchdog,
  SupervisorObservation, SupervisorAction, run_watchdog, await_watchdog, spawn_session,
  archive_escalation, park, supersede_park, exit,
}
use tribe.Supervisor.Truth.{retriggers_of}
use tribe.Supervisor.State.{rounds_of, seen_of}
use tribe.Supervisor.Decide.{
  next_unanswered, answer_escalation, escalations_row, runner_done_row, retrigger_once, park_row,
  reason_row, reason_rows, backstop, effective_reason, stale_terminal_row, main_rows, decide,
}
use tribe.Supervisor.Entry.{
  pre_loop, unresolved_park, owner_resume, post_session, retry_key, park_for, failed_park,
}
use tribe.Supervisor.Decide.Cases.{Answers, next_Answers, park_cases, reason_cases, main_cases}

-- An escalation that a ruling session may be spawned for.
pub record MayRule (o : SupervisorObservation) (e : EscalationFact) : Type 0 where
  pub unlanded : e.landed_ruling_id ≡ none
  pub unmarked : find (λ m. str_eq m.card_id e.card_id) o.park_markers ≡ none
  pub not_owner_only : includes o.owner_only_escalations e.reason ≡ false
  pub not_ruled_before : includes (seen_of o.state e.card_id) e.content_sha256 ≡ false
  pub rounds_left : rounds_of o.state e.card_id < o.limits.max_ruling_rounds
  pub spawns_left : o.state.spawns < o.limits.max_spawns

-- What the rows owe for a session that they spawn.
abbrev pub Justified : SupervisorObservation → SupervisorAction → Type 0
Justified o (spawn_session ruling card_id) =
    (e : EscalationFact) × (next_unanswered o.escalations ≡ some e)
    × (card_id ≡ some e.card_id)
    × MayRule o e
Justified o (spawn_session closing card_id) =
    (card_id ≡ none)
    × (o.verify_shipped_plugin_available ≡ true)
    × (o.state.closing_verified ≡ false)
Justified o _ = Unit

abbrev pub NoSession : SupervisorAction → Type 0
NoSession (spawn_session _ _) = ⊥
NoSession _ = Unit

module _ (o : SupervisorObservation) where
  NoSession-Justified : (a : SupervisorAction) → NoSession a → Justified o a
  NoSession-Justified (run_watchdog x y z) h = tt
  NoSession-Justified (await_watchdog x) h = tt
  NoSession-Justified (spawn_session x y) h = absurd h
  NoSession-Justified (archive_escalation x y) h = tt
  NoSession-Justified (park x y) h = tt
  NoSession-Justified (supersede_park x) h = tt
  NoSession-Justified (exit x) h = tt

  abbrev SpawnsFor : EscalationFact → SupervisorAction → Type 0
  SpawnsFor e (spawn_session ruling card_id) = (card_id ≡ some e.card_id) × MayRule o e
  SpawnsFor e (spawn_session closing card_id) = ⊥
  SpawnsFor e _ = Unit

  SpawnsFor-Justified :
      (e : EscalationFact) (a : SupervisorAction)
      → next_unanswered o.escalations ≡ some e
      → SpawnsFor e a
      → Justified o a
  SpawnsFor-Justified e (spawn_session ruling c) h k = (e, h, k.0, k.1)
  SpawnsFor-Justified e (spawn_session closing c) h k = absurd k
  SpawnsFor-Justified e (run_watchdog x y z) h k = tt
  SpawnsFor-Justified e (await_watchdog x) h k = tt
  SpawnsFor-Justified e (archive_escalation x y) h k = tt
  SpawnsFor-Justified e (park x y) h k = tt
  SpawnsFor-Justified e (supersede_park x) h k = tt
  SpawnsFor-Justified e (exit x) h k = tt

  answer_lem : (e : EscalationFact) → SpawnsFor e (answer_escalation o e)
  unfolding answer_escalation
  answer_lem e = ground arith

  escalations-Justified : Justified o (escalations_row o)
  unfolding escalations_row
  escalations-Justified = elim (Option-cases (next_unanswered o.escalations)) [
    | inl h ↦ rw (h, escalations_row) tt
    | inr (e, h) ↦
        rw (h, escalations_row) (SpawnsFor-Justified e (answer_escalation o e) h (answer_lem e))
  ]

  done-Justified : Justified o (runner_done_row o)
  unfolding runner_done_row
  done-Justified = ground arith

  retrigger-NoSession : (key : String) (r : ParkReason) → NoSession (retrigger_once o key r)
  unfolding retrigger_once
  retrigger-NoSession key r = ground arith

  park_row-Justified : (reason : String) → Answers (Justified o) (park_row reason)
  park_row-Justified reason = park_cases (Justified o) reason (λ r. tt)

  reason-Justified : (reason : String) → Answers (Justified o) (reason_row o reason)
  reason-Justified reason =
      reason_cases (Justified o) o reason done-Justified tt escalations-Justified
        (NoSession-Justified _
          (retrigger-NoSession "session_incomplete" ParkReason.session_incomplete))
        (park_row-Justified reason)

  reasons-Justified : (reason : Option String) → Answers (Justified o) (reason_rows o reason)
  reasons-Justified none = tt
  reasons-Justified (some reason) = reason-Justified reason

  backstop-NoSession : (w : LastWatchdog) → NoSession (backstop o w)
  unfolding backstop
  backstop-NoSession w = ground arith

  stale-NoSession : Answers (Justified o) (stale_terminal_row o)
  unfolding stale_terminal_row
  stale-NoSession = ground arith

  main-Justified : (w : Option LastWatchdog) → Justified o (main_rows o w)
  unfolding main_rows
  main-Justified none = tt
  main-Justified (some w) =
      main_cases (Justified o) o w stale-NoSession (reasons-Justified (effective_reason o w))
        (NoSession-Justified (backstop o w) (backstop-NoSession w))

  pre_loop-Justified : Answers (Justified o) (pre_loop o)
  unfolding pre_loop unresolved_park owner_resume
  pre_loop-Justified = ground arith

  post_none :
      o.last_session_outcome ≡ none → Answers (Justified o) (post_session o o.last_session_outcome)
  unfolding post_session
  post_none h = ground arith

  -- Where no session has just returned, a spawned session is justified: a ruling is for the first
  -- unanswered escalation, which has no landed ruling and no park marker, is not the owner's, has a
  -- body not ruled before, and has rounds and spawns left; a closing needs the verify-shipped plugin
  -- and a campaign that is not verified as closed.
  pub decide-Justified : o.last_session_outcome ≡ none → Justified o (decide o)
  unfolding decide
  decide-Justified h =
      next_Answers (Justified o) (post_session o o.last_session_outcome) (post_none h) (
        next_Answers (Justified o) (pre_loop o) pre_loop-Justified (main-Justified o.last_watchdog))

  -- After a session that failed or timed out the answer is one more session of the same kind for
  -- the same card while that session's retries are below `sessionRetries`, and the park of its kind
  -- from then on, whatever else was observed.
  pub decide-retry :
      (s : SessionOutcome)
      → o.last_session_outcome ≡ some s
      → (s.outcome ≡ SessionVerdict.failed) ⊎ (s.outcome ≡ SessionVerdict.timeout)
      → ((retriggers_of o.state (retry_key s.kind s.card_id) < o.limits.session_retries)
          × (decide o ≡ spawn_session s.kind s.card_id))
        ⊎ ((o.limits.session_retries ≤ retriggers_of o.state (retry_key s.kind s.card_id))
            × (decide o ≡ park_for (failed_park s.kind)))
  unfolding decide post_session
  decide-retry s h f = ground arith
