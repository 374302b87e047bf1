-- ===== src/Supervisor/Loop/Budget.antt =====
-- The counters follow the actions.
use tribe.Base.{
  ℕ, ◌+◌, ◌≤◌, ◌<◌, ◌≡◌, ◌⊎◌, refl, ap, ◌∙◌, List, String, Bool, true, false, Option, none, some,
  arith, inl, inr, is_some, get_or, lookup, str_eq_self,
}
use tribe.Supervisor.Model.{
  SessionKind, ruling, closing, LastWatchdog, SessionOutcome, SessionVerdict, SupervisorState,
  SupervisorObservation, SupervisorAction, run_watchdog, await_watchdog, spawn_session,
  archive_escalation, park, supersede_park, exit, ParkReason,
}
use tribe.Supervisor.Truth.{retriggers_of}
use tribe.Supervisor.State.{apply_ruling_outcome, clear_watchdog_retriggers}
use tribe.Supervisor.Decide.Spawns.{decide-retry}
use tribe.Supervisor.Decide.{
  effective_reason, stale_terminal_row, main_rows, decide, retrigger_once, terminal_reason,
}
use tribe.Supervisor.Entry.{failed_park, retry_key, park_for}
use tribe.Supervisor.Loop.{
  increment_retrigger, credit_terminal, count_ruling, count_spawn, carry_out,
}

abbrev pub runs_by : SupervisorAction → ℕ
runs_by (run_watchdog _ _ _) = 1
runs_by _ = 0

abbrev pub spawns_by : SupervisorAction → ℕ
spawns_by (spawn_session _ _) = 1
spawns_by _ = 0

-- Each watchdog run and each session is counted once, by the action that starts it, and by no other.
pub carry_out_counts :
    (o : SupervisorObservation) (a : SupervisorAction)
    → ((carry_out o a).watchdog_runs ≡ o.state.watchdog_runs + runs_by a)
      × ((carry_out o a).spawns ≡ o.state.spawns + spawns_by a)
unfolding carry_out apply_ruling_outcome clear_watchdog_retriggers
carry_out_counts o (run_watchdog c e r) = ground arith
carry_out_counts o (spawn_session ruling none) = ground arith
carry_out_counts o (spawn_session ruling (some c)) = ground arith
carry_out_counts o (spawn_session closing c) = ground arith
carry_out_counts o (exit r) = ground arith
carry_out_counts o (await_watchdog p) = ground arith
carry_out_counts o (archive_escalation c r) = ground arith
carry_out_counts o (park r p) = ground arith
carry_out_counts o (supersede_park r) = ground arith

increment_lem :
    (s : SupervisorState) (key : String)
    → retriggers_of (increment_retrigger s key) key ≡ retriggers_of s key + 1
unfolding increment_retrigger
increment_lem s key = rw (str_eq_self key)

count_ruling_retriggers :
    (o : SupervisorObservation) (kind : SessionKind) (c : Option String) (s : SupervisorState)
    → (count_ruling o kind c s).retriggers ≡ s.retriggers
unfolding apply_ruling_outcome
count_ruling_retriggers o ruling none s = refl
count_ruling_retriggers o ruling (some c) s = refl
count_ruling_retriggers o closing c s = refl

respawn_lem :
    (o : SupervisorObservation) (kind : SessionKind) (c : Option String)
    → is_some o.last_session_outcome ≡ true
    → retriggers_of (carry_out o (spawn_session kind c)) (retry_key kind c)
      ≡ retriggers_of o.state (retry_key kind c) + 1
unfolding carry_out count_spawn
respawn_lem o kind c h =
    rw (h, str_eq_self (retry_key kind c))
      (ap (λ m. get_or (lookup (retry_key kind c) m) 0 + 1)
        (count_ruling_retriggers o kind c (record (o.state) { spawns = o.state.spawns + 1 })))

-- When a session that failed or timed out is spawned again, carrying that out spends one of its
-- retries, and what is spent then is at most `sessionRetries`.
pub respawn_within_retries :
    (o : SupervisorObservation) (s : SessionOutcome)
    → o.last_session_outcome ≡ some s
    → (s.outcome ≡ SessionVerdict.failed) ⊎ (s.outcome ≡ SessionVerdict.timeout)
    → decide o ≡ spawn_session s.kind s.card_id
    → let key = retry_key s.kind s.card_id in
      let t = carry_out o (decide o) in
      (retriggers_of t key ≡ retriggers_of o.state key + 1)
      × (retriggers_of t key ≤ o.limits.session_retries)
respawn_within_retries o s e f d =
    rw d (respawn_lem o s.kind s.card_id (ap is_some e), within (decide-retry o s e f))
  where
    key : String
    key = retry_key s.kind s.card_id

    within :
        ((retriggers_of o.state key < o.limits.session_retries)
            × (decide o ≡ spawn_session s.kind s.card_id))
          ⊎ ((o.limits.session_retries ≤ retriggers_of o.state key)
              × (decide o ≡ park_for (failed_park s.kind)))
        → retriggers_of (carry_out o (spawn_session s.kind s.card_id)) key
          ≤ o.limits.session_retries
    within (inl (h, _)) = omega (arith, respawn_lem o s.kind s.card_id (ap is_some e))
    within (inr (_, p)) = absurd (ground (arith, d, p))

retrigger_spent :
    (o : SupervisorObservation) (key : String) (r : ParkReason)
    → 1 ≤ retriggers_of o.state key
    → retrigger_once o key r ≡ park_for r
unfolding retrigger_once
retrigger_spent o key r h = ground arith

unexhausted :
    (o : SupervisorObservation) (key : String) (r : ParkReason)
    → o.state.watchdog_runs < o.limits.max_watchdog_runs
    → retriggers_of o.state key ≡ 0
    → retrigger_once o key r ≡ run_watchdog none false none
unfolding retrigger_once
unexhausted o key r b z = ground arith

credited_run :
    (o : SupervisorObservation) (w : LastWatchdog) (cards : Option (List String)) (e : Bool)
    → o.last_watchdog ≡ some w
    → terminal_reason w ≡ some "session_incomplete"
    → retriggers_of (carry_out o (run_watchdog cards e none)) "session_incomplete"
      ≡ retriggers_of o.state "session_incomplete" + 1
unfolding carry_out
credited_run o w cards e l t =
    ap (λ (s : SupervisorState). retriggers_of s "session_incomplete") credited
    ∙ increment_lem o.state "session_incomplete"
  where
    credited :
        credit_terminal o.last_watchdog o.state ≡ increment_retrigger o.state "session_incomplete"
    credited = rw l (rw t refl)

-- Where the watchdog's own terminal is `session_incomplete`, carrying out a run without a retrigger
-- spends one of that reason's budget, and the row of that reason then parks.
pub incomplete_once :
    (o : SupervisorObservation) (w : LastWatchdog) (cards : Option (List String)) (e : Bool)
    → o.last_watchdog ≡ some w
    → terminal_reason w ≡ some "session_incomplete"
    → let t = carry_out o (run_watchdog cards e none) in
      (retriggers_of t "session_incomplete" ≡ retriggers_of o.state "session_incomplete" + 1)
      × (retrigger_once (record o { state = t }) "session_incomplete" ParkReason.session_incomplete
          ≡ park_for ParkReason.session_incomplete)
incomplete_once o w cards e l t = (
  spent,
  retrigger_spent (record o { state = after }) "session_incomplete" _ (omega (arith, spent)),
)
  where
    after : SupervisorState
    after = carry_out o (run_watchdog cards e none)

    spent :
        retriggers_of after "session_incomplete" ≡ retriggers_of o.state "session_incomplete" + 1
    spent = credited_run o w cards e l t

terminal_named :
    (w : LastWatchdog) (r : String) → terminal_reason w ≡ some r → is_some w.terminal ≡ true
terminal_named w r h = ground arith

-- Where the watchdog ended on `stalled` and its run has since finished on `session_incomplete`, the
-- rows answer with one more run as long as budget is left, and carrying it out spends no one-shot
-- budget of `session_incomplete` (no live run stands in the way, and none was spent before).
pub stalled_incomplete_uncharged :
    (o : SupervisorObservation) (w : LastWatchdog)
    → o.last_watchdog ≡ some w
    → terminal_reason w ≡ some "stalled"
    → effective_reason o w ≡ some "session_incomplete"
    → stale_terminal_row o ≡ none
    → o.state.watchdog_runs < o.limits.max_watchdog_runs
    → retriggers_of o.state "session_incomplete" ≡ 0
    → (main_rows o (some w) ≡ run_watchdog none false none)
      × (retriggers_of (carry_out o (run_watchdog none false none)) "session_incomplete" ≡ 0)
unfolding carry_out main_rows
stalled_incomplete_uncharged o w l t f s b z = (
  rw (s, f) (unexhausted o "session_incomplete" ParkReason.session_incomplete b z),
  ap (λ (s : SupervisorState). retriggers_of s "session_incomplete") uncharged ∙ z,
)
  where
    uncharged : credit_terminal o.last_watchdog o.state ≡ o.state
    uncharged = rw l (rw t (rw (terminal_named w "stalled" t) refl))
