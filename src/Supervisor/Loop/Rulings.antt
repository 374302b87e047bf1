-- ===== src/Supervisor/Loop/Rulings.antt =====
-- The same escalation is not ruled on twice.
use tribe.Base.{
  ◌+◌, [], ◌≡◌, ◌≢◌, refl, sym, ◌∙◌, ap, subst, String, true, false, Option, none, some, arith,
  includes, get_or, lookup, Bool-cases, inl, inr, is_some,
}
use mathlib.Core.Bool.{false≢true}
use tribe.Supervisor.Model.{
  SessionKind, ruling, closing, EscalationFact, SupervisorState, SupervisorObservation,
  SupervisorAction, run_watchdog, await_watchdog, spawn_session, archive_escalation, park,
  supersede_park, exit,
}
use tribe.Supervisor.State.{seen_of, clear_watchdog_retriggers}
use tribe.Supervisor.State.Rulings.{apply_ruling_outcome-Ruled}
use tribe.Supervisor.Decide.{next_unanswered, decide}
use tribe.Supervisor.Decide.Spawns.{Justified, decide-Justified}
use tribe.Supervisor.Loop.{carry_out, count_ruling, count_spawn, spawned_sha}

-- The states that the loop may come to from `s`, whatever it observes and is told to do.
pub data Later (s : SupervisorState) : SupervisorState → Type 0 where
  now : Later s s
  after :
      {t u : SupervisorState} (o : SupervisorObservation) (a : SupervisorAction)
      → Later s t
      → o.state ≡ t
      → u ≡ carry_out o a
      → Later s u

abbrev HasSeen : SupervisorState → String → String → Type 0
HasSeen s card_id body = includes (seen_of s card_id) body ≡ true

module _ (o : SupervisorObservation) (card_id body : String)
    (h : HasSeen o.state card_id body) where
  seen_in :
      (s : SupervisorState) → s.seen_escalations ≡ o.state.seen_escalations → HasSeen s card_id body
  seen_in s e = subst (λ m. includes (get_or (lookup card_id m) []) body ≡ true) (sym e) h

  ruling_kept :
      (kind : SessionKind) (c : Option String) (s : SupervisorState)
      → s.seen_escalations ≡ o.state.seen_escalations
      → HasSeen (count_ruling o kind c s) card_id body
  ruling_kept ruling none s e = seen_in s e
  ruling_kept closing c s e = seen_in s e
  ruling_kept ruling (some c) s e =
      (apply_ruling_outcome-Ruled s c (spawned_sha o c)).still_seen card_id body (seen_in s e)

  carry_out_kept : (a : SupervisorAction) → HasSeen (carry_out o a) card_id body
  unfolding carry_out count_spawn clear_watchdog_retriggers
  carry_out_kept (run_watchdog c e r) = ground (arith, h)
  carry_out_kept (spawn_session k c) =
      let spawned = record (o.state) { spawns = o.state.spawns + 1 } in
      elim (Bool-cases (is_some o.last_session_outcome)) [
        | inl e ↦ rw e (ruling_kept k c spawned refl)
        | inr e ↦ rw e (ruling_kept k c spawned refl)
      ]
  carry_out_kept (exit r) = ground (arith, h)
  carry_out_kept (await_watchdog p) = h
  carry_out_kept (archive_escalation c r) = h
  carry_out_kept (park r p) = h
  carry_out_kept (supersede_park r) = h

Later-seen :
    {s t : SupervisorState} (card_id body : String)
    → Later s t
    → HasSeen s card_id body
    → HasSeen t card_id body
Later-seen card_id body now h = h
Later-seen card_id body (after o a l e c) h =
    subst (λ u. HasSeen u card_id body) (sym c)
      (carry_out_kept o card_id body
        (subst (λ u. HasSeen u card_id body) (sym e) (Later-seen card_id body l h)) a)

spawned_seen :
    (o : SupervisorObservation) (card_id : String)
    → HasSeen (carry_out o (spawn_session ruling (some card_id))) card_id (spawned_sha o card_id)
unfolding carry_out count_spawn
spawned_seen o card_id =
    let spawned = record (o.state) { spawns = o.state.spawns + 1 } in
    let seen = (apply_ruling_outcome-Ruled spawned card_id (spawned_sha o card_id)).body_seen in
    elim (Bool-cases (is_some o.last_session_outcome)) [ inl e ↦ rw e seen | inr e ↦ rw e seen ]

-- Once a ruling session has been spawned for a card, then in any state that the loop may come to
-- later, whatever it observed and did in between, the table spawns no ruling session if that card's
-- escalation is the first unanswered one, has the same body, and no session has just returned.
pub ruled_body_not_ruled_again :
    (o o' : SupervisorObservation) (e : EscalationFact) (c' : Option String)
    → Later (carry_out o (spawn_session ruling (some e.card_id))) o'.state
    → o'.last_session_outcome ≡ none
    → next_unanswered o'.escalations ≡ some e
    → e.content_sha256 ≡ spawned_sha o e.card_id
    → decide o' ≢ spawn_session ruling c'
ruled_body_not_ruled_again o o' e c' l n x b d =
    let (e', x', _, m) = subst (Justified o') d (decide-Justified o' n) in
    let same : e' ≡ e = ground (arith, x, x') in
    let fresh =
      subst (λ f. includes (seen_of o'.state f.card_id) f.content_sha256 ≡ false) same
        m.not_ruled_before in
    let seen = Later-seen e.card_id (spawned_sha o e.card_id) l (spawned_seen o e.card_id) in
    false≢true (sym fresh ∙ ap (includes (seen_of o'.state e.card_id)) b ∙ seen)
