-- ===== src/Runner/Turns/Shipped.antt =====
-- What a card has behind it when `driveCardTurns` hands it to `finishShipped` (turns.ts and the
-- effects of card-actions.ts).
use tribe.Base.{
  ℕ, ◌-◌, ◌≡◌, ◌<◌, refl, ◌∙◌, subst, String, true, some, List, [], ◌∷◌, length, arith, get_elem?,
  Option-cases, Bool-cases, inl, inr,
}
use tribe.Runner.Model.{ResolvedTask, Card, DoneRunVerdict, task, deliver}
use tribe.Runner.Plan.{done_commands_through}
use tribe.Runner.Plan.Commands.{asks}
use tribe.Runner.Done.{next_step}
use tribe.Runner.Turns.{
  stopped, escalated, finishes, throws, TurnState, Outcome, continues, ends, turn, turns, entry,
  drive_card_turns, start_state, recheck, rechecked, failed_prompt,
}
use tribe.Runner.Effects.{
  Scratch, TurnReply, DoneRun, verdict, infrastructure, run_done, clear_final_pass, task_turn,
}
use tribe.Runner.Turns.Returns.{deliver_has_sha, length-unpass_last}
use tribe.Runner.Turns.Record.{logged}
use tribe.Runner.Turns.Evidence.{Evidence, Covered, Proven, last-Covered, run-Records, turn-Proven}

module _ (tasks : List ResolvedTask) where
  next-Proven :
      (o : Outcome) (replies : List TurnReply)
      → Proven tasks o
      → ((s : TurnState)
          → length s.card.tasks ≡ length tasks
          → Evidence tasks s
          → Proven tasks (turns tasks replies s))
      → Proven tasks (elim o [ continues s ↦ turns tasks replies s | ends e s ↦ ends e s ])
  next-Proven (continues s) replies v k = k s v.0 v.1
  next-Proven (ends e s) replies v k = v

  turns-Proven :
      (replies : List TurnReply) (s : TurnState)
      → length s.card.tasks ≡ length tasks
      → Evidence tasks s
      → Proven tasks (turns tasks replies s)
  unfolding turns
  turns-Proven [] s l v = (l, v)
  turns-Proven (reply ∷ replies) s l v =
      next-Proven (turn tasks reply s) replies (turn-Proven tasks reply s l v)
        λ t m w. turns-Proven replies t m w

  cleared-Evidence :
      (s : TurnState) (t : TurnState) → t.card ≡ clear_final_pass s.card → Evidence tasks t
  unfolding clear_final_pass
  cleared-Evidence s t e d = absurd (deliver_has_sha tasks t.card d (ground (arith, e)))

  rechecked-Proven :
      (t : ResolvedTask) (run : DoneRun) (s : TurnState) (sha : String)
      → length s.card.tasks ≡ length tasks
      → s.card.done_sha ≡ some sha
      → ((v : DoneRunVerdict) → run ≡ verdict v → v.passed ≡ true → Covered tasks s.rows sha)
      → Proven tasks (rechecked tasks t run s)
  unfolding clear_final_pass
  rechecked-Proven t (infrastructure reason) s sha l n r = tt
  rechecked-Proven t (verdict v) s sha l n r = elim (Bool-cases v.passed) [
    | inl p ↦ rw p (l, λ d at h. subst (Covered tasks s.rows) (ground (arith, n, h)) (r v refl p))
    | inr p ↦ rw p (
      length-unpass_last tasks s.card.tasks ∙ l,
      cleared-Evidence s
          (record s {
            card = clear_final_pass s.card;
            attempts = 1;
            override = some (failed_prompt v t.id (task_turn t.id) 1);
          })
          refl,
    )
  ]

  nonempty :
      (ts : List ResolvedTask) (i : ℕ) (t : ResolvedTask) → get_elem? ts i ≡ some t → 0 < length ts
  nonempty [] i t h = absurd (ground (arith, h))
  nonempty (u ∷ ts) i t h = ground arith

  recheck-Proven :
      (scratch : Scratch) (t : ResolvedTask) (card : Card) (sha : String)
      → get_elem? tasks (length tasks - 1) ≡ some t
      → length card.tasks ≡ length tasks
      → card.done_sha ≡ some sha
      → Proven tasks (recheck tasks scratch t sha (start_state tasks card))
  recheck-Proven scratch t card sha f l n =
      let last = length tasks - 1 in
      let (run, rows) = run_done scratch (done_commands_through tasks last) sha t.id 1 in
      rechecked-Proven t run (record (start_state tasks card) { rows = rows }) sha l n
        λ v e p.
          last-Covered tasks last v rows sha (ground (arith, nonempty tasks last t f)) p
            (run-Records tasks scratch last [] sha t.id 1 v e)

  entry-Proven :
      (scratch : Scratch) (card : Card)
      → length card.tasks ≡ length tasks
      → Proven tasks (entry tasks scratch card)
  unfolding entry
  entry-Proven scratch card l = elim (Option-cases (next_step card)) [
    | inl e ↦ rw (e, entry) tt
    | inr (task i, e) ↦ rw (e, entry) (l, λ d. absurd (ground (arith, e, d)))
    | inr (deliver, e) ↦ elim (Option-cases (get_elem? tasks (length tasks - 1))) [
      | inl n ↦ rw (e, entry, n) tt
      | inr (t, found) ↦ elim (Option-cases card.done_sha) [
        | inl n ↦ rw (e, entry, found, n) tt
        | inr (sha, n) ↦ rw (e, entry, found, n) (recheck-Proven scratch t card sha found l n)
      ]
    ]
  ]

-- The card is handed to `finishShipped` only at a `doneSha` at which every Done command of every
-- task has run and exited 0.
abbrev pub ShipsProven : List ResolvedTask → Outcome → Type 0
ShipsProven tasks (ends finishes t) =
    (sha : String) × (t.card.done_sha ≡ some sha)
    × ((c : String) → asks tasks c ≡ true → logged t.rows sha c ≡ true)
ShipsProven tasks _ = Unit

-- For a card whose tasks are the resolved ones, one for one: if `driveCardTurns` hands it to
-- `finishShipped`, the card has a `doneSha`, and for every Done command of every task the rows that
-- this call has appended show that it ran at that commit and exited 0 in time.
pub drive_card_turns-ShipsProven :
    (tasks : List ResolvedTask) (scratch : Scratch) (replies : List TurnReply) (card : Card)
    → length card.tasks ≡ length tasks
    → ShipsProven tasks (drive_card_turns tasks scratch replies card)
unfolding drive_card_turns
drive_card_turns-ShipsProven tasks scratch replies card l = shipped_proven _ (
    next-Proven tasks (entry tasks scratch card) replies (entry-Proven tasks scratch card l)
      λ s m v. turns-Proven tasks replies s m v)
  where
    shipped_proven : (o : Outcome) → Proven tasks o → ShipsProven tasks o
    shipped_proven (continues s) v = tt
    shipped_proven (ends (stopped r c) s) v = tt
    shipped_proven (ends (escalated r) s) v = tt
    shipped_proven (ends throws s) v = tt
    shipped_proven (ends finishes s) v = elim (Option-cases s.card.done_sha) [
      | inl n ↦ absurd (deliver_has_sha tasks s.card v.0 n)
      | inr (sha, n) ↦ (sha, n, v.1 v.0 sha n)
    ]
