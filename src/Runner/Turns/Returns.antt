-- ===== src/Runner/Turns/Returns.antt =====
-- `driveCardTurns` returns: the loop under the allowance, and the entry to it (turns.ts).
use tribe.Base.{
  ℕ, suc, ◌+◌, ◌-◌, ◌*◌, ◌≡◌, ◌≢◌, ◌≤◌, ◌<◌, refl, ap, String, Option, none, some, List, [], ◌∷◌,
  length, arith, Option-cases, inl, inr,
}
use tribe.Runner.Model.{TaskRef, ResolvedTask, Card, Step, task, deliver}
use tribe.Runner.Done.{redo_last, next_step, first_unpassed}
use tribe.Runner.Done.Progress.{remaining, left_from}
use tribe.Runner.Turns.{
  stopped, escalated, finishes, throws, TurnState, Outcome, continues, ends, turn, turns, entry,
  drive_card_turns, start_state, recheck,
}
use tribe.Runner.Effects.{Scratch, TurnReply, clear_final_pass, run_done, unpass_last}
use tribe.Runner.Turns.Bound.{get_elem?-some, allowance, Steady, Below, step_is_some, turn-Below}

module _ (tasks : List ResolvedTask) where
  -- The card's turns are over, and no read has failed.
  abbrev pub Returns : Outcome → Type 0
  Returns (continues s) = ⊥
  Returns (ends throws s) = ⊥
  Returns (ends e s) = Unit

  next-Returns :
      (o : Outcome) (replies : List TurnReply) (n : ℕ)
      → Below tasks n o
      → ((s : TurnState) → Steady tasks s → allowance s < n → Returns (turns tasks replies s))
      → Returns (elim o [ continues s ↦ turns tasks replies s | ends e s ↦ ends e s ])
  next-Returns (continues s) replies n b k = k s b.0 b.1
  next-Returns (ends (stopped r c) s) replies n b k = tt
  next-Returns (ends (escalated r) s) replies n b k = tt
  next-Returns (ends finishes s) replies n b k = tt
  next-Returns (ends throws s) replies n b k = b

  spent : (s : TurnState) → Steady tasks s → allowance s ≤ 0 → ⊥
  unfolding allowance
  spent s g l = ground (arith, g, l)

  turns-Returns :
      (replies : List TurnReply) (s : TurnState)
      → 0 < length tasks
      → Steady tasks s
      → allowance s ≤ length replies
      → Returns (turns tasks replies s)
  unfolding turns
  turns-Returns [] s z g l = absurd (spent s g l)
  turns-Returns (reply ∷ replies) s z g l =
      next-Returns (turn tasks reply s) replies (allowance s) (turn-Below tasks reply s z g)
        λ t h m. turns-Returns replies t z h (ground (arith, l, m))

  pub length-unpass_last : (ts : List TaskRef) → length (unpass_last ts) ≡ length ts
  length-unpass_last [] = refl
  length-unpass_last (t ∷ []) = refl
  length-unpass_last (t ∷ u ∷ ts) = ap suc (length-unpass_last (u ∷ ts))

  -- The loop is entered in a steady state, or not at all.
  abbrev Enters : Outcome → Type 0
  Enters (continues s) = Steady tasks s
  Enters (ends throws s) = ⊥
  Enters (ends e s) = Unit

  recheck-Enters :
      (scratch : Scratch) (t : ResolvedTask) (sha : String) (card : Card)
      → length card.tasks ≡ length tasks
      → Enters (recheck tasks scratch t sha (start_state tasks card))
  unfolding run_done clear_final_pass
  recheck-Enters scratch t sha card l = ground (arith, l, length-unpass_last card.tasks)

  redo_not_deliver : (ts : List TaskRef) → redo_last ts ≢ some deliver
  redo_not_deliver [] e = ground (arith, e)
  redo_not_deliver (t ∷ ts) e = ground (arith, e)

  pub deliver_has_sha : (card : Card) → next_step card ≡ some deliver → card.done_sha ≢ none
  unfolding next_step
  deliver_has_sha card e n = elim (Option-cases (first_unpassed card.tasks)) [
    | inl u ↦ ground (arith, e, u, n, redo_not_deliver card.tasks)
    | inr (i, u) ↦ absurd (ground (arith, e, u))
  ]

  entry-Enters :
      (scratch : Scratch) (card : Card)
      → 0 < length tasks
      → length card.tasks ≡ length tasks
      → Enters (entry tasks scratch card)
  unfolding entry
  entry-Enters scratch card z l = elim (Option-cases (next_step card)) [
    | inl e ↦ absurd (step_is_some tasks card (ground (arith, z, l)) e)
    | inr (task i, e) ↦ rw (e, entry) (l, ground arith)
    | inr (deliver, e) ↦ elim (Option-cases card.done_sha) [
      | inl n ↦ absurd (deliver_has_sha card e n)
      | inr (sha, n) ↦
          let (t, found) = get_elem?-some tasks (length tasks - 1) (ground (arith, z)) in
          rw (e, entry, found, n) (recheck-Enters scratch t sha card l)
    ]
  ]

  left_from-bound : (n : ℕ) (step : Option Step) → left_from n step ≤ n
  left_from-bound n none = ground arith
  left_from-bound n (some deliver) = ground arith
  left_from-bound n (some (task i)) = ground arith

  allowance-bound : (s : TurnState) → Steady tasks s → allowance s ≤ 3 * length tasks + 3
  unfolding allowance remaining
  allowance-bound s g = ground (arith, g, left_from-bound (length s.card.tasks) (next_step s.card))

-- For a card whose tasks are the resolved ones, one for one, and at least one, `driveCardTurns`
-- returns after at most three turns for each task and three for the delivery, whatever the session,
-- git and the commands answer, and no read of a task fails.
pub drive_card_turns-Returns :
    (tasks : List ResolvedTask) (scratch : Scratch) (replies : List TurnReply) (card : Card)
    → 0 < length tasks
    → length card.tasks ≡ length tasks
    → 3 * length tasks + 3 ≤ length replies
    → Returns tasks (drive_card_turns tasks scratch replies card)
unfolding drive_card_turns
drive_card_turns-Returns tasks scratch replies card z l n =
    entered (entry tasks scratch card) (entry-Enters tasks scratch card z l)
  where
    entered :
        (o : Outcome)
        → Enters tasks o
        → Returns tasks (elim o [ continues s ↦ turns tasks replies s | ends e s ↦ ends e s ])
    entered (continues s) g =
        turns-Returns tasks replies s z g (ground (arith, n, allowance-bound tasks s g))
    entered (ends (stopped r c) s) g = tt
    entered (ends (escalated r) s) g = tt
    entered (ends finishes s) g = tt
    entered (ends throws s) g = g
