-- ===== src/Runner/Turns/Bound.antt =====
-- The loop of turns comes to an end, whatever the session answers (turns.ts).
use tribe.Base.{
  ℕ, zero, suc, ◌+◌, ◌-◌, ◌*◌, ◌≡◌, ◌≢◌, ◌≤◌, ◌<◌, refl, ap, ◌∙◌, String, false, Option, none, some,
  List, [], ◌∷◌, ◌++◌, subst, length, arith, get_elem?, Option-cases, Bool-cases, inl, inr, str_eq,
}
use tribe.Runner.Model.{
  TaskRef, ResolvedTask, Card, Step, task, deliver, TurnAnswer, shipped, needs_direction, timeout,
  task_done, error,
}
use tribe.Runner.Plan.{done_commands_through}
use tribe.Runner.Done.{redo_last, next_step, first_unpassed, apply_pass}
use tribe.Runner.Done.Progress.{
  remaining, passed_card, passed_remaining, passed_last, next_step-bound, length-mark_passed,
}
use tribe.Runner.Turns.{
  throws, TurnState, Outcome, continues, ends, spend, judged, check_done, answered, at_step, turn,
  expected_index, step_prompt, prompt_of,
}
use tribe.Runner.Effects.{
  Prompt, TurnReply, DoneRun, verdict, infrastructure, record_branch, record_pass, accept_task_done,
  run_done,
}

pub get_elem?-some :
    {A : Type 0} (xs : List A) (i : ℕ) → i < length xs → (a : A) × (get_elem? xs i ≡ some a)
get_elem?-some [] i h = absurd (ground arith)
get_elem?-some (x ∷ xs) zero h = (x, refl)
get_elem?-some (x ∷ xs) (suc i) h = get_elem?-some xs i (ground arith)

-- The turns that are left at most: three for each step, and three for the delivery.
unfoldable pub allowance : TurnState → ℕ
allowance s = 3 * remaining s.card + (3 - s.attempts)

module _ (tasks : List ResolvedTask) where
  -- The card's tasks are the resolved ones, one for one, and the step has attempts left.
  abbrev pub Steady : TurnState → Type 0
  Steady s = (length s.card.tasks ≡ length tasks) × (s.attempts < 3)

  -- The outcome is an end that is no throw, or a state with an allowance below `n`.
  abbrev pub Below : ℕ → Outcome → Type 0
  Below n (continues t) = Steady t × (allowance t < n)
  Below n (ends throws t) = ⊥
  Below n (ends e t) = Unit

  spend-Below :
      (s : TurnState) (prompt : Option Prompt) (n : ℕ)
      → Steady s
      → allowance s ≤ n
      → Below n (spend s prompt)
  unfolding spend allowance
  spend-Below s prompt n g l = ground (arith, g, l)

  branch_remaining :
      (branch : String) (card : Card) → remaining (record_branch branch card) ≡ remaining card
  unfolding remaining next_step record_branch
  branch_remaining branch card = refl

  pass_remaining :
      (i : ℕ) (tip branch : String) (card : Card)
      → remaining (record_pass i tip branch card) ≡ remaining (passed_card card i tip)
  unfolding remaining next_step record_pass apply_pass
  pass_remaining i tip branch card = refl

  pub pass_length :
      (i : ℕ) (tip branch : String) (card : Card)
      → length (record_pass i tip branch card).tasks ≡ length card.tasks
  unfolding record_pass apply_pass
  pass_length i tip branch card = length-mark_passed i tip card.tasks

  delivered_remaining :
      (card : Card) (n : ℕ) (sha : String)
      → suc n ≡ length card.tasks
      → remaining (passed_card card n sha) ≡ 0
  unfolding remaining
  delivered_remaining card n sha h = rw (passed_last card n sha h) refl

  passed_less :
      (s : TurnState) (i : ℕ) (tip branch : String)
      → next_step s.card ≡ some (task i)
      → Steady s
      → allowance (record s { card = record_pass i tip branch s.card; attempts = 0 }) < allowance s
  unfolding allowance
  passed_less s i tip branch e g =
      ground (arith, passed_remaining s.card i tip e, pass_remaining i tip branch s.card, g)

  delivered_less :
      (s : TurnState) (n : ℕ) (tip branch : String)
      → suc n ≡ length s.card.tasks
      → allowance (record s { card = record_pass n tip branch s.card }) ≤ allowance s
  unfolding allowance
  delivered_less s n tip branch h =
      ground (arith, delivered_remaining s.card n tip h, pass_remaining n tip branch s.card)

  judged-Below :
      (step : Step) (t : ResolvedTask) (plain : Prompt) (tip branch : String) (run : DoneRun)
      (s : TurnState)
      → next_step s.card ≡ some step
      → 0 < length tasks
      → Steady s
      → Below (allowance s) (judged tasks step t plain tip branch run s)
  unfolding judged
  judged-Below step t plain tip branch (infrastructure reason) s e z g = tt
  judged-Below (task i) t plain tip branch (verdict v) s e z g = elim (Bool-cases v.passed) [
    | inl p ↦
        rw p ((pass_length i tip branch s.card ∙ g.0, ground arith), passed_less s i tip branch e g)
    | inr p ↦ rw p (spend-Below s _ (allowance s) g (ground arith))
  ]
  judged-Below deliver t plain tip branch (verdict v) s e z g = elim (Bool-cases v.passed) [
    | inl p ↦ rw p (
        spend-Below (record s { card = record_pass (length tasks - 1) tip branch s.card }) none
          (allowance s) (pass_length (length tasks - 1) tip branch s.card ∙ g.0, g.1)
          (delivered_less s (length tasks - 1) tip branch (ground (arith, z, g.0))))
    | inr p ↦ rw p (spend-Below s _ (allowance s) g (ground arith))
  ]

  branch_step :
      (branch : String) (card : Card) → next_step (record_branch branch card) ≡ next_step card
  unfolding next_step record_branch
  branch_step branch card = refl

  check_done-Below :
      (reply : TurnReply) (step : Step) (t : ResolvedTask) (plain : Prompt) (tip branch : String)
      (s : TurnState)
      → next_step s.card ≡ some step
      → 0 < length tasks
      → Steady s
      → Below (allowance s) (check_done tasks reply step t plain tip branch s)
  unfolding check_done record_branch remaining allowance
  check_done-Below reply step t plain tip branch s e z g =
      let (run, rows) =
        run_done reply.scratch (done_commands_through tasks (expected_index tasks step)) tip t.id
          (suc s.attempts) in
      subst
        (λ n. Below n (
          judged tasks step t plain tip branch run
            (record s { card = record_branch branch s.card; rows = s.rows ++ rows })))
        (ap (λ r. 3 * r + (3 - s.attempts)) (branch_remaining branch s.card))
        (judged-Below step t plain tip branch run _ (branch_step branch s.card ∙ e) z g)

  answered-Below :
      (reply : TurnReply) (step : Step) (t : ResolvedTask) (a : TurnAnswer) (s : TurnState)
      → next_step s.card ≡ some step
      → 0 < length tasks
      → Steady s
      → Below (allowance s) (answered tasks reply step t a s)
  unfolding answered
  answered-Below reply step t (error (some code)) s e z g = tt
  answered-Below reply step t (error none) s e z g = tt
  answered-Below reply step t timeout s e z g = tt
  answered-Below reply step t needs_direction s e z g = tt
  answered-Below reply deliver t shipped s e z g = tt
  answered-Below reply (task i) t shipped s e z g = spend-Below s _ (allowance s) g (ground arith)
  answered-Below reply step t (task_done id branch) s e z g = elim (Bool-cases (str_eq id t.id)) [
    | inl same ↦ elim (Option-cases (accept_task_done reply s.card branch)) [
      | inl r ↦ rw (same, r) (spend-Below s _ (allowance s) g (ground arith))
      | inr (tip, r) ↦
          rw (same, r) (check_done-Below reply step t (step_prompt step t) tip branch s e z g)
    ]
    | inr other ↦ rw other (spend-Below s _ (allowance s) g (ground arith))
  ]

  asked-Below :
      (reply : TurnReply) (step : Step) (t : ResolvedTask) (s : TurnState)
      → next_step s.card ≡ some step
      → 0 < length tasks
      → Steady s
      → Below (allowance s) (
          answered tasks reply step t
            (reply.run_turn (prompt_of tasks s.override (step_prompt step t)) s.first)
            (record s { override = none; first = false }))
  unfolding allowance
  asked-Below reply step t s e z g =
      answered-Below reply step t
        (reply.run_turn (prompt_of tasks s.override (step_prompt step t)) s.first)
        (record s { override = none; first = false }) e z g

  index_in :
      (card : Card) (step : Step)
      → next_step card ≡ some step
      → length card.tasks ≡ length tasks
      → 0 < length tasks
      → expected_index tasks step < length tasks
  index_in card (task i) e l z = ground (arith, next_step-bound card i e, l)
  index_in card deliver e l z = ground (arith, z)

  redo_is_some : (ts : List TaskRef) → 0 < length ts → redo_last ts ≢ none
  redo_is_some [] z = absurd (ground arith)
  redo_is_some (t ∷ ts) z = λ e. ground (arith, e)

  pub step_is_some : (card : Card) → 0 < length card.tasks → next_step card ≢ none
  unfolding next_step
  step_is_some card z e = elim (Option-cases (first_unpassed card.tasks)) [
    | inl u ↦ ground (arith, e, u, redo_is_some card.tasks z)
    | inr (i, u) ↦ ground (arith, e, u)
  ]

  at_step-Below :
      (reply : TurnReply) (step : Step) (s : TurnState)
      → next_step s.card ≡ some step
      → 0 < length tasks
      → Steady s
      → Below (allowance s) (at_step tasks reply step s)
  at_step-Below reply step s e z g =
      let (t, found) =
        get_elem?-some tasks (expected_index tasks step) (index_in s.card step e g.0 z) in
      rw (found, at_step) (asked-Below reply step t s e z g)

  pub turn-Below :
      (reply : TurnReply) (s : TurnState)
      → 0 < length tasks
      → Steady s
      → Below (allowance s) (turn tasks reply s)
  unfolding turn
  turn-Below reply s z g = elim (Option-cases (next_step s.card)) [
    | inl e ↦ absurd (step_is_some s.card (ground (arith, z, g.0)) e)
    | inr (step, e) ↦ rw (e, turn) (at_step-Below reply step s e z g)
  ]
