-- ===== src/Runner/Turns/Evidence.antt =====
-- A turn keeps the record of what the card has passed (turns.ts).
use tribe.Base.{
  ℕ, zero, suc, ◌≡◌, ◌≤◌, refl, ap, ◌∙◌, subst, String, true, false, Option, none, some, List, [],
  ◌∷◌, ◌++◌, length, take, arith, get_elem?, leb, ◌==◌, Option-cases, Bool-cases, inl, inr, str_eq,
}
use tribe.Runner.Model.{
  ResolvedTask, DoneRunVerdict, Step, task, deliver, DoneRow, TurnAnswer, shipped, needs_direction,
  timeout, task_done, error,
}
use tribe.Runner.Plan.{done_commands_through}
use tribe.Runner.Plan.Commands.{plans, asks, done_commands_through_lem}
use tribe.Runner.Done.{next_step, apply_pass}
use tribe.Runner.Turns.{
  finishes, TurnState, Outcome, continues, ends, spend, judged, check_done, answered, at_step, turn,
  expected_index, is_deliver, step_prompt, prompt_of,
}
use tribe.Runner.Effects.{
  Prompt, Scratch, TurnReply, DoneRun, verdict, infrastructure, run_done, record_branch,
  record_pass, accept_task_done,
}
use tribe.Runner.Turns.Bound.{pass_length}
use tribe.Runner.Turns.Record.{logged, logged-append, passed_logged, run_verdict}

take_all : (n : ℕ) (ts : List ResolvedTask) → length ts ≤ n → take n ts ≡ ts
take_all zero [] h = refl
take_all zero (t ∷ ts) h = absurd (ground (arith, h))
take_all (suc n) [] h = refl
take_all (suc n) (t ∷ ts) h = ap (λ xs. t ∷ xs) (take_all n ts (ground (arith, h)))

module _ (tasks : List ResolvedTask) where
  -- A card at its delivery has all its commands on record at its `doneSha`.
  abbrev pub Evidence : TurnState → Type 0
  Evidence s =
      next_step s.card ≡ some deliver
      → (sha : String) → s.card.done_sha ≡ some sha
      → (c : String) → asks tasks c ≡ true
      → logged s.rows sha c ≡ true

  abbrev pub Covered : List DoneRow → String → Type 0
  Covered rows sha = (c : String) → asks tasks c ≡ true → logged rows sha c ≡ true

  -- A state that goes on, and the state at a delivery, have the evidence.
  abbrev pub Proven : Outcome → Type 0
  Proven (continues t) = (length t.card.tasks ≡ length tasks) × Evidence t
  Proven (ends finishes t) = (next_step t.card ≡ some deliver) × Evidence t
  Proven (ends e t) = Unit

  spend-Proven :
      (s : TurnState) (prompt : Option Prompt)
      → length s.card.tasks ≡ length tasks
      → Evidence s
      → Proven (spend s prompt)
  unfolding spend
  spend-Proven s prompt l v = elim (Bool-cases (leb 3 (suc s.attempts))) [
    | inl e ↦ rw e tt
    | inr e ↦ rw e (l, v)
  ]

  -- What a passed Done run through the task `i` records, if that task is the last one.
  abbrev pub Records : ℕ → DoneRunVerdict → List DoneRow → String → Type 0
  Records i v rows sha =
      v.passed ≡ true
      → (c : String) → plans (done_commands_through tasks i) c ≡ true
      → logged rows sha c ≡ true

  pub last-Covered :
      (i : ℕ) (v : DoneRunVerdict) (rows : List DoneRow) (sha : String)
      → suc i ≡ length tasks
      → v.passed ≡ true
      → Records i v rows sha
      → Covered rows sha
  last-Covered i v rows sha l p r c a = r p c (
      (done_commands_through_lem tasks i).0 c
      ∙ ap (λ ts. asks ts c) (take_all (suc i) tasks (ground (arith, l)))
      ∙ a)

  pass-Evidence :
      (i : ℕ) (v : DoneRunVerdict) (tip branch : String) (s : TurnState)
      → length s.card.tasks ≡ length tasks
      → v.passed ≡ true
      → Records i v s.rows tip
      → Evidence (record s { card = record_pass i tip branch s.card })
  unfolding record_pass apply_pass
  pass-Evidence i v tip branch s l p r e sha d = elim (Bool-cases (suc i == length s.card.tasks)) [
    | inl n ↦
        subst (Covered s.rows) (ground (arith, n, d))
          (last-Covered i v s.rows tip (ground (arith, n, l)) p r)
    | inr n ↦ absurd (ground (arith, n, d))
  ]

  judged-Proven :
      (step : Step) (t : ResolvedTask) (plain : Prompt) (tip branch : String) (run : DoneRun)
      (s : TurnState)
      → length s.card.tasks ≡ length tasks
      → Evidence s
      → ((v : DoneRunVerdict) → run ≡ verdict v → Records (expected_index tasks step) v s.rows tip)
      → Proven (judged tasks step t plain tip branch run s)
  unfolding judged
  judged-Proven step t plain tip branch (infrastructure reason) s l v r = tt
  judged-Proven step t plain tip branch (verdict w) s l v r =
      let i = expected_index tasks step in
      let passed = record s { card = record_pass i tip branch s.card } in
      let kept = pass_length tasks i tip branch s.card ∙ l in
      elim (Bool-cases w.passed) [
        | inl p ↦
            let proof = pass-Evidence i w tip branch s l p (r w refl) in
            elim (Bool-cases (is_deliver step)) [
              | inl d ↦ rw (p, d) (spend-Proven passed none kept proof)
              | inr d ↦ rw (p, d) (kept, proof)
            ]
        | inr p ↦ rw p (spend-Proven s _ l v)
      ]

  branch-Evidence :
      (branch : String) (s : TurnState) (rows : List DoneRow)
      → Evidence s
      → Evidence (record s { card = record_branch branch s.card; rows = s.rows ++ rows })
  unfolding record_branch next_step
  branch-Evidence branch s rows v e sha d c a =
      ground (arith, logged-append s.rows rows sha c, v e sha d c a)

  pub run-Records :
      (scratch : Scratch) (i : ℕ) (rows : List DoneRow) (sha id : String) (attempt : ℕ)
      (v : DoneRunVerdict)
      → let (run, new) = run_done scratch (done_commands_through tasks i) sha id attempt in
        run ≡ verdict v → Records i v (rows ++ new) sha
  run-Records scratch i rows sha id attempt v e p c h =
      let planned = done_commands_through tasks i in
      let (same, new) = run_verdict scratch planned sha id attempt v e in
      let shown = passed_logged id attempt sha c scratch.shell planned in
      ground (
        arith,
        new,
        same,
        logged-append rows (run_done scratch planned sha id attempt).1 sha c,
        shown (subst (λ w. w.passed ≡ true) same p) h,
      )

  check_done-Proven :
      (reply : TurnReply) (step : Step) (t : ResolvedTask) (plain : Prompt) (tip branch : String)
      (s : TurnState)
      → length s.card.tasks ≡ length tasks
      → Evidence s
      → Proven (check_done tasks reply step t plain tip branch s)
  unfolding check_done record_branch
  check_done-Proven reply step t plain tip branch s l v =
      let i = expected_index tasks step in
      let (run, rows) =
        run_done reply.scratch (done_commands_through tasks i) tip t.id (suc s.attempts) in
      judged-Proven step t plain tip branch run
        (record s { card = record_branch branch s.card; rows = s.rows ++ rows }) l
        (branch-Evidence branch s rows v)
        λ w e. run-Records reply.scratch i s.rows tip t.id (suc s.attempts) w e

  answered-Proven :
      (reply : TurnReply) (step : Step) (t : ResolvedTask) (a : TurnAnswer) (s : TurnState)
      → next_step s.card ≡ some step
      → length s.card.tasks ≡ length tasks
      → Evidence s
      → Proven (answered tasks reply step t a s)
  unfolding answered
  answered-Proven reply step t (error (some code)) s e l v = tt
  answered-Proven reply step t (error none) s e l v = tt
  answered-Proven reply step t timeout s e l v = tt
  answered-Proven reply step t needs_direction s e l v = tt
  answered-Proven reply deliver t shipped s e l v = (e, v)
  answered-Proven reply (task i) t shipped s e l v = spend-Proven s _ l v
  answered-Proven reply step t (task_done id branch) s e l v = elim (Bool-cases (str_eq id t.id)) [
    | inl same ↦ elim (Option-cases (accept_task_done reply s.card branch)) [
      | inl r ↦ rw (same, r) (spend-Proven s _ l v)
      | inr (tip, r) ↦
          rw (same, r) (check_done-Proven reply step t (step_prompt step t) tip branch s l v)
    ]
    | inr other ↦ rw other (spend-Proven s _ l v)
  ]

  at_step-Proven :
      (reply : TurnReply) (step : Step) (s : TurnState)
      → next_step s.card ≡ some step
      → length s.card.tasks ≡ length tasks
      → Evidence s
      → Proven (at_step tasks reply step s)
  at_step-Proven reply step s e l v =
      elim (Option-cases (get_elem? tasks (expected_index tasks step))) [
        | inl n ↦ rw (n, at_step) tt
        | inr (t, f) ↦
            rw (f, at_step)
              (answered-Proven reply step t
                (reply.run_turn (prompt_of tasks s.override (step_prompt step t)) s.first)
                (record s { override = none; first = false }) e l v)
      ]

  pub turn-Proven :
      (reply : TurnReply) (s : TurnState)
      → length s.card.tasks ≡ length tasks
      → Evidence s
      → Proven (turn tasks reply s)
  unfolding turn
  turn-Proven reply s l v = elim (Option-cases (next_step s.card)) [
    | inl n ↦ rw (n, turn) tt
    | inr (step, e) ↦ rw (e, turn) (at_step-Proven reply step s e l v)
  ]
