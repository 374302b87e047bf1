-- ===== src/Runner/Done/Progress.antt =====
-- A passed Done run moves the card on (done.ts).
use tribe.Base.{
  ℕ, zero, suc, ◌-◌, ◌≡◌, ◌≤◌, ◌<◌, refl, String, Option, none, some, List, [], ◌∷◌, length, arith,
  Option-cases, Bool-cases, inl, inr, ◌==◌,
}
use tribe.Runner.Model.{TaskRef, Card, Step, task, deliver}
use tribe.Runner.Done.{first_unpassed, redo_last, next_step, mark_passed, apply_pass}

pub length-mark_passed :
    (n : ℕ) (sha : String) (ts : List TaskRef) → length (mark_passed n sha ts) ≡ length ts
unfolding mark_passed
length-mark_passed n sha [] = refl
length-mark_passed zero sha (t ∷ ts) = refl
length-mark_passed (suc n) sha (t ∷ ts) = ground (arith, length-mark_passed n sha ts)

first_unpassed-bound : (ts : List TaskRef) (i : ℕ) → first_unpassed ts ≡ some i → i < length ts
unfolding first_unpassed
first_unpassed-bound [] i h = absurd (ground arith)
first_unpassed-bound (t ∷ ts) i h = elim (Option-cases (first_unpassed ts)) [
  | inl e ↦ ground (arith, e, h)
  | inr (j, e) ↦ ground (arith, e, h, first_unpassed-bound ts j e)
]

first_unpassed-mark_passed :
    (n : ℕ) (sha : String) (ts : List TaskRef) (j : ℕ)
    → first_unpassed (mark_passed n sha ts) ≡ some j
    → n < j
unfolding first_unpassed mark_passed
first_unpassed-mark_passed n sha [] j h = absurd (ground arith)
first_unpassed-mark_passed zero sha (t ∷ ts) j h = elim (Option-cases (first_unpassed ts)) [
  | inl e ↦ absurd (ground (arith, e, h))
  | inr (i, e) ↦ ground (arith, e, h)
]
first_unpassed-mark_passed (suc n) sha (t ∷ ts) j h =
    elim (Option-cases (first_unpassed (mark_passed n sha ts))) [
      | inl e ↦ absurd (ground (arith, e, h))
      | inr (i, e) ↦ ground (arith, e, h, first_unpassed-mark_passed n sha ts i e)
    ]

-- How many steps before delivery are left, counted from the next one.
abbrev pub left_from : ℕ → Option Step → ℕ
left_from n none = 0
left_from n (some deliver) = 0
left_from n (some (task i)) = n - i

unfoldable pub remaining : Card → ℕ
remaining card = left_from (length card.tasks) (next_step card)

-- The card after a pass through the task `n`.
abbrev pub passed_card : Card → ℕ → String → Card
passed_card card n sha =
    let (tasks, done_sha) = apply_pass card.tasks n sha in
    record card { tasks = tasks; done_sha = done_sha }

redo_last-bound : (ts : List TaskRef) (i : ℕ) → redo_last ts ≡ some (task i) → suc i ≡ length ts
redo_last-bound [] i h = absurd (ground arith)
redo_last-bound (t ∷ ts) i h = ground (arith, h)

pub next_step-bound : (card : Card) (i : ℕ) → next_step card ≡ some (task i) → i < length card.tasks
unfolding next_step
next_step-bound card i h = elim (Option-cases (first_unpassed card.tasks)) [
  | inl e ↦ ground (arith, e, h, redo_last-bound card.tasks i)
  | inr (j, e) ↦ ground (arith, e, h, first_unpassed-bound card.tasks j e)
]

redo_left : (n : ℕ) (ts : List TaskRef) → left_from (length ts) (redo_last ts) ≤ 1
redo_left n [] = ground arith
redo_left n (t ∷ ts) = ground arith

-- A Done run that passes through the next task leaves strictly fewer steps before delivery, also
-- where a later task had passed before.
pub passed_remaining :
    (card : Card) (i : ℕ) (sha : String)
    → next_step card ≡ some (task i)
    → remaining (passed_card card i sha) < remaining card
unfolding remaining next_step apply_pass
passed_remaining card i sha h =
    let bound = next_step-bound card i h in
    let same = length-mark_passed i sha card.tasks in
    elim (Option-cases (first_unpassed (mark_passed i sha card.tasks))) [
      | inl e ↦ elim (Bool-cases (suc i == length card.tasks)) [
        | inl l ↦ ground (arith, e, l, h, bound)
        | inr l ↦
            ground (arith, e, l, h, bound, same, l, redo_left i (mark_passed i sha card.tasks))
      ]
      | inr (j, e) ↦
          ground (arith, e, h, bound, same, first_unpassed-mark_passed i sha card.tasks j e)
    ]

-- After a Done run through the last task the next step is the delivery.
pub passed_last :
    (card : Card) (n : ℕ) (sha : String)
    → suc n ≡ length card.tasks
    → next_step (passed_card card n sha) ≡ some deliver
unfolding next_step apply_pass
passed_last card n sha h = elim (Option-cases (first_unpassed (mark_passed n sha card.tasks))) [
  | inl e ↦ ground (arith, e, h)
  | inr (j, e) ↦ absurd (
      ground (
        arith,
        h,
        length-mark_passed n sha card.tasks,
        first_unpassed-bound (mark_passed n sha card.tasks) j e,
        first_unpassed-mark_passed n sha card.tasks j e,
      ))
]
