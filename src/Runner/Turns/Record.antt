-- ===== src/Runner/Turns/Record.antt =====
-- The rows of `done.jsonl` that a passed Done run leaves (card-actions.ts, `runDone`).
use tribe.Base.{
  ℕ, ◌≡◌, refl, ap, ◌∙◌, subst, String, Bool, true, false, not, ◌&&◌, ◌||◌, List, [], ◌∷◌, ◌++◌,
  arith, Option-cases, Bool-cases, inl, inr, str_eq, str_eq_self, if◌then◌else◌,
}
use tribe.Runner.Model.{PlannedCommand, DoneRunVerdict, DoneRow, command_row, done_run_row}
use tribe.Runner.Plan.Commands.{plans}
use tribe.Runner.Done.{is_failure, judge_done_run, command_rows, done_rows}
use tribe.Runner.Done.Judge.{AllGreen, judge_done_run_lem}
use tribe.Runner.Effects.{ShellRun, Scratch, verdict, result_of, run_commands, run_done}

-- The row records that the command ran at the commit and exited 0 in time.
abbrev pub shows : DoneRow → String → String → Bool
shows (command_row step attempt at tasks r) sha c =
    str_eq at sha && (str_eq r.command c && not (is_failure r))
shows (done_run_row step attempt at passed failed not_run) sha c = false

-- Some row of `done.jsonl` records it.
abbrev pub logged : List DoneRow → String → String → Bool
logged [] sha c = false
logged (r ∷ rs) sha c = shows r sha c || logged rs sha c

pub logged-append :
    (xs ys : List DoneRow) (sha c : String)
    → logged (xs ++ ys) sha c ≡ (logged xs sha c || logged ys sha c)
logged-append [] ys sha c = refl
logged-append (x ∷ xs) ys sha c = ground (arith, logged-append xs ys sha c)

green_logged :
    (step : String) (attempt : ℕ) (sha c : String) (shell : String → ShellRun)
    (planned : List PlannedCommand)
    → AllGreen (run_commands shell planned)
    → plans planned c ≡ true
    → logged (command_rows step attempt sha planned (run_commands shell planned)) sha c ≡ true
unfolding run_commands command_rows
green_logged step attempt sha c shell [] g h = ground (arith, h)
green_logged step attempt sha c shell (p ∷ ps) g h =
    elim (Bool-cases (is_failure (result_of p (shell p.command)))) [
      | inl e ↦ absurd (ground (arith, e, g))
      | inr e ↦
          let rest = subst (λ b. AllGreen (if b then [] else run_commands shell ps)) e g.1 in
          rw e (ground (arith, h, str_eq_self sha, green_logged step attempt sha c shell ps rest))
    ]

pub passed_logged :
    (step : String) (attempt : ℕ) (sha c : String) (shell : String → ShellRun)
    (planned : List PlannedCommand)
    → (judge_done_run planned (run_commands shell planned)).passed ≡ true
    → plans planned c ≡ true
    → let results = run_commands shell planned in
      logged (done_rows step attempt sha planned results (judge_done_run planned results)) sha c
      ≡ true
unfolding done_rows
passed_logged step attempt sha c shell planned p h =
    let results = run_commands shell planned in
    let (green, _) = (judge_done_run_lem planned results).0 p in
    logged-append (command_rows step attempt sha planned results) _ sha c
    ∙ ap (λ b. b || false) (green_logged step attempt sha c shell planned green h)

-- A verdict that comes back is the one on the commands, and the rows are its record.
pub run_verdict :
    (scratch : Scratch) (planned : List PlannedCommand) (sha id : String) (attempt : ℕ)
    (v : DoneRunVerdict)
    → (run_done scratch planned sha id attempt).0 ≡ verdict v
    → (v ≡ judge_done_run planned (run_commands scratch.shell planned))
      × ((run_done scratch planned sha id attempt).1
          ≡ done_rows id attempt sha planned (run_commands scratch.shell planned) v)
unfolding run_done
run_verdict scratch planned sha id attempt v e = elim (Option-cases scratch.checkout_failure) [
  | inl x ↦ elim (Option-cases scratch.cleanup_failure) [
    | inl y ↦
        let same : v ≡ judge_done_run planned (run_commands scratch.shell planned) =
          ground (arith, x, y, e) in
        (same, ground (arith, x, y, e, same))
    | inr (reason, y) ↦ absurd (ground (arith, x, y, e))
  ]
  | inr (reason, x) ↦ absurd (ground (arith, x, e))
]
