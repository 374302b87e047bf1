-- ===== src/Runner/Done/Judge.antt =====
-- What a passed Done run shows (done.ts).
use tribe.Base.{
  ◌≡◌, ◌≤◌, refl, true, false, none, List, [], ◌∷◌, length, arith, Option-cases, inl, inr, All, ◌↔◌,
}
use tribe.Runner.Model.{PlannedCommand, DoneCommandResult}
use tribe.Runner.Done.{is_failure, find_failed, judge_done_run}

abbrev pub AllGreen : List DoneCommandResult → Type 0
AllGreen results = All (λ r. is_failure r ≡ false) results

none_failed : (rs : List DoneCommandResult) → find_failed rs ≡ none → AllGreen rs
unfolding find_failed
none_failed [] h = tt
none_failed (r ∷ rs) h = elim (Option-cases (find_failed rs)) [
  | inl e ↦ (ground (arith, e, h), none_failed rs e)
  | inr (x, e) ↦ absurd (ground (arith, e, h))
]

green_none : (rs : List DoneCommandResult) → AllGreen rs → find_failed rs ≡ none
unfolding find_failed
green_none [] g = refl
green_none (r ∷ rs) g = ground (arith, g.0, green_none rs g.1)

-- A Done run passes exactly if every planned command has a result and every result exited 0 in time.
pub judge_done_run_lem :
    (planned : List PlannedCommand) (results : List DoneCommandResult)
    → ((judge_done_run planned results).passed ≡ true)
      ↔ (AllGreen results × (length planned ≤ length results))
unfolding judge_done_run
judge_done_run_lem planned results = elim (Option-cases (find_failed results)) [
  | inl e ↦ (λ h. (none_failed results e, ground (arith, e, h)), λ (g, l). ground (arith, e, l))
  | inr (x, e) ↦ (
    λ h. absurd (ground (arith, e, h)),
    λ (g, l). absurd (ground (arith, e, green_none results g)),
  )
]
