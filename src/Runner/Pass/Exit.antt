-- ===== src/Runner/Pass/Exit.antt =====
-- The exit code of a pass (run-loop.ts, `computeExitCode`), which the watchdog reads.
use tribe.Base.{
  ◌≡◌, ◌↔◌, refl, Bool, true, false, not, List, [], ◌∷◌, arith, Bool-cases, inl, inr, if◌then◌else◌,
  ◌||◌,
}
use mathlib.Core.Bool.{false≢true}
use tribe.Runner.Pass.{
  CardOutcome, shipped, escalated, escalation_pending, stopped, any_outcome, is_parked, is_stopped,
  compute_exit_code,
}

abbrev pub is_shipped_outcome : CardOutcome → Bool
is_shipped_outcome (shipped id) = true
is_shipped_outcome _ = false

abbrev pub all_shipped : List CardOutcome → Bool
all_shipped [] = true
all_shipped (o ∷ os) = if is_shipped_outcome o then all_shipped os else false

neither-all_shipped :
    (os : List CardOutcome)
    → any_outcome is_parked os ≡ false
    → any_outcome is_stopped os ≡ false
    → all_shipped os ≡ true
neither-all_shipped [] p s = refl
neither-all_shipped (shipped id ∷ os) p s = neither-all_shipped os p s
neither-all_shipped (escalated id ∷ os) p s = absurd (ground (arith, p))
neither-all_shipped (escalation_pending id ∷ os) p s = absurd (ground (arith, p))
neither-all_shipped (stopped id r c ∷ os) p s = absurd (ground (arith, s))

all_shipped-neither :
    (os : List CardOutcome)
    → all_shipped os ≡ true
    → (any_outcome is_parked os ≡ false) × (any_outcome is_stopped os ≡ false)
all_shipped-neither [] h = (refl, refl)
all_shipped-neither (shipped id ∷ os) h = all_shipped-neither os h
all_shipped-neither (escalated id ∷ os) h = absurd (false≢true h)
all_shipped-neither (escalation_pending id ∷ os) h = absurd (false≢true h)
all_shipped-neither (stopped id r c ∷ os) h = absurd (false≢true h)

all_shipped_value :
    (os : List CardOutcome)
    → all_shipped os ≡ not (any_outcome is_parked os || any_outcome is_stopped os)
all_shipped_value os = elim (Bool-cases (all_shipped os)) [
  | inl a ↦ ground (arith, a, all_shipped-neither os a)
  | inr a ↦ ground (arith, a, neither-all_shipped os)
]

-- The exit code of the outcomes that a pass has of the cards it attempted, whatever they are: it is 0
-- exactly if each of them is `shipped`, 2 exactly if some of them is `escalated` or
-- `escalation_pending`, and 3 exactly if neither holds.
pub compute_exit_code_lem :
    (os : List CardOutcome)
    → ((compute_exit_code os ≡ 0) ↔ (all_shipped os ≡ true))
      × ((compute_exit_code os ≡ 2) ↔ (any_outcome is_parked os ≡ true))
      × ((compute_exit_code os ≡ 3)
          ↔ ((all_shipped os ≡ false) × (any_outcome is_parked os ≡ false)))
unfolding compute_exit_code
compute_exit_code_lem os =
    let value = all_shipped_value os in
    (
      (λ h. ground (arith, h, value), λ h. ground (arith, h, value)),
      (λ h. ground (arith, h), λ h. ground (arith, h)),
      (λ h. (ground (arith, h, value), ground (arith, h)), λ (a, p). ground (arith, a, p, value)),
    )
