-- ===== src/Runner/Phase/Justified.antt =====
-- What each phase that `deriveCardPhase` (loop/phase.ts) answers says of the world.
use tribe.Base.{◌≡◌, ◌⊎◌, ℕ, String, Bool, true, false, Option, none, some, Text}
use tribe.Runner.Phase.{
  PhaseCard, ResumeReason, pr_open, branch_no_pr, session_only, CardPhase, verify_only, resume,
  revert_and_redo, escalation_pending, fresh, Facts, query_pr_for_branch, branch_or_worktree_exists,
  has_state, number_of, merged_number,
}

-- The pull request of the branch, in a state.
abbrev pub HasPr : String → Facts → Type 0
HasPr state w = has_state state (query_pr_for_branch w) ≡ true

-- No pull request of the branch is open, or merged with a number that could be read.
pub record NoPr (w : Facts) : Type 0 where
  pub not_merged : merged_number (query_pr_for_branch w) ≡ none
  pub not_open : has_state "OPEN" (query_pr_for_branch w) ≡ false

abbrev pub Resumed : PhaseCard → Facts → ResumeReason → Option ℕ → Type 0
Resumed card w pr_open pr =
    (branch : Text) × (card.branch ≡ some branch)
    × HasPr "OPEN" w
    × (pr ≡ number_of (query_pr_for_branch w))
Resumed card w branch_no_pr pr =
    (branch : Text) × (card.branch ≡ some branch)
    × NoPr w
    × (branch_or_worktree_exists w branch ≡ true)
    × (pr ≡ none)
Resumed card w session_only pr = (card.branch ≡ none) × (pr ≡ none)

-- A card that nothing is known of: neither branch nor session, or a branch that has no pull request,
-- no worktree and no remote branch.
abbrev pub NoTrace : PhaseCard → Facts → Type 0
NoTrace card w =
    ((card.branch ≡ none) × (card.session_id ≡ none))
    ⊎ ((branch : Text) × (card.branch ≡ some branch)
        × NoPr w
        × (branch_or_worktree_exists w branch ≡ false))

abbrev pub Justified : Bool → PhaseCard → Facts → CardPhase → Type 0
Justified include_escalated card w (verify_only number) =
    (branch : Text) × (card.branch ≡ some branch)
    × HasPr "MERGED" w
    × (number_of (query_pr_for_branch w) ≡ some number)
Justified include_escalated card w (resume id reason pr) =
    (card.session_id ≡ some id) × Resumed card w reason pr
Justified include_escalated card w revert_and_redo =
    (branch : Text) × (card.branch ≡ some branch)
    × (card.session_id ≡ none)
    × NoPr w
    × (branch_or_worktree_exists w branch ≡ true)
Justified include_escalated card w escalation_pending =
    (include_escalated ≡ false) × (w.escalation_exists ≡ true)
Justified include_escalated card w (fresh none) = NoTrace card w
Justified include_escalated card w (fresh (some number)) =
    (card.session_id ≡ none) × HasPr "OPEN" w × (number ≡ number_of (query_pr_for_branch w))
