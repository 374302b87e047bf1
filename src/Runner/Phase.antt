-- ===== src/Runner/Phase.antt =====
-- `deriveCardPhase` of plugins/tribe/scripts/runner/core/loop/phase.ts: what is to be done for a card,
-- from what GitHub, git and the disk say of it. `gh pr view` answers the fields of its JSON.
pub mod Justified
mod Examples
use tribe.Base.{
  ℕ, String, Bool, true, false, not, ◌&&◌, ◌||◌, Option, none, some, List, [], ◌∷◌, ◌++◌, ltb, ◌==◌,
  length, str_eq, if◌then◌else◌, Text, codes, text_eq, split_on, trim, is_some,
}

-- The fields of a card that the phase depends on; a text that is empty counts as none.
pub record PhaseCard : Type 0 where
  pub branch : Option Text
  pub session_id : Option String

pub data ResumeReason : Type 0 where
  pr_open branch_no_pr session_only : ResumeReason

pub data CardPhase : Type 0 where
  verify_only : ℕ → CardPhase
  resume : String → ResumeReason → Option ℕ → CardPhase
  revert_and_redo escalation_pending : CardPhase
  -- Whether the session is told of what is there, and of which pull request.
  fresh : Option (Option ℕ) → CardPhase

pub record PrView : Type 0 where
  pub number : Option ℕ
  pub state : Option String

-- What the calls print: `json` is `none` where the output is not JSON.
pub record Facts : Type 0 where
  pub escalation_exists : Bool
  pub pr_exit_code : ℕ
  pub pr_json : Option PrView
  pub worktrees : Text
  pub remote_heads : Text

abbrev pub pr_of : Option PrView → Bool → Option PrView
pr_of found failed = if failed then none else found

-- `none` for `not_found`.
unfoldable pub query_pr_for_branch : Facts → Option PrView
query_pr_for_branch w = pr_of w.pr_json (not (w.pr_exit_code == 0))

abbrev pub some_line : (Text → Bool) → List Text → Bool
some_line p [] = false
some_line p (line ∷ lines) = p line || some_line p lines

-- `line.trim() === `branch refs/heads/${branch}``.
abbrev pub names_branch : Text → Text → Bool
names_branch branch line = text_eq (trim line) (codes "branch refs/heads/" ++ branch)

unfoldable pub worktree_exists : Facts → Text → Bool
worktree_exists w branch = some_line (names_branch branch) (split_on 10 w.worktrees)

unfoldable pub remote_exists : Facts → Bool
remote_exists w = ltb 0 (length (trim w.remote_heads))

unfoldable pub branch_or_worktree_exists : Facts → Text → Bool
branch_or_worktree_exists w branch = worktree_exists w branch || remote_exists w

abbrev pub is_state : String → Option String → Bool
is_state state none = false
is_state state (some s) = str_eq s state

abbrev pub has_state : String → Option PrView → Bool
has_state state none = false
has_state state (some pr) = is_state state pr.state

abbrev pub number_of : Option PrView → Option ℕ
number_of none = none
number_of (some pr) = pr.number

-- `resume` where a session is recorded, and `otherwise` where none is.
abbrev pub resume_or : Option String → ResumeReason → Option ℕ → CardPhase → CardPhase
resume_or none reason pr otherwise = otherwise
resume_or (some id) reason pr otherwise = resume id reason pr

abbrev pub without_pr : Facts → Option String → Text → CardPhase
without_pr w session_id branch =
    if branch_or_worktree_exists w branch
    then resume_or session_id branch_no_pr none revert_and_redo
    else fresh none

abbrev pub open_pr : Facts → Option String → Text → Option PrView → CardPhase
open_pr w session_id branch pr =
    if has_state "OPEN" pr
    then resume_or session_id pr_open (number_of pr) (fresh (some (number_of pr)))
    else without_pr w session_id branch

-- A pull request that is merged and whose number is known.
abbrev pub merged_number : Option PrView → Option ℕ
merged_number pr = if has_state "MERGED" pr then number_of pr else none

abbrev pub with_pr : Facts → Option String → Text → Option PrView → Option ℕ → CardPhase
with_pr w session_id branch pr (some number) = verify_only number
with_pr w session_id branch pr none = open_pr w session_id branch pr

abbrev pub for_branch : Facts → Option String → Option Text → CardPhase
for_branch w session_id none = resume_or session_id session_only none (fresh none)
for_branch w session_id (some branch) =
    let pr = query_pr_for_branch w in with_pr w session_id branch pr (merged_number pr)

unfoldable pub derive_card_phase : Bool → PhaseCard → Facts → CardPhase
derive_card_phase include_escalated card w =
    if not include_escalated && w.escalation_exists
    then escalation_pending
    else for_branch w card.session_id card.branch
