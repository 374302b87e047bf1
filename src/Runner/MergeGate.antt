-- ===== src/Runner/MergeGate.antt =====
-- plugins/tribe/scripts/runner/core/merge-gate.ts and `decideMergeGateHook` of session.ts: whether a
-- session's Bash command may merge a pull request.
pub mod Shell
pub mod Quoted
pub mod Invokes
pub mod Checks
pub mod Allowed
mod Examples
use tribe.Base.{
  ℕ, String, Bool, true, false, not, ◌&&◌, ◌||◌, Option, none, some, List, [], ◌∷◌, ◌++◌, ◌==◌,
  length, drop, str_eq, if◌then◌else◌, Text, codes, text_eq, starts_with, is_some,
}
use mathlib.Core.Option
use tribe.Runner.MergeGate.Shell.{tokenize_shell_command}

pub data ForbiddenFlag : Type 0 where
  auto admin : ForbiddenFlag

abbrev pub flag_name : ForbiddenFlag → Text
flag_name auto = codes "--auto"
flag_name admin = codes "--admin"

-- One turn of the loop over `FORBIDDEN_FLAG_NAMES`.
abbrev pub is_flag : ForbiddenFlag → Text → Bool
is_flag flag token =
    text_eq token (flag_name flag)
    || (starts_with token (flag_name flag ++ codes "=")
        && not (text_eq (drop (length (flag_name flag ++ codes "=")) token) (codes "false")))

unfoldable pub match_forbidden_flag : Text → Option ForbiddenFlag
match_forbidden_flag token =
    if is_flag auto token then some auto else if is_flag admin token then some admin else none

pub record Invocation : Type 0 where
  pub pr_ref : Option Text
  pub forbidden_flag : Option ForbiddenFlag

abbrev pub or_else {ℓ} : {A : Type ℓ} → Option A → Option A → Option A
or_else none later = later
or_else (some a) later = some a

-- The tokens behind `gh`, `pr`, `merge`, if the list begins so.
unfoldable pub merge_here : List Text → Option (List Text)
merge_here (gh ∷ pr ∷ merge ∷ rest) =
    if text_eq gh (codes "gh") && text_eq pr (codes "pr") && text_eq merge (codes "merge")
    then some rest
    else none
merge_here _ = none

-- The tokens behind the first `gh`, `pr`, `merge` in a row.
unfoldable pub after_merge : List Text → Option (List Text)
after_merge [] = none
after_merge (token ∷ tokens) = or_else (merge_here (token ∷ tokens)) (after_merge tokens)

abbrev pub read_flag : Option ForbiddenFlag → Invocation → Text → Invocation
read_flag (some flag) seen token = record seen { forbidden_flag = some flag }
read_flag none seen token =
    if not (starts_with token (codes "-")) && not (is_some seen.pr_ref)
    then record seen { pr_ref = some token }
    else seen

unfoldable pub read_arguments : Invocation → List Text → Invocation
read_arguments seen [] = seen
read_arguments seen (token ∷ tokens) =
    read_arguments (read_flag (match_forbidden_flag token) seen token) tokens

abbrev pub no_arguments : Invocation
no_arguments = record { pr_ref = none; forbidden_flag = none }

unfoldable pub extract_merge_invocation : List Text → Option Invocation
extract_merge_invocation tokens = Option.map (read_arguments no_arguments) (after_merge tokens)

abbrev pub cons_some {ℓ} : {A : Type ℓ} → Option A → List A → List A
cons_some none xs = xs
cons_some (some x) xs = x ∷ xs

-- `.map(extractMergeInvocation).filter(…)`.
unfoldable pub invocations : List (List Text) → List Invocation
invocations [] = []
invocations (tokens ∷ more) = cons_some (extract_merge_invocation tokens) (invocations more)

pub record ParsedMergeCommand : Type 0 where
  pub is_merge : Bool
  pub pr_ref : Option Text
  pub forbidden_flag : Option ForbiddenFlag

-- The loop over the invocations.
unfoldable pub merge_invocations : ParsedMergeCommand → List Invocation → ParsedMergeCommand
merge_invocations parsed [] = parsed
merge_invocations parsed (i ∷ more) =
    merge_invocations
      (record parsed {
        pr_ref = or_else parsed.pr_ref i.pr_ref;
        forbidden_flag = or_else parsed.forbidden_flag i.forbidden_flag;
      })
      more

abbrev pub parsed_of : List Invocation → ParsedMergeCommand
parsed_of [] = record { is_merge = false; pr_ref = none; forbidden_flag = none }
parsed_of (i ∷ more) =
    merge_invocations (record { is_merge = true; pr_ref = none; forbidden_flag = none }) (i ∷ more)

unfoldable pub parse_merge_command : Text → ParsedMergeCommand
parse_merge_command command = parsed_of (invocations (tokenize_shell_command command))

-- An entry of `gh pr checks --json name,state`, a field `none` when it is not a text.
pub record CheckEntry : Type 0 where
  pub name : Option String
  pub state : Option String

-- What the output of `gh pr checks` is to `JSON.parse`.
pub data ChecksJson : Type 0 where
  not_json not_array : ChecksJson
  array : List CheckEntry → ChecksJson

-- What is not green: an entry for a check, or why there is nothing to judge.
pub data NotGreen : Type 0 where
  not_valid_json no_checks : NotGreen
  check_state : String → String → NotGreen

pub record JudgeChecksResult : Type 0 where
  pub all_green : Bool
  pub not_green : List NotGreen

abbrev pub text_or_unknown : Option String → String
text_or_unknown none = "unknown"
text_or_unknown (some s) = s

unfoldable pub red_checks : List CheckEntry → List NotGreen
red_checks [] = []
red_checks (entry ∷ entries) =
    let rest = red_checks entries in
    if str_eq (text_or_unknown entry.state) "SUCCESS"
    then rest
    else check_state (text_or_unknown entry.name) (text_or_unknown entry.state) ∷ rest

abbrev pub is_empty {ℓ} : {A : Type ℓ} → List A → Bool
is_empty [] = true
is_empty (x ∷ xs) = false

unfoldable pub judge_checks : ChecksJson → JudgeChecksResult
judge_checks not_json = record { all_green = false; not_green = not_valid_json ∷ [] }
judge_checks not_array = record { all_green = false; not_green = no_checks ∷ [] }
judge_checks (array []) = record { all_green = false; not_green = no_checks ∷ [] }
judge_checks (array (entry ∷ entries)) =
    let red = red_checks (entry ∷ entries) in record { all_green = is_empty red; not_green = red }

pub record ChecksExec : Type 0 where
  pub stdout : ChecksJson
  pub exit_code : ℕ

pub data DenyReason : Type 0 where
  forbidden_flag_reason checks_error_reason : DenyReason
  not_green_reason : Option Text → List NotGreen → DenyReason
  head_not_done_reason : Option String → Option String → DenyReason

-- `{}`, no opinion, or `deny(reason)`.
pub data HookDecision : Type 0 where
  no_opinion : HookDecision
  deny : DenyReason → HookDecision

-- `!!headSha && !!doneSha && headSha === doneSha`; the empty text is falsy.
abbrev pub is_done_commit : Option String → Option String → Bool
is_done_commit (some head_sha) (some done_sha) =
    not (str_eq head_sha "") && not (str_eq done_sha "") && str_eq head_sha done_sha
is_done_commit _ _ = false

abbrev pub judge_head : Option String → Option String → HookDecision
judge_head head_sha done_sha =
    if is_done_commit head_sha done_sha
    then no_opinion
    else deny (head_not_done_reason head_sha done_sha)

abbrev pub judge_exec :
    ParsedMergeCommand → Option ChecksExec → Option String → Option String → HookDecision
judge_exec parsed none head_sha done_sha = deny checks_error_reason
judge_exec parsed (some exec) head_sha done_sha =
    let judged = judge_checks exec.stdout in
    if not (exec.exit_code == 0)
    then deny checks_error_reason
    else if not judged.all_green
    then deny (not_green_reason parsed.pr_ref judged.not_green)
    else judge_head head_sha done_sha

unfoldable pub build_merge_gate_decision :
    ParsedMergeCommand → Option ChecksExec → Option String → Option String → HookDecision
build_merge_gate_decision parsed checks_exec head_sha done_sha =
    if not parsed.is_merge
    then no_opinion
    else if is_some parsed.forbidden_flag
    then deny forbidden_flag_reason
    else judge_exec parsed checks_exec head_sha done_sha

-- `gh pr view --json headRefOid`, its `stdout` as the text of that field, `none` for anything else.
pub record HeadExec : Type 0 where
  pub head_ref_oid : Option String
  pub exit_code : ℕ

-- What the session's capabilities answer to a merge attempt: no way to run a command, a command that
-- is rejected, or what both commands print and the commit that the runner last passed.
pub data GateReply : Type 0 where
  no_exec rejected : GateReply
  ran : ChecksExec → HeadExec → Option String → GateReply

-- `headExec.exitCode === 0 ? parseHeadRefOid(headExec.stdout) : null`.
abbrev pub head_sha_of : HeadExec → Option String
head_sha_of exec = if exec.exit_code == 0 then exec.head_ref_oid else none

abbrev pub answer : ParsedMergeCommand → GateReply → HookDecision
answer parsed no_exec = build_merge_gate_decision parsed none none none
answer parsed rejected = build_merge_gate_decision parsed none none none
answer parsed (ran checks head done_sha) =
    build_merge_gate_decision parsed (some checks) (head_sha_of head) done_sha

abbrev pub decide_parsed : ParsedMergeCommand → GateReply → HookDecision
decide_parsed parsed reply =
    if not parsed.is_merge
    then no_opinion
    else if is_some parsed.forbidden_flag
    then build_merge_gate_decision parsed none none none
    else answer parsed reply

abbrev pub decide_command : Text → GateReply → HookDecision
decide_command command reply = decide_parsed (parse_merge_command command) reply

-- A missing tool name or command is the empty text.
unfoldable pub decide_merge_gate_hook : String → Text → GateReply → HookDecision
decide_merge_gate_hook tool_name command reply =
    if not (str_eq tool_name "Bash") then no_opinion else decide_command command reply
