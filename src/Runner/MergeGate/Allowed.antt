-- ===== src/Runner/MergeGate/Allowed.antt =====
-- When `decideMergeGateHook` of merge-gate.ts has no objection to a command.
use tribe.Base.{
  ◌≡◌, subst, ◌⊎◌, ◌↔◌, refl, sym, ap, ◌∙◌, String, true, Option, none, some, List, [], ◌∷◌, All,
  Text, Bool-cases, Option-cases, inl, inr, str_eq, str_eq_iff,
}
use mathlib.Core.Bool.{false≢true}
use mathlib.Core.Option.{none-ne-some}
use mathlib.Core.Option
use mathlib.Core.List.{cons≢nil, nil≢cons}
use tribe.Runner.MergeGate.Checks.{Proven, is_denied, not_denied, judge_exec-Proven}
use tribe.Runner.MergeGate.Shell.{tokenize_shell_command}
use tribe.Runner.MergeGate.Invokes.{
  Merges, IsForbidden, after_merge-Merges, after_merge-first, after_merge-none,
  read_arguments-clean,
}
use tribe.Runner.MergeGate.{
  ForbiddenFlag, Invocation, no_arguments, after_merge, read_arguments, extract_merge_invocation,
  invocations, ParsedMergeCommand, merge_invocations, parsed_of, parse_merge_command, or_else,
  judge_exec, head_sha_of, answer, decide_command, decide_parsed, no_exec, rejected, no_opinion,
  GateReply, ran, build_merge_gate_decision, decide_merge_gate_hook,
}

-- One of the commands of the line has `gh pr merge` among its words.
abbrev pub Attempts : List (List Text) → Type 0
Attempts [] = ⊥
Attempts (tokens ∷ more) = ((rest : List Text) × Merges tokens rest) ⊎ Attempts more

-- No forbidden flag stands behind a `gh pr merge`, in any command of the line.
abbrev pub Clean : List Text → Type 0
Clean tokens = (rest : List Text) → Merges tokens rest → All (λ t. IsForbidden t → ⊥) rest

abbrev pub ProvenReply : GateReply → Type 0
ProvenReply (ran checks head done_sha) = Proven checks head done_sha
ProvenReply _ = ⊥

-- The invocations have no forbidden flag.
abbrev NoFlags : List Invocation → Type 0
NoFlags is = All (λ i. i.forbidden_flag ≡ none) is

flag-Clean :
    (tokens first : List Text)
    → after_merge tokens ≡ some first
    → ((read_arguments no_arguments first).forbidden_flag ≡ none) ↔ Clean tokens
flag-Clean tokens first e =
    let words = read_arguments-clean no_arguments first in
    (
      λ q rest m. after_merge-first (λ t. IsForbidden t → ⊥) tokens first rest e m (words.0 q).1,
      λ c. words.1 (refl, c first (after_merge-Merges tokens first e)),
    )

extracted :
    (tokens : List Text) (o : Option (List Text))
    → after_merge tokens ≡ o
    → extract_merge_invocation tokens ≡ Option.map (read_arguments no_arguments) o
unfolding extract_merge_invocation
extracted tokens o e = ap (Option.map (read_arguments no_arguments)) e

invocations-Attempts : (subs : List (List Text)) → invocations subs ≡ [] → Attempts subs → ⊥
unfolding invocations
invocations-Attempts [] e a = a
invocations-Attempts (tokens ∷ more) e a = elim (Option-cases (after_merge tokens)) [
  | inl none_there ↦ elim a [
    | inl (rest, m) ↦ after_merge-none tokens rest none_there m
    | inr later ↦ invocations-Attempts more (rw (extracted tokens none none_there) at e) later
  ]
  | inr (first, there) ↦ cons≢nil (rw (extracted tokens (some first) there) at e)
]

Attempts-invocations :
    (subs : List (List Text)) (i : Invocation) (more : List Invocation)
    → invocations subs ≡ i ∷ more
    → Attempts subs
unfolding invocations
Attempts-invocations [] i more e = absurd (nil≢cons e)
Attempts-invocations (tokens ∷ subs) i more e = elim (Option-cases (after_merge tokens)) [
  | inl none_there ↦
      inr (Attempts-invocations subs i more (rw (extracted tokens none none_there) at e))
  | inr (first, there) ↦ inl (first, after_merge-Merges tokens first there)
]

invocations-NoFlags : (subs : List (List Text)) → NoFlags (invocations subs) ↔ All Clean subs
unfolding invocations
invocations-NoFlags [] = (λ h. h, λ h. h)
invocations-NoFlags (tokens ∷ subs) =
    let later = invocations-NoFlags subs in
    elim (Option-cases (after_merge tokens)) [
      | inl none_there ↦ rw (extracted tokens none none_there) (
        λ h. (λ rest m. absurd (after_merge-none tokens rest none_there m), later.0 h),
        λ h. later.1 h.1,
      )
      | inr (first, there) ↦ rw (extracted tokens (some first) there) (
        λ h. ((flag-Clean tokens first there).0 h.0, later.0 h.1),
        λ h. ((flag-Clean tokens first there).1 h.0, later.1 h.1),
      )
    ]

or_else-none : {A : Type 0} (o p : Option A) → (or_else o p ≡ none) ↔ ((o ≡ none) × (p ≡ none))
or_else-none none p = (λ e. (refl, e), λ h. h.1)
or_else-none (some a) p = (λ e. absurd (none-ne-some a (sym e)), λ h. h.0)

merge_invocations_lem :
    (parsed : ParsedMergeCommand) (is : List Invocation)
    → ((merge_invocations parsed is).is_merge ≡ parsed.is_merge)
      × (((merge_invocations parsed is).forbidden_flag ≡ none)
          ↔ ((parsed.forbidden_flag ≡ none) × NoFlags is))
unfolding merge_invocations
merge_invocations_lem parsed [] = (refl, (λ e. (e, tt), λ h. h.0))
merge_invocations_lem parsed (i ∷ is) =
    let (same, flags) =
      merge_invocations_lem
        (record parsed {
          pr_ref = or_else parsed.pr_ref i.pr_ref;
          forbidden_flag = or_else parsed.forbidden_flag i.forbidden_flag;
        })
        is in
    let both = or_else-none parsed.forbidden_flag i.forbidden_flag in
    (
      same,
      (
        λ e. let (a, b) = flags.0 e in let (c, d) = both.0 a in (c, (d, b)),
        λ h. flags.1 (both.1 (h.0, h.1.0), h.1.1),
      ),
    )

parsed_of_lem :
    (i : Invocation) (is : List Invocation)
    → ((parsed_of (i ∷ is)).is_merge ≡ true)
      × (((parsed_of (i ∷ is)).forbidden_flag ≡ none) ↔ NoFlags (i ∷ is))
parsed_of_lem i is =
    let (same, flags) =
      merge_invocations_lem (record { is_merge = true; pr_ref = none; forbidden_flag = none })
        (i ∷ is) in
    (same, (λ e. (flags.0 e).1, λ h. flags.1 (refl, h)))

answer-Proven :
    (parsed : ParsedMergeCommand) (reply : GateReply)
    → parsed.is_merge ≡ true
    → parsed.forbidden_flag ≡ none
    → (answer parsed reply ≡ no_opinion) ↔ ProvenReply reply
unfolding build_merge_gate_decision
answer-Proven parsed no_exec m f =
    (λ q. not_denied (answer parsed no_exec) (rw (m, f) refl) q, λ p. elim p [ ])
answer-Proven parsed rejected m f =
    (λ q. not_denied (answer parsed rejected) (rw (m, f) refl) q, λ p. elim p [ ])
answer-Proven parsed (ran checks head done_sha) m f =
    let judged : answer parsed (ran checks head done_sha)
        ≡ judge_exec parsed (some checks) (head_sha_of head) done_sha =
      rw (m, f) refl in
    rw judged (judge_exec-Proven parsed checks head done_sha)

unflagged :
    (parsed : ParsedMergeCommand) (reply : GateReply)
    → parsed.is_merge ≡ true
    → parsed.forbidden_flag ≡ none
    → decide_parsed parsed reply ≡ answer parsed reply
unflagged parsed reply m f = rw (m, f) refl

flagged :
    (parsed : ParsedMergeCommand) (reply : GateReply) (flag : ForbiddenFlag)
    → parsed.is_merge ≡ true
    → parsed.forbidden_flag ≡ some flag
    → is_denied (decide_parsed parsed reply) ≡ true
unfolding build_merge_gate_decision
flagged parsed reply flag m f = rw (m, f) refl

-- The gate on a line of commands whose invocations are known.
decided :
    (command : Text) (reply : GateReply) (is : List Invocation)
    → invocations (tokenize_shell_command command) ≡ is
    → decide_command command reply ≡ decide_parsed (parsed_of is) reply
unfolding parse_merge_command
decided command reply is e = ap (λ js. decide_parsed (parsed_of js) reply) e

decide_command-Allows :
    (command : Text) (reply : GateReply) (is : List Invocation)
    → invocations (tokenize_shell_command command) ≡ is
    → (decide_command command reply ≡ no_opinion) ↔ (
        Attempts (tokenize_shell_command command)
        → All Clean (tokenize_shell_command command) × ProvenReply reply)
decide_command-Allows command reply [] e = (
  λ q a. absurd (invocations-Attempts (tokenize_shell_command command) e a),
  λ h. decided command reply [] e,
)
decide_command-Allows command reply (i ∷ is) e =
    let subs = tokenize_shell_command command in
    let attempt = Attempts-invocations subs i is e in
    let (merge, flags) = parsed_of_lem i is in
    let clean : NoFlags (i ∷ is) ↔ All Clean subs =
      subst (λ js. NoFlags js ↔ All Clean subs) e (invocations-NoFlags subs) in
    rw (decided command reply (i ∷ is) e) (elim (Option-cases (parsed_of (i ∷ is)).forbidden_flag) [
      | inl f ↦
          let open_gate : decide_parsed (parsed_of (i ∷ is)) reply
              ≡ answer (parsed_of (i ∷ is)) reply =
            unflagged (parsed_of (i ∷ is)) reply merge f in
          let proven = answer-Proven (parsed_of (i ∷ is)) reply merge f in
          (
            λ q a. (clean.0 (flags.0 f), proven.0 (sym open_gate ∙ q)),
            λ h. open_gate ∙ proven.1 (h attempt).1,
          )
      | inr (flag, f) ↦ (
        λ q.
            not_denied (decide_parsed (parsed_of (i ∷ is)) reply)
              (flagged (parsed_of (i ∷ is)) reply flag merge f) q,
        λ h. absurd (none-ne-some flag (sym (flags.1 (clean.1 (h attempt).0)) ∙ f)),
      )
    ])

-- The gate has no objection to a tool call exactly when it is no Bash call, or no command of the line
-- has `gh pr merge` among its words, or else: no forbidden flag (`--auto`, `--admin`, alone or with a
-- value other than `false`) stands behind a `gh pr merge` in any command of the line, `gh pr checks`
-- has exited 0 and printed at least one check and only successful ones, and the head of the pull
-- request was read and is the commit whose Done commands have passed last.
pub decide_merge_gate_hook-Allows :
    (tool_name : String) (command : Text) (reply : GateReply)
    → (decide_merge_gate_hook tool_name command reply ≡ no_opinion) ↔ (
        tool_name ≡ "Bash"
        → Attempts (tokenize_shell_command command)
        → All Clean (tokenize_shell_command command) × ProvenReply reply)
unfolding decide_merge_gate_hook
decide_merge_gate_hook-Allows tool_name command reply =
    elim (Bool-cases (str_eq tool_name "Bash")) [
      | inl bash ↦
          let judged =
            decide_command-Allows command reply (invocations (tokenize_shell_command command))
              refl in
          rw bash (λ q _. judged.0 q, λ h. judged.1 (h ((str_eq_iff tool_name "Bash").0 bash)))
      | inr other ↦
          rw other
            (λ q b. absurd (false≢true (sym other ∙ (str_eq_iff tool_name "Bash").1 b)), λ h. refl)
    ]
