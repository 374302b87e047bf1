-- ===== src/Runner/MergeGate/Examples.antt =====
-- The theorems on the merge gate (plugins/tribe/scripts/runner/core/merge-gate.ts) at a merge of one
-- pull request and at a line of two quoted commands.
use tribe.Base.{◌≡◌, ◌↔◌, refl, some, List, [], ◌∷◌, map, All, String, Text, codes}
use tribe.Runner.MergeGate.Shell.{tokenize_shell_command}
use tribe.Runner.MergeGate.Quoted.{
  Command, IsCommand, and_then, pipe, print, words, tokenize_shell_command-print,
}
use tribe.Runner.MergeGate.Allowed.{Attempts, Clean, ProvenReply, decide_merge_gate_hook-Allows}
use tribe.Runner.MergeGate.{GateReply, ran, no_opinion, decide_merge_gate_hook, array}

abbrev bash : String
bash = "Bash"

abbrev merge_line : Text
merge_line = codes "cd repo && gh pr merge 12 --merge"

abbrev green : GateReply
green =
    ran
      (record {
        stdout = array (record { name = some "test"; state = some "SUCCESS" } ∷ []);
        exit_code = 0;
      })
      (record { head_ref_oid = some "abc"; exit_code = 0 }) (some "abc")

decide_merge_gate_hook-Allows_example :
    (decide_merge_gate_hook bash merge_line green ≡ no_opinion) ↔ (
      bash ≡ "Bash"
      → Attempts (tokenize_shell_command merge_line)
      → All Clean (tokenize_shell_command merge_line) × ProvenReply green)
decide_merge_gate_hook-Allows_example = decide_merge_gate_hook-Allows bash merge_line green

abbrev quoted_line : List Command
quoted_line =
    record {
      first = record { mark = b'"'; text = codes "git" };
      others = record { mark = b'\''; text = codes "a && b" } ∷ [];
      ended = and_then;
    }
    ∷ record { first = record { mark = b'\''; text = codes "cat" }; others = []; ended = pipe }
    ∷ []

quoted_line-IsCommand : All IsCommand quoted_line
quoted_line-IsCommand = (
  (
    record { is_mark = refl; unmarked = (refl, (refl, (refl, tt))) },
    (record { is_mark = refl; unmarked = (refl, (refl, (refl, (refl, (refl, (refl, tt)))))) }, tt),
  ),
  ((record { is_mark = refl; unmarked = (refl, (refl, (refl, tt))) }, tt), tt),
)

tokenize_shell_command-print_example :
    tokenize_shell_command (print quoted_line) ≡ map words quoted_line
tokenize_shell_command-print_example =
    tokenize_shell_command-print quoted_line quoted_line-IsCommand
