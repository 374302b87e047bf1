-- ===== src/Runner/MergeGate/Shell.antt =====
-- `tokenizeShellCommand` of plugins/tribe/scripts/runner/core/merge-gate.ts: the commands of a shell
-- line, each as its words, where a quoted span is part of one word.
use tribe.Base.{
  ℕ, Bool, true, false, ◌&&◌, ◌||◌, Option, none, some, List, [], ◌∷◌, ◌++◌, ◌==◌, if◌then◌else◌,
  Text, is_space,
}

-- The variables of the loop. `skip` is set at the first character of `&&` and `||`, where the
-- source steps by two.
pub record Tokenizer : Type 0 where
  pub subcommands : List (List Text)
  pub current_tokens : List Text
  pub current_token : Text
  pub has_token : Bool
  pub quote : Option ℕ
  pub skip : Bool

abbrev pub start : Tokenizer
start = record {
  subcommands = [];
  current_tokens = [];
  current_token = [];
  has_token = false;
  quote = none;
  skip = false;
}

abbrev pub flush_token : Tokenizer → Tokenizer
flush_token t =
    if t.has_token
    then record t {
      current_tokens = t.current_tokens ++ t.current_token ∷ [];
      current_token = [];
      has_token = false;
    }
    else t

-- `if (currentTokens.length > 0) subcommands.push(currentTokens)`.
abbrev pub push_tokens : List (List Text) → List Text → List (List Text)
push_tokens done [] = done
push_tokens done (token ∷ tokens) = done ++ (token ∷ tokens) ∷ []

abbrev pub flush_subcommand : Tokenizer → Tokenizer
flush_subcommand t =
    let flushed = flush_token t in
    record flushed {
      subcommands = push_tokens flushed.subcommands flushed.current_tokens;
      current_tokens = [];
    }

abbrev pub push_char : Tokenizer → ℕ → Tokenizer
push_char t c = record t { current_token = t.current_token ++ c ∷ []; has_token = true }

-- `command[i + 1] === c`.
abbrev pub next_is : ℕ → Text → Bool
next_is c [] = false
next_is c (d ∷ rest) = d == c

-- Outside quotes, at the character `c` with `rest` behind it.
unfoldable pub step_bare : Tokenizer → ℕ → Text → Tokenizer
step_bare t c rest =
    if c == b'"' || c == b'\''
    then record t { quote = some c; has_token = true }
    else if (c == b'&' && next_is b'&' rest) || (c == b'|' && next_is b'|' rest)
    then record (flush_subcommand t) { skip = true }
    else if c == b';' || c == b'|' || c == b'\n'
    then flush_subcommand t
    else if is_space c
    then flush_token t
    else push_char t c

unfoldable pub step_quoted : Tokenizer → ℕ → ℕ → Tokenizer
step_quoted t q c = if c == q then record t { quote = none } else push_char t c

abbrev step_in : Option ℕ → Tokenizer → ℕ → Text → Tokenizer
step_in none t c rest = step_bare t c rest
step_in (some q) t c rest = step_quoted t q c

unfoldable pub step : Tokenizer → ℕ → Text → Tokenizer
step t c rest = if t.skip then record t { skip = false } else step_in t.quote t c rest

unfoldable pub tokenize_from : Tokenizer → Text → List (List Text)
tokenize_from t [] = (flush_subcommand t).subcommands
tokenize_from t (c ∷ rest) = tokenize_from (step t c rest) rest

unfoldable pub tokenize_shell_command : Text → List (List Text)
tokenize_shell_command command = tokenize_from start command
