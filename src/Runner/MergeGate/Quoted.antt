-- ===== src/Runner/MergeGate/Quoted.antt =====
-- `tokenizeShellCommand` of merge-gate.ts on lines of quoted words.
use tribe.Base.{
  is_space, ◌≡◌, refl, sym, ap, ◌∙◌, ℕ, true, false, ◌||◌, Option, none, some, List, [], ◌∷◌, ◌++◌,
  map, ◌==◌, Text, All, arith,
}
use mathlib.Core.List.{append-nil, append_assoc}
use tribe.Runner.MergeGate.Shell.{
  Tokenizer, step_bare, step_quoted, step, tokenize_from, tokenize_shell_command,
}

-- A word and the mark, `'` or `"`, that it is quoted with.
pub record Word : Type 0 where
  pub mark : ℕ
  pub text : Text

pub record IsWord (w : Word) : Type 0 where
  pub is_mark : (w.mark == b'"' || w.mark == b'\'') ≡ true
  pub unmarked : All (λ c. (c == w.mark) ≡ false) w.text

pub data Separator : Type 0 where
  and_then or_else semicolon pipe line_break : Separator

abbrev pub separator : Separator → Text
separator and_then = b'&' ∷ b'&' ∷ []
separator or_else = b'|' ∷ b'|' ∷ []
separator semicolon = b';' ∷ []
separator pipe = b'|' ∷ []
separator line_break = b'\n' ∷ []

-- The words of a command, each quoted and followed by a space.
abbrev pub print_words : List Word → Text
print_words [] = []
print_words (w ∷ ws) = w.mark ∷ (w.text ++ w.mark ∷ b' ' ∷ print_words ws)

-- A command: a first word, the others, and the separator behind it.
pub record Command : Type 0 where
  pub first : Word
  pub others : List Word
  pub ended : Separator

abbrev pub IsCommand : Command → Type 0
IsCommand c = IsWord c.first × All IsWord c.others

abbrev pub print : List Command → Text
print [] = []
print (c ∷ cs) = print_words (c.first ∷ c.others) ++ (separator c.ended ++ b' ' ∷ print cs)

abbrev pub words : Command → List Text
words c = map (λ w. w.text) (c.first ∷ c.others)

abbrev bare : List (List Text) → List Text → Tokenizer
bare done tokens = record {
  subcommands = done;
  current_tokens = tokens;
  current_token = [];
  has_token = false;
  quote = none;
  skip = false;
}

abbrev in_word : List (List Text) → List Text → Text → Option ℕ → Tokenizer
in_word done tokens token quote = record {
  subcommands = done;
  current_tokens = tokens;
  current_token = token;
  has_token = true;
  quote = quote;
  skip = false;
}

step_open :
    (done : List (List Text)) (tokens : List Text) (mark : ℕ) (rest : Text)
    → (mark == b'"' || mark == b'\'') ≡ true
    → step (bare done tokens) mark rest ≡ in_word done tokens [] (some mark)
unfolding step step_bare
step_open done tokens mark rest h = rw h refl

step_close :
    (done : List (List Text)) (tokens : List Text) (token : Text) (mark : ℕ) (rest : Text)
    → step (in_word done tokens token (some mark)) mark rest ≡ in_word done tokens token none
unfolding step step_quoted
step_close done tokens token mark rest =
    let same : (mark == mark) ≡ true = ground arith in rw same refl

step_inside :
    (done : List (List Text)) (tokens : List Text) (token : Text) (mark c : ℕ) (rest : Text)
    → (c == mark) ≡ false
    → step (in_word done tokens token (some mark)) c rest
      ≡ in_word done tokens (token ++ c ∷ []) (some mark)
unfolding step step_quoted
step_inside done tokens token mark c rest e = rw e refl

tokenize_span :
    (done : List (List Text)) (tokens : List Text) (token text : Text) (mark : ℕ) (rest : Text)
    → All (λ c. (c == mark) ≡ false) text
    → tokenize_from (in_word done tokens token (some mark)) (text ++ mark ∷ rest)
      ≡ tokenize_from (in_word done tokens (token ++ text) none) rest
unfolding tokenize_from
tokenize_span done tokens token [] mark rest h =
    ap (λ t. tokenize_from t rest) (step_close done tokens token mark rest)
    ∙ ap (λ x. tokenize_from (in_word done tokens x none) rest) (sym (append-nil token))
tokenize_span done tokens token (c ∷ text) mark rest (e, h) =
    ap (λ t. tokenize_from t (text ++ mark ∷ rest))
      (step_inside done tokens token mark c (text ++ mark ∷ rest) e)
    ∙ tokenize_span done tokens (token ++ c ∷ []) text mark rest h
    ∙ ap (λ x. tokenize_from (in_word done tokens x none) rest) (append_assoc token (c ∷ []) text)

tokenize_space :
    (done : List (List Text)) (tokens : List Text) (token : Text) (rest : Text)
    → tokenize_from (in_word done tokens token none) (b' ' ∷ rest)
      ≡ tokenize_from (bare done (tokens ++ token ∷ [])) rest
unfolding tokenize_from step step_bare is_space
tokenize_space done tokens token rest = refl

tokenize_words :
    (done : List (List Text)) (tokens : List Text) (ws : List Word) (rest : Text)
    → All IsWord ws
    → tokenize_from (bare done tokens) (print_words ws ++ rest)
      ≡ tokenize_from (bare done (tokens ++ map (λ w. w.text) ws)) rest
unfolding tokenize_from
tokenize_words done tokens [] rest h = rw append-nil refl
tokenize_words done tokens (w ∷ ws) rest (h, hs) =
    let behind = w.text ++ (w.mark ∷ b' ' ∷ (print_words ws ++ rest)) in
    ap (λ more. tokenize_from (bare done tokens) (w.mark ∷ more)) (append_assoc w.text _ rest)
    ∙ ap (λ t. tokenize_from t behind) (step_open done tokens w.mark behind h.is_mark)
    ∙ tokenize_span done tokens [] w.text w.mark (b' ' ∷ (print_words ws ++ rest)) h.unmarked
    ∙ tokenize_space done tokens w.text (print_words ws ++ rest)
    ∙ tokenize_words done (tokens ++ w.text ∷ []) ws rest hs
    ∙ ap (λ ts. tokenize_from (bare done ts) rest)
        (append_assoc tokens (w.text ∷ []) (map (λ v. v.text) ws))

tokenize_separator :
    (done : List (List Text)) (token : Text) (tokens : List Text) (s : Separator) (rest : Text)
    → tokenize_from (bare done (token ∷ tokens)) (separator s ++ b' ' ∷ rest)
      ≡ tokenize_from (bare (done ++ (token ∷ tokens) ∷ []) []) rest
unfolding tokenize_from step step_bare is_space
tokenize_separator done token tokens and_then rest = refl
tokenize_separator done token tokens or_else rest = refl
tokenize_separator done token tokens semicolon rest = refl
tokenize_separator done token tokens pipe rest = refl
tokenize_separator done token tokens line_break rest = refl

tokenize_print :
    (done : List (List Text)) (cs : List Command)
    → All IsCommand cs
    → tokenize_from (bare done []) (print cs) ≡ done ++ map words cs
unfolding tokenize_from
tokenize_print done [] h = sym (append-nil done)
tokenize_print done (c ∷ cs) (h, hs) =
    tokenize_words done [] (c.first ∷ c.others) (separator c.ended ++ b' ' ∷ print cs) h
    ∙ tokenize_separator done c.first.text (map (λ v. v.text) c.others) c.ended (print cs)
    ∙ tokenize_print (done ++ words c ∷ []) cs hs
    ∙ append_assoc done (words c ∷ []) (map words cs)

-- A line of commands, each of at least one word, the words quoted by either mark and the commands
-- ended by any of the separators, is read back as the commands' words, whatever characters other
-- than its own mark a word has: separators, spaces and the other mark among them.
pub tokenize_shell_command-print :
    (cs : List Command) → All IsCommand cs → tokenize_shell_command (print cs) ≡ map words cs
unfolding tokenize_shell_command
tokenize_shell_command-print cs h = tokenize_print [] cs h
