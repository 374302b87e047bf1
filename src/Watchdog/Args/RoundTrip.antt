-- ===== src/Watchdog/Args/RoundTrip.antt =====
-- `parseWatchdogArgs` (watchdog/args.ts) reads back each command line that is printed of a configuration.
use tribe.Base.{
  arith, ◌≡◌, refl, ◌∙◌, ℕ, sym, ap, All, Option, none, some, List, [], ◌∷◌, ◌++◌, Text, codes,
}
use mathlib.Core.List.{append-nil, append_assoc}
use tribe.Watchdog.Model.{WatchdogMode, once, follow}
use tribe.Watchdog.Args.{
  parse_bounded_int, ok, Collected, read_flag, read_value, read_tokens, nothing_collected,
  config_of, ParsedConfig, parse_watchdog_args,
}
use tribe.Watchdog.Args.Bounded.{IsBounded}
use tribe.Watchdog.Args.Decimals.{show, show-NotFlag, parse_bounded_int-show}
use tribe.Watchdog.Args.Print.{
  RunnerFlag, cards, max_cards, session_timeout, logs_dir, max_concurrent, remote, flag_text,
  IsValue, IsForwarded, nothing_more, include_escalated, with_value, IsPrintable, mode_flag,
  OwnFlag, repo, model, home, stall_minutes, max_quota_waits, max_overload_backoffs,
  max_crash_relaunches, quota_grace_seconds, poll_seconds, fallback_model, own_text, Pairs,
  print_own, texts_of, fallback_pairs, numbers_of, print,
}

abbrev Own : Type 0
Own = List (Text × Option Text)

-- The state between two flags.
abbrev reading : Own → List Text → Collected
reading own passthrough = record { own = own; passthrough = passthrough; pending = none }

abbrev collect : Pairs → Own → Own
collect [] own = own
collect ((f, v) ∷ pairs) own = collect pairs ((own_text f, some v) ∷ own)

-- A flag of the runner and its value are passed on.
value-read :
    (own : Own) (before rest : List Text) (f : RunnerFlag) (v : Text)
    → IsValue v
    → read_tokens (reading own before) (flag_text f ∷ v ∷ rest)
      ≡ read_tokens (reading own (before ++ flag_text f ∷ v ∷ [])) rest
unfolding read_tokens read_flag read_value
value-read own before rest cards v h = rw h refl
value-read own before rest max_cards v h = rw h refl
value-read own before rest session_timeout v h = rw h refl
value-read own before rest logs_dir v h = rw h refl
value-read own before rest max_concurrent v h = rw h refl
value-read own before rest remote v h = rw h refl

-- Reading the runner's flags passes them on in their order.
forwarded-read :
    (own : Own) (before ps rest : List Text)
    → IsForwarded ps
    → read_tokens (reading own before) (ps ++ rest) ≡ read_tokens (reading own (before ++ ps)) rest
unfolding read_tokens read_flag
forwarded-read own before [] rest nothing_more =
    ap (λ p. read_tokens (reading own p) rest) (sym (append-nil before))
forwarded-read own before (_ ∷ ps) rest (include_escalated more) =
    forwarded-read own (before ++ codes "--include-escalated" ∷ []) ps rest more
    ∙ ap (λ p. read_tokens (reading own p) rest)
        (append_assoc before (codes "--include-escalated" ∷ []) ps)
forwarded-read own before (_ ∷ _ ∷ ps) rest (with_value f v h more) =
    value-read own before (ps ++ rest) f v h
    ∙ forwarded-read own (before ++ flag_text f ∷ v ∷ []) ps rest more
    ∙ ap (λ p. read_tokens (reading own p) rest) (append_assoc before (flag_text f ∷ v ∷ []) ps)

own-read :
    (own : Own) (passthrough rest : List Text) (f : OwnFlag) (v : Text)
    → IsValue v
    → read_tokens (reading own passthrough) (own_text f ∷ v ∷ rest)
      ≡ read_tokens (reading ((own_text f, some v) ∷ own) passthrough) rest
unfolding read_tokens read_flag read_value
own-read own passthrough rest repo v h = rw h refl
own-read own passthrough rest model v h = rw h refl
own-read own passthrough rest home v h = rw h refl
own-read own passthrough rest stall_minutes v h = rw h refl
own-read own passthrough rest max_quota_waits v h = rw h refl
own-read own passthrough rest max_overload_backoffs v h = rw h refl
own-read own passthrough rest max_crash_relaunches v h = rw h refl
own-read own passthrough rest quota_grace_seconds v h = rw h refl
own-read own passthrough rest poll_seconds v h = rw h refl
own-read own passthrough rest fallback_model v h = rw h refl

pairs-read :
    (own : Own) (passthrough rest : List Text) (pairs : Pairs)
    → All (λ p. IsValue p.1) pairs
    → read_tokens (reading own passthrough) (print_own pairs rest)
      ≡ read_tokens (reading (collect pairs own) passthrough) rest
pairs-read own passthrough rest [] _ = refl
pairs-read own passthrough rest ((f, v) ∷ pairs) (h, hs) =
    own-read own passthrough (print_own pairs rest) f v h
    ∙ pairs-read ((own_text f, some v) ∷ own) passthrough rest pairs hs

mode-read :
    (own : Own) (passthrough rest : List Text) (mode : WatchdogMode)
    → read_tokens (reading own passthrough) (mode_flag mode ∷ rest)
      ≡ read_tokens (reading ((mode_flag mode, none) ∷ own) passthrough) rest
unfolding read_tokens read_flag
mode-read own passthrough rest once = refl
mode-read own passthrough rest follow = refl

-- What is collected of the printed command line.
abbrev collected : ParsedConfig → Own
collected c = collect (numbers_of c) ((mode_flag c.mode, none) ∷ collect (texts_of c) [])

fallback-values :
    (o : Option Text)
    → ((v : Text) → o ≡ some v → IsValue v)
    → All (λ p. IsValue p.1) (fallback_pairs o)
fallback-values none h = tt
fallback-values (some v) h = (h v refl, tt)

end-read : (own : Own) (ps : List Text) → read_tokens (reading own ps) [] ≡ ok (reading own ps)
unfolding read_tokens
end-read own ps = refl

read_tokens-print :
    (c : ParsedConfig)
    → IsPrintable c
    → read_tokens nothing_collected (print c) ≡ ok (reading (collected c) c.passthrough)
unfolding print
read_tokens-print c p =
    let numbers : All (λ p. IsValue p.1) (numbers_of c) = (
      show-NotFlag c.stall_minutes,
      (
        show-NotFlag c.max_quota_waits,
        (
          show-NotFlag c.max_overload_backoffs,
          (
            show-NotFlag c.max_crash_relaunches,
            (
              show-NotFlag c.quota_grace_seconds,
              (show-NotFlag c.poll_seconds, fallback-values c.fallback_model p.fallback_model),
            ),
          ),
        ),
      ),
    ) in
    forwarded-read [] [] c.passthrough _ p.passthrough
    ∙ pairs-read [] c.passthrough _ (texts_of c) (p.repo_root, (p.model, (p.raw_home, tt)))
    ∙ mode-read (collect (texts_of c) []) c.passthrough _ c.mode
    ∙ pairs-read ((mode_flag c.mode, none) ∷ collect (texts_of c) []) c.passthrough []
        (numbers_of c) numbers
    ∙ end-read (collected c) c.passthrough

-- The number is read back as the value of the flag.
abbrev ReadsBack : Text → ℕ → ℕ → ℕ → Type 0
ReadsBack flag lowest highest n =
    parse_bounded_int flag (record { lowest = lowest; highest = highest }) (show n) ≡ ok n

numbers-parsed :
    (c : ParsedConfig)
    → IsBounded c
    → ReadsBack (codes "--stall-minutes") 1 1440 c.stall_minutes
      × ReadsBack (codes "--max-quota-waits") 0 100 c.max_quota_waits
      × ReadsBack (codes "--max-overload-backoffs") 0 100 c.max_overload_backoffs
      × ReadsBack (codes "--max-crash-relaunches") 0 100 c.max_crash_relaunches
      × ReadsBack (codes "--quota-grace-seconds") 0 3600 c.quota_grace_seconds
      × ReadsBack (codes "--poll-seconds") 1 60 c.poll_seconds
numbers-parsed c b = (
  parse_bounded_int-show _ _ c.stall_minutes b.stall,
  parse_bounded_int-show _ _ c.max_quota_waits (omega arith, b.quota_waits),
  parse_bounded_int-show _ _ c.max_overload_backoffs (omega arith, b.overload_backoffs),
  parse_bounded_int-show _ _ c.max_crash_relaunches (omega arith, b.crash_relaunches),
  parse_bounded_int-show _ _ c.quota_grace_seconds (omega arith, b.quota_grace),
  parse_bounded_int-show _ _ c.poll_seconds b.poll,
)

config_of-chosen :
    (c : ParsedConfig) (m : WatchdogMode) (f : Option Text)
    → IsBounded c
    → config_of (collected (record c { mode = m; fallback_model = f })) c.passthrough
      ≡ ok (record c { mode = m; fallback_model = f })
unfolding config_of
config_of-chosen c once none b =
    let (stall, quota, overload, crash, grace, poll) = numbers-parsed c b in
    rw (stall, quota, overload, crash, grace, poll) refl
config_of-chosen c once (some v) b =
    let (stall, quota, overload, crash, grace, poll) = numbers-parsed c b in
    rw (stall, quota, overload, crash, grace, poll) refl
config_of-chosen c follow none b =
    let (stall, quota, overload, crash, grace, poll) = numbers-parsed c b in
    rw (stall, quota, overload, crash, grace, poll) refl
config_of-chosen c follow (some v) b =
    let (stall, quota, overload, crash, grace, poll) = numbers-parsed c b in
    rw (stall, quota, overload, crash, grace, poll) refl

-- Each configuration that is printed is read back as it is, where its texts are not the tokens of
-- flags, its numbers are within their bounds, and what it passes on are the runner's flags with
-- their values: every number, the mode and the fallback model, given or not, and the passed on flags
-- in their order.
pub parse_watchdog_args-print :
    (c : ParsedConfig) → IsPrintable c → parse_watchdog_args (print c) ≡ ok c
unfolding parse_watchdog_args
parse_watchdog_args-print c p =
    rw (read_tokens-print c p) (config_of-chosen c c.mode c.fallback_model p.bounded)
