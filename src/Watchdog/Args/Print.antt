-- ===== src/Watchdog/Args/Print.antt =====
-- A command line for each configuration that `parseWatchdogArgs` (watchdog/args.ts) can answer.
use tribe.Base.{◌≡◌, false, Option, none, some, List, [], ◌∷◌, ◌++◌, Text, codes}
use tribe.Watchdog.Model.{WatchdogMode, once, follow}
use tribe.Watchdog.Args.{has, all_flag_tokens, ParsedConfig}
use tribe.Watchdog.Args.Bounded.{IsBounded}
use tribe.Watchdog.Args.Decimals.{show}

-- A flag of the runner that takes a value.
pub data RunnerFlag : Type 0 where
  cards max_cards session_timeout logs_dir max_concurrent remote : RunnerFlag

abbrev pub flag_text : RunnerFlag → Text
flag_text cards = codes "--cards"
flag_text max_cards = codes "--max-cards"
flag_text session_timeout = codes "--session-timeout"
flag_text logs_dir = codes "--logs-dir"
flag_text max_concurrent = codes "--max-concurrent"
flag_text remote = codes "--remote"

-- A value that is not the token of a flag.
abbrev pub IsValue : Text → Type 0
IsValue v = has all_flag_tokens v ≡ false

-- The flags of the runner with their values.
pub data IsForwarded : List Text → Type 0 where
  nothing_more : IsForwarded []
  include_escalated :
      {ps : List Text} → IsForwarded ps → IsForwarded (codes "--include-escalated" ∷ ps)
  with_value :
      {ps : List Text} (f : RunnerFlag) (v : Text)
      → IsValue v
      → IsForwarded ps
      → IsForwarded (flag_text f ∷ v ∷ ps)

pub record IsPrintable (c : ParsedConfig) : Type 0 where
  pub repo_root : IsValue c.repo_root
  pub model : IsValue c.model
  pub raw_home : IsValue c.raw_home
  pub fallback_model : (v : Text) → c.fallback_model ≡ some v → IsValue v
  pub bounded : IsBounded c
  pub passthrough : IsForwarded c.passthrough

abbrev pub mode_flag : WatchdogMode → Text
mode_flag once = codes "--once"
mode_flag follow = codes "--follow"

-- A flag of the watchdog that takes a value.
pub data OwnFlag : Type 0 where
  repo model home stall_minutes max_quota_waits max_overload_backoffs max_crash_relaunches : OwnFlag
  quota_grace_seconds poll_seconds fallback_model : OwnFlag

abbrev pub own_text : OwnFlag → Text
own_text repo = codes "--repo"
own_text model = codes "--model"
own_text home = codes "--home"
own_text stall_minutes = codes "--stall-minutes"
own_text max_quota_waits = codes "--max-quota-waits"
own_text max_overload_backoffs = codes "--max-overload-backoffs"
own_text max_crash_relaunches = codes "--max-crash-relaunches"
own_text quota_grace_seconds = codes "--quota-grace-seconds"
own_text poll_seconds = codes "--poll-seconds"
own_text fallback_model = codes "--fallback-model"

abbrev pub Pairs : Type 0
Pairs = List (OwnFlag × Text)

-- The flags with their values, before the rest of the command line.
abbrev pub print_own : Pairs → List Text → List Text
print_own [] rest = rest
print_own ((f, v) ∷ pairs) rest = own_text f ∷ v ∷ print_own pairs rest

abbrev pub texts_of : ParsedConfig → Pairs
texts_of c = (repo, c.repo_root) ∷ (model, c.model) ∷ (home, c.raw_home) ∷ []

abbrev pub fallback_pairs : Option Text → Pairs
fallback_pairs none = []
fallback_pairs (some v) = (fallback_model, v) ∷ []

abbrev pub numbers_of : ParsedConfig → Pairs
numbers_of c =
    (stall_minutes, show c.stall_minutes)
    ∷ (max_quota_waits, show c.max_quota_waits)
    ∷ (max_overload_backoffs, show c.max_overload_backoffs)
    ∷ (max_crash_relaunches, show c.max_crash_relaunches)
    ∷ (quota_grace_seconds, show c.quota_grace_seconds)
    ∷ (poll_seconds, show c.poll_seconds)
    ∷ fallback_pairs c.fallback_model

-- The runner's flags, then each of the watchdog's.
unfoldable pub print : ParsedConfig → List Text
print c = c.passthrough ++ print_own (texts_of c) (mode_flag c.mode ∷ print_own (numbers_of c) [])
