-- ===== src/Watchdog/Args.antt =====
-- `parseWatchdogArgs` of plugins/tribe/scripts/runner/core/watchdog/args.ts: the command line of the
-- watchdog.
pub mod Bounded
pub mod Decimals
pub mod Print
pub mod RoundTrip
mod Examples
use tribe.Base.{
  ℕ, ◌+◌, ◌-◌, ◌*◌, Bool, true, false, not, ◌&&◌, ◌||◌, Option, none, some, List, [], ◌∷◌, ◌++◌,
  ltb, leb, if◌then◌else◌, Text, codes, text_eq, starts_with, is_some,
}
use tribe.Watchdog.Model.{WatchdogMode, once, follow}

pub data ArgsError : Type 0 where
  unexpected_argument requires_value unknown_flag missing_required_flag : Text → ArgsError
  got_flag out_of_bounds : Text → Text → ArgsError
  mutually_exclusive : ArgsError

pub data Result {ℓ} (A : Type ℓ) : Type ℓ where
  ok : A → Result A
  error : ArgsError → Result A

infixl 20 ◌>>=◌
abbrev pub ◌>>=◌ {ℓ κ} : {A : Type ℓ} {B : Type κ} → Result A → (A → Result B) → Result B
ok a >>= f = f a
error e >>= f = error e

abbrev pub passthrough_value_flags : List Text
passthrough_value_flags =
    codes "--cards"
    ∷ codes "--max-cards"
    ∷ codes "--session-timeout"
    ∷ codes "--logs-dir"
    ∷ codes "--max-concurrent"
    ∷ codes "--remote"
    ∷ []

abbrev pub passthrough_boolean_flags : List Text
passthrough_boolean_flags = codes "--include-escalated" ∷ []

abbrev pub own_value_flags : List Text
own_value_flags =
    codes "--repo"
    ∷ codes "--model"
    ∷ codes "--home"
    ∷ codes "--stall-minutes"
    ∷ codes "--max-quota-waits"
    ∷ codes "--max-overload-backoffs"
    ∷ codes "--max-crash-relaunches"
    ∷ codes "--quota-grace-seconds"
    ∷ codes "--poll-seconds"
    ∷ codes "--fallback-model"
    ∷ []

abbrev pub own_boolean_flags : List Text
own_boolean_flags = codes "--once" ∷ codes "--follow" ∷ []

abbrev pub all_flag_tokens : List Text
all_flag_tokens =
    passthrough_value_flags ++ passthrough_boolean_flags ++ own_value_flags ++ own_boolean_flags

-- `set.has(token)`.
abbrev pub has : List Text → Text → Bool
has [] token = false
has (flag ∷ flags) token = text_eq flag token || has flags token

-- A flag that waits for its value, and whether it is the runner's.
pub record Pending : Type 0 where
  pub flag : Text
  pub forwarded : Bool

-- `own`, the flag set last in front and `none` for `true`, and `passthrough`.
pub record Collected : Type 0 where
  pub own : List (Text × Option Text)
  pub passthrough : List Text
  pub pending : Option Pending

abbrev pub nothing_collected : Collected
nothing_collected = record { own = []; passthrough = []; pending = none }

unfoldable pub read_flag : Collected → Text → Result Collected
read_flag c token =
    if not (starts_with token (codes "--"))
    then error (unexpected_argument token)
    else if has passthrough_boolean_flags token
    then ok (record c { passthrough = c.passthrough ++ token ∷ [] })
    else if has passthrough_value_flags token
    then ok (record c { pending = some (record { flag = token; forwarded = true }) })
    else if has own_boolean_flags token
    then ok (record c { own = (token, none) ∷ c.own })
    else if has own_value_flags token
    then ok (record c { pending = some (record { flag = token; forwarded = false }) })
    else error (unknown_flag token)

unfoldable pub read_value : Collected → Pending → Text → Result Collected
read_value c p value =
    if has all_flag_tokens value
    then error (got_flag p.flag value)
    else if p.forwarded
    then ok (record c { passthrough = c.passthrough ++ p.flag ∷ value ∷ []; pending = none })
    else ok (record c { own = (p.flag, some value) ∷ c.own; pending = none })

abbrev pub read_token : Option Pending → Collected → Text → Result Collected
read_token none c token = read_flag c token
read_token (some p) c token = read_value c p token

abbrev pub end_tokens : Option Pending → Collected → Result Collected
end_tokens none c = ok c
end_tokens (some p) c = error (requires_value p.flag)

-- The loop over `argv`.
unfoldable pub read_tokens : Collected → List Text → Result Collected
read_tokens c [] = end_tokens c.pending c
read_tokens c (token ∷ argv) = read_token c.pending c token >>= λ d. read_tokens d argv

-- `own.get(flag)`.
abbrev pub get : List (Text × Option Text) → Text → Option (Option Text)
get [] flag = none
get ((f, v) ∷ own) flag = if text_eq f flag then some v else get own flag

pub record Bound : Type 0 where
  pub lowest : ℕ
  pub highest : ℕ

abbrev pub is_digit : ℕ → Bool
is_digit c = leb b'0' c && leb c b'9'

abbrev pub all_digits : Text → Bool
all_digits [] = true
all_digits (c ∷ s) = is_digit c && all_digits s

-- `INT_LITERAL.test(raw)`.
abbrev pub is_int_literal : Text → Bool
is_int_literal [] = false
is_int_literal (c ∷ s) = all_digits (c ∷ s)

-- `Number(raw)` of a text of digits.
abbrev pub number_from : ℕ → Text → ℕ
number_from n [] = n
number_from n (c ∷ s) = number_from (n * 10 + (c - b'0')) s

unfoldable pub parse_bounded_int : Text → Bound → Text → Result ℕ
parse_bounded_int flag bound raw =
    let value = number_from 0 raw in
    if not (is_int_literal raw)
    then error (out_of_bounds flag raw)
    else if ltb value bound.lowest || ltb bound.highest value
    then error (out_of_bounds flag raw)
    else ok value

abbrev pub number_or : Text → Bound → ℕ → Option (Option Text) → Result ℕ
number_or flag bound default (some (some raw)) = parse_bounded_int flag bound raw
number_or flag bound default _ = ok default

abbrev pub text_or_missing : Text → Option (Option Text) → Result Text
text_or_missing flag (some (some value)) = ok value
text_or_missing flag _ = error (missing_required_flag flag)

abbrev pub mode_of : List (Text × Option Text) → Result WatchdogMode
mode_of own =
    let is_once = is_some (get own (codes "--once")) in
    if is_once && is_some (get own (codes "--follow"))
    then error mutually_exclusive
    else ok (if is_once then once else follow)

abbrev pub fallback_of : Option (Option Text) → Option Text
fallback_of (some (some value)) = some value
fallback_of _ = none

pub record ParsedConfig : Type 0 where
  pub repo_root : Text
  pub model : Text
  pub raw_home : Text
  pub mode : WatchdogMode
  pub stall_minutes : ℕ
  pub max_quota_waits : ℕ
  pub max_overload_backoffs : ℕ
  pub max_crash_relaunches : ℕ
  pub quota_grace_seconds : ℕ
  pub poll_seconds : ℕ
  pub fallback_model : Option Text
  pub passthrough : List Text

abbrev pub required : List (Text × Option Text) → Text → Result Text
required own flag = text_or_missing flag (get own flag)

abbrev pub number : List (Text × Option Text) → Text → ℕ → ℕ → ℕ → Result ℕ
number own flag lowest highest default =
    number_or flag (record { lowest = lowest; highest = highest }) default (get own flag)

-- What is read of the collected flags, in the order of the source.
unfoldable pub config_of : List (Text × Option Text) → List Text → Result ParsedConfig
config_of own passthrough = do
  repo_root ← required own (codes "--repo")
  model ← required own (codes "--model")
  raw_home ← required own (codes "--home")
  mode ← mode_of own
  stall_minutes ← number own (codes "--stall-minutes") 1 1440 30
  max_quota_waits ← number own (codes "--max-quota-waits") 0 100 6
  max_overload_backoffs ← number own (codes "--max-overload-backoffs") 0 100 5
  max_crash_relaunches ← number own (codes "--max-crash-relaunches") 0 100 1
  quota_grace_seconds ← number own (codes "--quota-grace-seconds") 0 3600 30
  poll_seconds ← number own (codes "--poll-seconds") 1 60 30
  ok (record {
    repo_root = repo_root;
    model = model;
    raw_home = raw_home;
    mode = mode;
    stall_minutes = stall_minutes;
    max_quota_waits = max_quota_waits;
    max_overload_backoffs = max_overload_backoffs;
    max_crash_relaunches = max_crash_relaunches;
    quota_grace_seconds = quota_grace_seconds;
    poll_seconds = poll_seconds;
    fallback_model = fallback_of (get own (codes "--fallback-model"));
    passthrough = passthrough;
  })

unfoldable pub parse_watchdog_args : List Text → Result ParsedConfig
parse_watchdog_args argv = do c ← read_tokens nothing_collected argv; config_of c.own c.passthrough
