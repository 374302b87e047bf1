-- ===== src/Watchdog/Args/Examples.antt =====
-- The theorems on the command line of the watchdog (plugins/tribe/scripts/runner/core/watchdog/args.ts)
-- at concrete arguments.
use tribe.Base.{◌≡◌, refl, ap, is_some, none, List, [], ◌∷◌, Text, codes}
use mathlib.Core.Bool.{false≢true}
use tribe.Watchdog.Model.{once}
use tribe.Watchdog.Args.{
  ok, ParsedConfig, parse_watchdog_args, read_tokens, read_flag, read_value, config_of,
  parse_bounded_int,
}
use tribe.Watchdog.Args.Print.{print, IsPrintable, nothing_more, with_value, max_cards}
use tribe.Watchdog.Args.RoundTrip.{parse_watchdog_args-print}
use tribe.Watchdog.Args.Bounded.{IsBounded, parse_watchdog_args-IsBounded}

abbrev argv : List Text
argv =
    codes "--repo"
    ∷ codes "/r"
    ∷ codes "--model"
    ∷ codes "m"
    ∷ codes "--home"
    ∷ codes "/h"
    ∷ codes "--once"
    ∷ codes "--max-cards"
    ∷ codes "2"
    ∷ codes "--poll-seconds"
    ∷ codes "60"
    ∷ []

abbrev config : ParsedConfig
config = record {
  repo_root = codes "/r";
  model = codes "m";
  raw_home = codes "/h";
  mode = once;
  stall_minutes = 30;
  max_quota_waits = 6;
  max_overload_backoffs = 5;
  max_crash_relaunches = 1;
  quota_grace_seconds = 30;
  poll_seconds = 60;
  fallback_model = none;
  passthrough = codes "--max-cards" ∷ codes "2" ∷ [];
}

argv-parsed : parse_watchdog_args argv ≡ ok config
unfolding parse_watchdog_args read_tokens read_flag read_value config_of parse_bounded_int
argv-parsed = refl

parse_watchdog_args-IsBounded_example : IsBounded config
parse_watchdog_args-IsBounded_example = parse_watchdog_args-IsBounded argv config argv-parsed

config-IsPrintable : IsPrintable config
config-IsPrintable = record {
  repo_root = refl;
  model = refl;
  raw_home = refl;
  fallback_model = λ v e. absurd (false≢true (ap is_some e));
  bounded = parse_watchdog_args-IsBounded argv config argv-parsed;
  passthrough = with_value max_cards (codes "2") refl nothing_more;
}

parse_watchdog_args-print_example : parse_watchdog_args (print config) ≡ ok config
parse_watchdog_args-print_example = parse_watchdog_args-print config config-IsPrintable
