-- ===== src/Watchdog/Args/Bounded.antt =====
-- What a command line that `parseWatchdogArgs` (watchdog/args.ts) accepts holds.
use tribe.Base.{
  subst, codes, ◌≡◌, refl, ap, ℕ, ◌≤◌, Bool, true, false, ◌||◌, Option, none, some, List, ltb, Text,
  Bool-cases, inl, inr, arith,
}
use mathlib.Core.Bool.{false≢true}
use tribe.Watchdog.Args.{
  Result, ok, error, ◌>>=◌, parse_bounded_int, is_int_literal, number_from, number_or, required,
  mode_of, nothing_collected, number, Bound, get, config_of, ParsedConfig, read_tokens,
  parse_watchdog_args,
}

pub record IsBounded (c : ParsedConfig) : Type 0 where
  pub stall : (1 ≤ c.stall_minutes) × (c.stall_minutes ≤ 1440)
  pub quota_waits : c.max_quota_waits ≤ 100
  pub overload_backoffs : c.max_overload_backoffs ≤ 100
  pub crash_relaunches : c.max_crash_relaunches ≤ 100
  pub quota_grace : c.quota_grace_seconds ≤ 3600
  pub poll : (1 ≤ c.poll_seconds) × (c.poll_seconds ≤ 60)

abbrev is_ok : {A : Type 0} → Result A → Bool
is_ok (ok a) = true
is_ok (error e) = false

abbrev value_or : {A : Type 0} → A → Result A → A
value_or d (ok a) = a
value_or d (error e) = d

bound-ok :
    {A B : Type 0} (r : Result A) (f : A → Result B) (b : B)
    → (r >>= f) ≡ ok b
    → (a : A) × (r ≡ ok a) × (f a ≡ ok b)
bound-ok (ok a) f b e = (a, refl, e)
bound-ok (error x) f b e = absurd (false≢true (ap is_ok e))

parse_bounded_int-within :
    (flag : Text) (bound : Bound) (raw : Text) (n : ℕ)
    → parse_bounded_int flag bound raw ≡ ok n
    → (bound.lowest ≤ n) × (n ≤ bound.highest)
unfolding parse_bounded_int
parse_bounded_int-within flag bound raw n e = elim (Bool-cases (is_int_literal raw)) [
  | inr i ↦ absurd (false≢true (ap is_ok (rw i at e)))
  | inl i ↦
      elim (Bool-cases
        (ltb (number_from 0 raw) bound.lowest || ltb bound.highest (number_from 0 raw))) [
          | inl out ↦ absurd (false≢true (ap is_ok (rw (i, out) at e)))
          | inr within ↦
              let value : number_from 0 raw ≡ n = ap (value_or n) (rw (i, within) at e) in
              (ground (arith, value, within), ground (arith, value, within))
        ]
]

number-within :
    (own : List (Text × Option Text)) (flag : Text) (lowest highest default n : ℕ)
    → lowest ≤ default
    → default ≤ highest
    → number own flag lowest highest default ≡ ok n
    → (lowest ≤ n) × (n ≤ highest)
number-within own flag lowest highest default n l h e = go (get own flag) e
  where
    go :
        (o : Option (Option Text))
        → number_or flag (record { lowest = lowest; highest = highest }) default o ≡ ok n
        → (lowest ≤ n) × (n ≤ highest)
    go none q =
        let same : default ≡ n = ap (value_or n) q in
        (ground (arith, same, l), ground (arith, same, h))
    go (some none) q =
        let same : default ≡ n = ap (value_or n) q in
        (ground (arith, same, l), ground (arith, same, h))
    go (some (some raw)) q =
        parse_bounded_int-within flag (record { lowest = lowest; highest = highest }) raw n q

config_of-IsBounded :
    (own : List (Text × Option Text)) (passthrough : List Text) (c : ParsedConfig)
    → config_of own passthrough ≡ ok c
    → IsBounded c
unfolding config_of
config_of-IsBounded own passthrough c e =
    let (repo, _, e1) = bound-ok (required own (codes "--repo")) _ c e in
    let (model, _, e2) = bound-ok (required own (codes "--model")) _ c e1 in
    let (home, _, e3) = bound-ok (required own (codes "--home")) _ c e2 in
    let (mode, _, e4) = bound-ok (mode_of own) _ c e3 in
    let (stall, p5, e5) = bound-ok (number own (codes "--stall-minutes") 1 1440 30) _ c e4 in
    let (quota, p6, e6) = bound-ok (number own (codes "--max-quota-waits") 0 100 6) _ c e5 in
    let (overload, p7, e7) =
      bound-ok (number own (codes "--max-overload-backoffs") 0 100 5) _ c e6 in
    let (crash, p8, e8) = bound-ok (number own (codes "--max-crash-relaunches") 0 100 1) _ c e7 in
    let (grace, p9, e9) = bound-ok (number own (codes "--quota-grace-seconds") 0 3600 30) _ c e8 in
    let (poll, p10, e10) = bound-ok (number own (codes "--poll-seconds") 1 60 30) _ c e9 in
    subst IsBounded (ap (value_or c) e10) (record {
      stall =
          number-within own (codes "--stall-minutes") 1 1440 30 stall (omega arith) (omega arith)
            p5;
      quota_waits =
          (number-within own (codes "--max-quota-waits") 0 100 6 quota (omega arith) (omega arith)
            p6).1;
      overload_backoffs =
          (number-within own (codes "--max-overload-backoffs") 0 100 5 overload (omega arith)
            (omega arith) p7).1;
      crash_relaunches =
          (number-within own (codes "--max-crash-relaunches") 0 100 1 crash (omega arith)
            (omega arith) p8).1;
      quota_grace =
          (number-within own (codes "--quota-grace-seconds") 0 3600 30 grace (omega arith)
            (omega arith) p9).1;
      poll =
          number-within own (codes "--poll-seconds") 1 60 30 poll (omega arith) (omega arith) p10;
    })

-- Every number of a command line that is accepted is within its bounds, given or not: the stall
-- minutes from 1 to a day's, each of the three budgets at most 100, the grace at most an hour and
-- the poll from 1 to 60 seconds.
pub parse_watchdog_args-IsBounded :
    (argv : List Text) (c : ParsedConfig) → parse_watchdog_args argv ≡ ok c → IsBounded c
unfolding parse_watchdog_args
parse_watchdog_args-IsBounded argv c e =
    let (d, _, read) =
      bound-ok (read_tokens nothing_collected argv) (λ d. config_of d.own d.passthrough) c e in
    config_of-IsBounded d.own d.passthrough c read
