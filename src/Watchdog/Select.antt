-- ===== src/Watchdog/Select.antt =====
-- plugins/tribe/scripts/runner/core/watchdog/select.ts: which run and which log are the newest, and
-- when a run has been silent for too long.
pub mod Order
pub mod Newest
use tribe.Base.{
  ℕ, ◌-◌, ◌*◌, String, Bool, true, false, ◌&&◌, ◌||◌, Option, none, some, List, [], ◌∷◌, ltb, ◌==◌,
  if◌then◌else◌, includes, codes,
}

abbrev pub lex_lt : List ℕ → List ℕ → Bool
lex_lt xs [] = false
lex_lt [] (y ∷ ys) = true
lex_lt (x ∷ xs) (y ∷ ys) = ltb x y || (x == y && lex_lt xs ys)

-- `s < t` on texts.
unfoldable pub str_lt : String → String → Bool
str_lt s t = lex_lt (codes s) (codes t)

-- `newest === null || id > newest`.
abbrev pub newer : Option String → String → Bool
newer none id = true
newer (some newest) id = str_lt newest id

pub newest_from : Option String → List String → Option String
newest_from newest [] = newest
newest_from newest (id ∷ ids) = newest_from (if newer newest id then some id else newest) ids

unfoldable pub newest_run_id : List String → Option String
unfolding newest_from
newest_run_id run_ids = newest_from none run_ids

pub newest_excluding_from : Option String → List String → List String → Option String
newest_excluding_from newest excluded [] = newest
newest_excluding_from newest excluded (id ∷ ids) =
    newest_excluding_from
      (if includes excluded id then newest else if newer newest id then some id else newest)
      excluded ids

unfoldable pub newest_run_id_excluding : List String → List String → Option String
unfolding newest_excluding_from
newest_run_id_excluding run_ids excluded = newest_excluding_from none excluded run_ids

pub record LogEntry : Type 0 where
  pub name : String
  pub mtime_ms : ℕ

abbrev pub newer_log : Option LogEntry → LogEntry → Bool
newer_log none entry = true
newer_log (some newest) entry =
    ltb newest.mtime_ms entry.mtime_ms
    || (entry.mtime_ms == newest.mtime_ms && str_lt newest.name entry.name)

pub newest_log_from : Option LogEntry → List LogEntry → Option LogEntry
newest_log_from newest [] = newest
newest_log_from newest (entry ∷ entries) =
    newest_log_from (if newer_log newest entry then some entry else newest) entries

unfoldable pub newest_log : List LogEntry → Option LogEntry
unfolding newest_log_from
newest_log entries = newest_log_from none entries

-- A difference below 0 is 0 here, and neither exceeds the bound.
unfoldable pub is_stale : ℕ → Option ℕ → ℕ → Option ℕ → Bool
is_stale now_ms (some mtime_ms) stall_minutes since_ms =
    ltb (stall_minutes * 60000) (now_ms - mtime_ms)
is_stale now_ms none stall_minutes none = false
is_stale now_ms none stall_minutes (some since_ms) = ltb (stall_minutes * 60000) (now_ms - since_ms)
