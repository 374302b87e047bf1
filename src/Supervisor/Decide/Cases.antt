-- ===== src/Supervisor/Decide/Cases.antt =====
-- How a proof about `decide` goes through its groups of rows.
use tribe.Base.{String, str_eq, Bool, true, false, Option, none, some, if◌then◌else◌, ◌≡◌, refl}
use tribe.Supervisor.Model.{ParkReason, SupervisorObservation, SupervisorAction, LastWatchdog, exit}
use tribe.Supervisor.Decide.{
  is_once_only, runner_done_row, escalations_row, retrigger_once, park_row, reason_row, reason_rows,
  stale_terminal_row, effective_reason, backstop, main_rows,
}
use tribe.Supervisor.Entry.{or_next, park_for}

-- What a group of rows answers has the property; one that falls through owes nothing.
abbrev pub Answers : (SupervisorAction → Type 0) → Option SupervisorAction → Type 0
Answers P none = Unit
Answers P (some a) = P a

pub if_Answers :
    (P : SupervisorAction → Type 0) (b : Bool) (x y : Option SupervisorAction)
    → Answers P x
    → Answers P y
    → Answers P (if b then x else y)
if_Answers P true x y h k = h
if_Answers P false x y h k = k

-- The same, with what the test said.
pub if_split :
    (P : SupervisorAction → Type 0) (b : Bool) (x y : Option SupervisorAction)
    → (b ≡ true → Answers P x)
    → (b ≡ false → Answers P y)
    → Answers P (if b then x else y)
if_split P true x y h k = h refl
if_split P false x y h k = k refl

pub next_Answers :
    (P : SupervisorAction → Type 0) (x : Option SupervisorAction) {y : SupervisorAction}
    → Answers P x
    → P y
    → P (or_next x y)
next_Answers P none h k = k
next_Answers P (some a) h k = h

-- The rows that only park: what holds of every park holds of their answer.
pub park_cases :
    (P : SupervisorAction → Type 0) (reason : String)
    → ((r : ParkReason) → P (park_for r))
    → Answers P (park_row reason)
unfolding park_row
park_cases P reason h = if_Answers P (str_eq reason "quota_cap") _ _ (h _) (
    if_Answers P (str_eq reason "overloaded") _ _ (h _) (
      if_Answers P (str_eq reason "stalled") _ _ (h _) (
        if_Answers P (str_eq reason "lock_conflict") _ _ (h _) (
          if_Answers P (str_eq reason "error") _ _ (h _) (
            if_Answers P (str_eq reason "permanent_api_error") _ _ (h _)
              (if_Answers P (is_once_only reason) _ _ (h _) tt))))))

module _ (P : SupervisorAction → Type 0) (o : SupervisorObservation) where
  pub reason_cases :
      (reason : String)
      → P (runner_done_row o)
      → P (exit "stop_requested")
      → P (escalations_row o)
      → P (retrigger_once o "session_incomplete" ParkReason.session_incomplete)
      → Answers P (park_row reason)
      → Answers P (reason_row o reason)
  unfolding reason_row
  reason_cases reason d s e r p = if_Answers P (str_eq reason "runner_done") _ _ d (
      if_Answers P (str_eq reason "stop_requested") _ _ s (
        if_Answers P (str_eq reason "escalations_pending") _ _ e
          (if_Answers P (str_eq reason "session_incomplete") _ _ r p)))

  pub main_cases :
      (w : LastWatchdog)
      → Answers P (stale_terminal_row o)
      → Answers P (reason_rows o (effective_reason o w))
      → P (backstop o w)
      → P (main_rows o (some w))
  unfolding main_rows
  main_cases w s r b =
      next_Answers P (stale_terminal_row o) s
        (next_Answers P (reason_rows o (effective_reason o w)) r b)
