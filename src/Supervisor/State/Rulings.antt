-- ===== src/Supervisor/State/Rulings.antt =====
-- What a ruling leaves in the persisted counters.
use tribe.Base.{
  ℕ, ◌+◌, ◌≡◌, ◌≢◌, refl, String, Bool, true, none, List, [], ◌∷◌, ◌++◌, arith, ◌||◌, includes,
  str_eq, str_eq_self, str_eq_iff, lookup, keep, not, if◌then◌else◌, Bool-cases, inl, inr,
}
use tribe.Supervisor.Model.{SupervisorState}
use tribe.Supervisor.Truth.{retriggers_of}
use tribe.Supervisor.State.{
  rounds_of, seen_of, apply_ruling_outcome, clear_watchdog_retriggers, watchdog_retrigger_keys,
}

includes-append :
    (xs ys : List String) (s : String) → includes (xs ++ ys) s ≡ (includes xs s || includes ys s)
includes-append [] ys s = refl
includes-append (x ∷ xs) ys s = ground (arith, includes-append xs ys s)

-- What one ruling on a body of a card may change from `s` to `t`.
pub record Ruled (s : SupervisorState) (card_id sha : String) (t : SupervisorState) : Type 0 where
  pub round_counted : rounds_of t card_id ≡ rounds_of s card_id + 1
  pub other_rounds : (other : String) → other ≢ card_id → rounds_of t other ≡ rounds_of s other
  pub body_seen : includes (seen_of t card_id) sha ≡ true
  pub still_seen :
      (other body : String)
      → includes (seen_of s other) body ≡ true
      → includes (seen_of t other) body ≡ true
  pub spawns_kept : t.spawns ≡ s.spawns
  pub runs_kept : t.watchdog_runs ≡ s.watchdog_runs
  pub retriggers_kept : t.retriggers ≡ s.retriggers

module _ (s : SupervisorState) (card_id sha : String) where
  still :
      (other body : String)
      → includes (seen_of s other) body ≡ true
      → includes (seen_of (apply_ruling_outcome s card_id sha) other) body ≡ true
  unfolding apply_ruling_outcome
  still other body h = elim (Bool-cases (str_eq card_id other)) [
    | inl e ↦ ground (
      arith,
      e,
      (str_eq_iff card_id other).0 e,
      includes-append (seen_of s card_id) (sha ∷ []) body,
    )
    | inr e ↦ rw e h
  ]

  -- `applyRulingOutcome` counts one round of its card and none of another, marks the body as seen,
  -- keeps what was seen of any card before, and leaves the other counters as they were.
  pub apply_ruling_outcome-Ruled : Ruled s card_id sha (apply_ruling_outcome s card_id sha)
  unfolding apply_ruling_outcome
  apply_ruling_outcome-Ruled = record {
    round_counted = rw (str_eq_self card_id);
    other_rounds = λ other n. ground (arith, str_eq_iff card_id other);
    body_seen =
        rw (str_eq_self card_id)
          (ground (arith, includes-append (seen_of s card_id) (sha ∷ []) sha, str_eq_self sha));
    still_seen = still;
    spawns_kept = refl;
    runs_kept = refl;
    retriggers_kept = refl;
  }

lookup-keep :
    (p : String → Bool) (m : List (String × ℕ)) (key : String)
    → lookup key (keep (λ e. p e.0) m) ≡ (if p key then lookup key m else none)
lookup-keep p [] key = ground (arith, Bool-cases (p key))
lookup-keep p ((j, v) ∷ m) key = elim (Bool-cases (str_eq j key)) [
  | inl e ↦ ground (arith, lookup-keep p m key, (str_eq_iff j key).0 e, e, str_eq_self key)
  | inr e ↦ ground (arith, lookup-keep p m key, e)
]

-- Clearing resets the three one-shot budgets of the watchdog and no other retry counter.
pub clear_watchdog_retriggers_lem :
    (s : SupervisorState) (key : String)
    → retriggers_of (clear_watchdog_retriggers s) key
      ≡ (if includes watchdog_retrigger_keys key then 0 else retriggers_of s key)
unfolding clear_watchdog_retriggers
clear_watchdog_retriggers_lem s key = elim (Bool-cases (includes watchdog_retrigger_keys key)) [
  | inl h ↦ rw (lookup-keep (λ k. not (includes watchdog_retrigger_keys k)) s.retriggers key, h)
  | inr h ↦ rw (lookup-keep (λ k. not (includes watchdog_retrigger_keys k)) s.retriggers key, h)
]
