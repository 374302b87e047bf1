-- ===== src/Supervisor/Truth/Liveness.antt =====
-- A running process outranks every other fact about the runs.
use mathlib.Core.List.{Memᴰ}
use tribe.Base.{
  ℕ, ◌≡◌, ◌≢◌, sym, ◌∙◌, ap, subst, String, Bool, true, false, not, Option, none, some, List, [],
  ◌∷◌, arith, inl, inr, Option-cases, Bool-cases, keep,
}
use tribe.Watchdog.Select.{str_lt}
use tribe.Supervisor.Model.{RunFact, SupervisorObservation}
use tribe.Supervisor.Truth.{
  newer_run_alive, run_finalised, find_last, has_terminal, is_running, candidates,
  contradiction_among, terminal_contradiction,
}

module _ {ℓ} {A : Type ℓ} (p : A → Bool) where
  find_last-ne-none : (xs : List A) (x : A) → Memᴰ x xs → p x ≡ true → find_last p xs ≢ none
  unfolding find_last
  find_last-ne-none [] x m h n = elim m [ ]
  find_last-ne-none (y ∷ ys) x (Memᴰ.head e) h n =
      ground (arith, Option-cases (find_last p ys), ap p e)
  find_last-ne-none (y ∷ ys) x (Memᴰ.tail m) h n = elim (Option-cases (find_last p ys)) [
    | inl e ↦ find_last-ne-none ys x m h e
    | inr (z, e) ↦ ground (arith, e)
  ]

  find_last_sound : (xs : List A) {x : A} → find_last p xs ≡ some x → Memᴰ x xs × (p x ≡ true)
  unfolding find_last
  find_last_sound [] e = cc
  find_last_sound (y ∷ ys) {x} e = elim (Option-cases (find_last p ys)) [
    | inl n ↦ elim (Bool-cases (p y)) [
      | inl h ↦
          let same : y ≡ x = ground (arith, n, h, e) in (Memᴰ.head (sym same), sym (ap p same) ∙ h)
      | inr h ↦ absurd (ground (arith, n, h, e))
    ]
    | inr (z, f) ↦
        let same : z ≡ x = ground (arith, f, e) in
        let (m, h) = find_last_sound ys f in
        (Memᴰ.tail (subst (λ t. Memᴰ t ys) same m), sym (ap p same) ∙ h)
  ]

  keep-mem : (xs : List A) (x : A) → Memᴰ x xs → p x ≡ true → Memᴰ x (keep p xs)
  keep-mem [] x m h = elim m [ ]
  keep-mem (y ∷ ys) x (Memᴰ.head e) h = rw (sym (ap p e) ∙ h) (Memᴰ.head e)
  keep-mem (y ∷ ys) x (Memᴰ.tail m) h = elim (Bool-cases (p y)) [
    | inl k ↦ rw k (Memᴰ.tail (keep-mem ys x m h))
    | inr k ↦ rw k (keep-mem ys x m h)
  ]

live_among :
    (runs : List RunFact) (r : RunFact)
    → Memᴰ r runs
    → is_running r ≡ true
    → (live : String) × (contradiction_among runs ≡ some (newer_run_alive live))
unfolding contradiction_among
live_among runs r m h = elim (Option-cases (find_last is_running runs)) [
  | inl n ↦ absurd (find_last-ne-none is_running runs r m h n)
  | inr (q, e) ↦ (q.run_id, rw (e, contradiction_among))
]

-- If a run that is not older than the terminal's own is alive and has not ended, the contradiction
-- is a live run, whatever other runs stand beside it.
pub liveness_wins :
    (o : SupervisorObservation) (id : String) (r : RunFact)
    → has_terminal o.last_watchdog ≡ true
    → o.watchdog_run_id ≡ some id
    → Memᴰ r o.runs
    → str_lt r.run_id id ≡ false
    → is_running r ≡ true
    → (live : String) × (terminal_contradiction o ≡ some (newer_run_alive live))
unfolding terminal_contradiction candidates
liveness_wins o id r t w m n h =
    let kept = keep-mem (λ q. not (str_lt q.run_id id)) o.runs r m (ap not n) in
    let (live, e) = live_among (candidates id o.runs) r kept h in (live, ground (arith, t, w, e))

-- A finished run is believed only if no run that is not older than the terminal's own is alive.
pub finalised_needs_none_alive :
    (o : SupervisorObservation) (id run_id : String) (code : ℕ) (reason : Option String)
    (r : RunFact)
    → o.watchdog_run_id ≡ some id
    → terminal_contradiction o ≡ some (run_finalised run_id code reason)
    → Memᴰ r o.runs
    → str_lt r.run_id id ≡ false
    → is_running r ≡ false
unfolding terminal_contradiction
finalised_needs_none_alive o id run_id code reason r w e m n = elim (Bool-cases (is_running r)) [
  | inl h ↦ elim (Bool-cases (has_terminal o.last_watchdog)) [
    | inl t ↦ let (live, f) = liveness_wins o id r t w m n h in absurd (ground (arith, e, f))
    | inr t ↦ absurd (ground (arith, e, t))
  ]
  | inr h ↦ h
]
