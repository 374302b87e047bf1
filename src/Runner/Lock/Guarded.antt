-- ===== src/Runner/Lock/Guarded.antt =====
-- What holds of the lock and the processes where starts do not overlap (runner/core/loop/lock.ts).
use tribe.Base.{
  ◌≡◌, refl, sym, ap, ◌∙◌, ℕ, Bool, true, false, Option, none, some, ◌==◌, Bool-cases, Option-cases,
  inl, inr, ◌⊎◌, arith, is_some, get_or, String,
}
use mathlib.Core.Bool.{false≢true}
use tribe.Runner.Lock.{
  LockInfo, Campaign, Stage, idle, cleared, passing, is_cleared, is_passing, live_lock_holder, set,
  look_at_lock, write_lock, release_lock, spawn_process, kill_process,
}

-- No process stands between its look at the lock and its write.
abbrev pub NoneBetween : Campaign → Type 0
NoneBetween c = (p : ℕ) → is_cleared (c.stage p) ≡ false

pub record IsGuarded (c : Campaign) : Type 0 where
  pub held :
      (p : ℕ)
      → is_passing (c.stage p) ≡ true
      → (c.alive p ≡ true) × ((own : LockInfo) × (c.lock ≡ some own) × (own.pid ≡ p))
  pub apart : (p q : ℕ) → is_cleared (c.stage p) ≡ true → is_passing (c.stage q) ≡ false
  pub alone : (p q : ℕ) → is_cleared (c.stage p) ≡ true → is_cleared (c.stage q) ≡ true → p ≡ q
  pub lives : (p : ℕ) → is_cleared (c.stage p) ≡ true → c.alive p ≡ true

-- A stage that an idle process does not have is another process's.
set-idle :
    (is : Stage → Bool) (f : ℕ → Stage) (p q : ℕ)
    → is idle ≡ false
    → is (set f p idle q) ≡ true
    → ((q == p) ≡ false) × (is (f q) ≡ true)
set-idle is f p q i h = elim (Bool-cases (q == p)) [
  | inl e ↦ absurd (false≢true (sym i ∙ (rw e at h)))
  | inr e ↦ (e, rw e at h)
]

-- A stage that a process has now is the new one, or it is another process's.
set-cases :
    (is : Stage → Bool) (f : ℕ → Stage) (p q : ℕ) (new : Stage)
    → is (set f p new q) ≡ true
    → ((q ≡ p) × (is new ≡ true)) ⊎ (((q == p) ≡ false) × (is (f q) ≡ true))
set-cases is f p q new h = elim (Bool-cases (q == p)) [
  | inl e ↦ inl (ground (arith, e), rw e at h)
  | inr e ↦ inr (e, rw e at h)
]

pub held-same :
    (c : Campaign)
    → IsGuarded c
    → (p q : ℕ) → is_passing (c.stage p) ≡ true
    → is_passing (c.stage q) ≡ true
    → p ≡ q
held-same c g p q hp hq =
    let (_, (own_p, lock_p, is_p)) = g.held p hp in
    let (_, (own_q, lock_q, is_q)) = g.held q hq in
    sym is_p ∙ ap (λ l. (get_or l own_p).pid) (sym lock_p ∙ lock_q) ∙ is_q

pub not-passing : (b : Bool) → (b ≡ true → ⊥) → b ≡ false
not-passing true h = absurd (h refl)
not-passing false h = refl

-- A live process that the lock file names is found.
live_lock_holder-alive :
    (lock : Option LockInfo) (alive : ℕ → Bool) (own : LockInfo)
    → lock ≡ some own
    → alive own.pid ≡ true
    → live_lock_holder lock alive ≡ some own
unfolding live_lock_holder
live_lock_holder-alive lock alive own h e = rw (h, e) refl

-- Where no live process holds the lock, none is in a pass.
none-passing :
    (c : Campaign)
    → IsGuarded c
    → live_lock_holder c.lock c.alive ≡ none
    → (q : ℕ) → is_passing (c.stage q) ≡ false
none-passing c g e q = not-passing (is_passing (c.stage q)) (λ h.
    let (lives_q, (own, lock, is_q)) = g.held q h in
    let found = live_lock_holder-alive c.lock c.alive own lock (ap c.alive is_q ∙ lives_q) in
    false≢true (ap is_some (sym e ∙ found)))

-- One process less that is not idle, with its life untouched for the others.
rest-IsGuarded :
    (c : Campaign) (p : ℕ) (alive : ℕ → Bool)
    → IsGuarded c
    → ((q : ℕ) → (q == p) ≡ false → alive q ≡ c.alive q)
    → IsGuarded (record c { alive = alive; stage = set c.stage p idle })
rest-IsGuarded c p alive g same = record {
  held = λ q h.
      let (other, was) = set-idle is_passing c.stage p q refl h in
      let (lives_q, holds) = g.held q was in (same q other ∙ lives_q, holds);
  apart = λ r q h.
      let (_, was) = set-idle is_cleared c.stage p r refl h in
      not-passing (is_passing (set c.stage p idle q)) (λ h'.
        let (_, was') = set-idle is_passing c.stage p q refl h' in
        false≢true (sym (g.apart r q was) ∙ was'));
  alone = λ r q h h'.
      g.alone r q (set-idle is_cleared c.stage p r refl h).1
        (set-idle is_cleared c.stage p q refl h').1;
  lives = λ q h.
      let (other, was) = set-idle is_cleared c.stage p q refl h in same q other ∙ g.lives q was;
}

pub spawns-IsGuarded : (c : Campaign) (p : ℕ) → IsGuarded c → IsGuarded (spawn_process p c)
unfolding spawn_process
spawns-IsGuarded c p g = record {
  held = λ q h. let (lives_q, holds) = g.held q h in (still q lives_q, holds);
  apart = g.apart;
  alone = g.alone;
  lives = λ q h. still q (g.lives q h);
}
  where
    still : (q : ℕ) → c.alive q ≡ true → set c.alive p true q ≡ true
    still q h = elim (Bool-cases (q == p)) [ inl e ↦ rw e refl | inr e ↦ rw e h ]

pub dies-IsGuarded : (c : Campaign) (p : ℕ) → IsGuarded c → IsGuarded (kill_process p c)
unfolding kill_process
dies-IsGuarded c p g = rest-IsGuarded c p (set c.alive p false) g (λ q other. rw other refl)

-- With nobody in a pass and nobody between look and write, one process may be.
clears-IsGuarded :
    (c : Campaign) (p : ℕ)
    → c.alive p ≡ true
    → NoneBetween c
    → ((q : ℕ) → is_passing (c.stage q) ≡ false)
    → IsGuarded (record c { stage = set c.stage p cleared })
clears-IsGuarded c p live between quiet = record {
  held = λ q h. absurd (false≢true (sym (none q) ∙ h));
  apart = λ r q h. none q;
  alone = λ r q h h'. only r h ∙ sym (only q h');
  lives = λ q h. ap c.alive (only q h) ∙ live;
}
  where
    none : (q : ℕ) → is_passing (set c.stage p cleared q) ≡ false
    none q = not-passing (is_passing (set c.stage p cleared q)) (λ h.
        elim (set-cases is_passing c.stage p q cleared h) [
          | inl (_, n) ↦ false≢true n
          | inr (_, was) ↦ false≢true (sym (quiet q) ∙ was)
        ])

    only : (q : ℕ) → is_cleared (set c.stage p cleared q) ≡ true → q ≡ p
    only q h = elim (set-cases is_cleared c.stage p q cleared h) [
      | inl (e, _) ↦ e
      | inr (_, was) ↦ absurd (false≢true (sym (between q) ∙ was))
    ]

pub looks-IsGuarded :
    (c : Campaign) (p : ℕ)
    → c.alive p ≡ true
    → NoneBetween c
    → IsGuarded c
    → IsGuarded (look_at_lock p c)
unfolding look_at_lock
looks-IsGuarded c p live between g = elim (Option-cases (live_lock_holder c.lock c.alive)) [
  | inr (held_by, e) ↦ rw e (rest-IsGuarded c p c.alive g (λ q _. refl))
  | inl e ↦ rw e (clears-IsGuarded c p live between (none-passing c g e))
]

pub writes-IsGuarded :
    (c : Campaign) (p : ℕ) (now : String)
    → c.stage p ≡ cleared
    → IsGuarded c
    → IsGuarded (write_lock p now c)
unfolding write_lock
writes-IsGuarded c p now here g = record {
  held = λ q h. elim (set-cases is_passing c.stage p q passing h) [
    | inl (e, _) ↦
        (ap c.alive e ∙ g.lives p cleared_p, (record { pid = p; started_at = now }, refl, sym e))
    | inr (_, was) ↦ absurd (false≢true (sym (g.apart p q cleared_p) ∙ was))
  ];
  apart = λ r q h. absurd (none r h);
  alone = λ r q h h'. absurd (none r h);
  lives = λ q h. absurd (none q h);
}
  where
    cleared_p : is_cleared (c.stage p) ≡ true
    cleared_p = ap is_cleared here

    none : (q : ℕ) → is_cleared (set c.stage p passing q) ≡ true → ⊥
    none q h = elim (set-cases is_cleared c.stage p q passing h) [
      | inl (_, n) ↦ false≢true n
      | inr (other, was) ↦ let same = g.alone p q cleared_p was in ground (arith, same, other)
    ]

pub ends-IsGuarded :
    (c : Campaign) (p : ℕ) → c.stage p ≡ passing → IsGuarded c → IsGuarded (release_lock p c)
unfolding release_lock
ends-IsGuarded c p here g =
    let rest = rest-IsGuarded c p c.alive g (λ q _. refl) in
    record {
      held = λ q h.
          let (other, was) = set-idle is_passing c.stage p q refl h in
          let same = held-same c g q p was (ap is_passing here) in
          absurd (ground (arith, same, other));
      apart = rest.apart;
      alone = rest.alone;
      lives = rest.lives;
    }
