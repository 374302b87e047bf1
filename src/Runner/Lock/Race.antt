-- ===== src/Runner/Lock/Race.antt =====
-- Two processes that start at once (runner/core/loop/lock.ts): `acquireLock` looks at the lock file and
-- writes it without holding anything in between.
use tribe.Base.{◌≡◌, refl, ℕ, true, false, none, ◌==◌, arith}
use tribe.Runner.Lock.{
  Campaign, passing, live_lock_holder, look_at_lock, write_lock, spawn_process, spawns, looks,
  writes, IsReachable, initial, after,
}

-- A look is taken at any time.
abbrev pub Any : Campaign → Type 0
Any c = Unit

-- For any two different processes there is a campaign, reached from one at rest with no lock file, in
-- which both are alive and in a pass at once, where a process may look at the lock file at any time.
pub both_in_pass :
    (p q : ℕ)
    → (q == p) ≡ false
    → (c : Campaign) × IsReachable Any c
      × (c.stage p ≡ passing)
      × (c.stage q ≡ passing)
      × (c.alive p ≡ true)
      × (c.alive q ≡ true)
unfolding look_at_lock write_lock spawn_process live_lock_holder
both_in_pass p q other =
    let flip : (p == q) ≡ false = ground (arith, other) in
    let self_p : (p == p) ≡ true = ground arith in
    let self_q : (q == q) ≡ true = ground arith in
    let started = after (after (initial none) (spawns p refl)) (spawns q (rw other refl)) in
    let looked_p = after started (looks p (rw flip (rw self_p refl)) refl tt) in
    let looked_q = after looked_p (looks q (rw self_q refl) (rw other refl) tt) in
    let wrote_p = after looked_q (writes p "t1" (rw (flip, self_p) refl)) in
    let wrote_q = after wrote_p (writes q "t2" (rw (other, self_q) refl)) in
    (_, wrote_q, rw (flip, self_p) refl, rw self_q refl, rw (flip, self_p) refl, rw self_q refl)
