-- ===== src/Runner/Lock/Separate.antt =====
-- Passes that are not started at once (runner/core/loop/lock.ts).
use tribe.Base.{◌≡◌, refl, ap, ℕ, true, false, some, ◌==◌, arith}
use mathlib.Core.Bool.{false≢true}
use tribe.Runner.Lock.{
  LockInfo, Campaign, passing, is_passing, Step, spawns, dies, looks, writes, ends, IsReachable,
  initial, after,
}
use tribe.Runner.Lock.Guarded.{
  NoneBetween, IsGuarded, held-same, not-passing, spawns-IsGuarded, dies-IsGuarded, looks-IsGuarded,
  writes-IsGuarded, ends-IsGuarded,
}

step-IsGuarded : (c d : Campaign) → Step NoneBetween c d → IsGuarded c → IsGuarded d
step-IsGuarded c _ (spawns p dead) g = spawns-IsGuarded c p g
step-IsGuarded c _ (dies p) g = dies-IsGuarded c p g
step-IsGuarded c _ (looks p live out between) g = looks-IsGuarded c p live between g
step-IsGuarded c _ (writes p now here) g = writes-IsGuarded c p now here g
step-IsGuarded c _ (ends p here) g = ends-IsGuarded c p here g

reachable-IsGuarded : (c : Campaign) → IsReachable NoneBetween c → IsGuarded c
reachable-IsGuarded _ (initial lock) = record {
  held = λ p h. absurd (false≢true h);
  apart = λ p q h. refl;
  alone = λ p q h h'. absurd (false≢true h);
  lives = λ p h. absurd (false≢true h);
}
reachable-IsGuarded d (after {c = c} before step) =
    step-IsGuarded c d step (reachable-IsGuarded c before)

-- If no process looks at the lock while another stands between its look and its write, then while a
-- process is in a pass no other one is, it lives, and the lock file names it: however processes are
-- started, die at any point and end their passes, whatever lock file was there at first, and also
-- where the number of a dead process is given to a new one.
pub separate-Exclusive :
    (c : Campaign)
    → IsReachable NoneBetween c
    → (p : ℕ) → c.stage p ≡ passing
    → ((q : ℕ) → (q == p) ≡ false → is_passing (c.stage q) ≡ false)
      × (c.alive p ≡ true)
      × ((own : LockInfo) × (c.lock ≡ some own) × (own.pid ≡ p))
separate-Exclusive c reachable p here =
    let g = reachable-IsGuarded c reachable in
    let in_pass : is_passing (c.stage p) ≡ true = ap is_passing here in
    let (live, holds) = g.held p in_pass in
    (
      λ q other.
          not-passing (is_passing (c.stage q))
            (λ h. let same = held-same c g q p h in_pass in ground (arith, same, other)),
      live,
      holds,
    )
