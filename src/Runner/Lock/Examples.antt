-- ===== src/Runner/Lock/Examples.antt =====
-- The theorems on the lock of a campaign (plugins/tribe/scripts/runner/core/loop/lock.ts): two starts at
-- once, and a start after a crash.
use tribe.Base.{◌≡◌, refl, ℕ, true, false, none, some, ◌==◌, Bool-cases, inl, inr}
use tribe.Runner.Lock.{
  LockInfo, Campaign, passing, is_passing, live_lock_holder, look_at_lock, write_lock,
  spawn_process, kill_process, at_rest, IsReachable, initial, after, spawns, dies, looks, writes,
}
use tribe.Runner.Lock.Race.{Any, both_in_pass}
use tribe.Runner.Lock.Guarded.{NoneBetween}
use tribe.Runner.Lock.Separate.{separate-Exclusive}

both_in_pass_example :
    (c : Campaign) × IsReachable Any c
    × (c.stage 7 ≡ passing)
    × (c.stage 8 ≡ passing)
    × (c.alive 7 ≡ true)
    × (c.alive 8 ≡ true)
both_in_pass_example = both_in_pass 7 8 refl

abbrev passes : Campaign
passes = write_lock 7 "t1" (look_at_lock 7 (spawn_process 7 (at_rest none)))

-- The process 7 dies in its pass.
abbrev restarted : Campaign
restarted = spawn_process 8 (kill_process 7 passes)

abbrev taken_over : Campaign
taken_over = write_lock 8 "t2" (look_at_lock 8 restarted)

taken_over-IsReachable : IsReachable NoneBetween taken_over
unfolding write_lock look_at_lock spawn_process kill_process live_lock_holder
taken_over-IsReachable =
    let crashed =
      after
        (after (after (after (initial none) (spawns 7 refl)) (looks 7 refl refl (λ p. refl)))
          (writes 7 "t1" refl))
        (dies 7) in
    after (after (after crashed (spawns 8 refl)) (looks 8 refl refl quiet)) (writes 8 "t2" refl)
  where
    quiet : NoneBetween restarted
    quiet p = elim (Bool-cases (p == 7)) [ inl e ↦ rw e refl | inr e ↦ rw e refl ]

taken_over-passing : taken_over.stage 8 ≡ passing
unfolding write_lock
taken_over-passing = refl

separate-Exclusive_example :
    ((q : ℕ) → (q == 8) ≡ false → is_passing (taken_over.stage q) ≡ false)
    × (taken_over.alive 8 ≡ true)
    × ((own : LockInfo) × (taken_over.lock ≡ some own) × (own.pid ≡ 8))
separate-Exclusive_example =
    separate-Exclusive taken_over taken_over-IsReachable 8 taken_over-passing
