-- ===== src/Runner/Lock.antt =====
-- plugins/tribe/scripts/runner/core/loop/lock.ts: the lock of a campaign, and the processes that take
-- it. What `readLock` and `isProcessAlive` answer is in a `Campaign`.
pub mod Race
pub mod Guarded
pub mod Separate
mod Examples
use tribe.Base.{◌≡◌, ℕ, Bool, true, false, Option, none, some, ◌==◌, if◌then◌else◌, String}

pub record LockInfo : Type 0 where
  pub pid : ℕ
  pub started_at : String

pub data LockResult : Type 0 where
  acquired : LockResult
  refused : LockInfo → LockResult

unfoldable pub live_lock_holder : Option LockInfo → (ℕ → Bool) → Option LockInfo
live_lock_holder none alive = none
live_lock_holder (some existing) alive = if alive existing.pid then some existing else none

-- Where a process stands: out of a pass, in `acquireLock` behind its look at the lock and before
-- its write, or in a pass.
pub data Stage : Type 0 where
  idle cleared passing : Stage

abbrev pub is_cleared : Stage → Bool
is_cleared cleared = true
is_cleared _ = false

abbrev pub is_passing : Stage → Bool
is_passing passing = true
is_passing _ = false

-- The lock file, the processes that live, and where each stands.
pub record Campaign : Type 0 where
  pub lock : Option LockInfo
  pub alive : ℕ → Bool
  pub stage : ℕ → Stage

abbrev pub set : {A : Type 0} → (ℕ → A) → ℕ → A → ℕ → A
set f p a q = if q == p then a else f q

-- The answer of `acquireLock`, of the holder that it saw.
abbrev pub answer_of : Option LockInfo → LockResult
answer_of none = acquired
answer_of (some held_by) = refused held_by

abbrev pub stage_after : LockResult → Stage
stage_after acquired = cleared
stage_after (refused held_by) = idle

-- The first half of `acquireLock`: the look at the lock file and at its holder.
unfoldable pub look_at_lock : ℕ → Campaign → Campaign
look_at_lock p c = record c {
  stage = set c.stage p (stage_after (answer_of (live_lock_holder c.lock c.alive)));
}

-- The second half: the lock file is written, whatever it holds by then.
unfoldable pub write_lock : ℕ → String → Campaign → Campaign
write_lock p now c = record c {
  lock = some (record { pid = p; started_at = now });
  stage = set c.stage p passing;
}

-- `releaseLock`, at the end of a pass.
unfoldable pub release_lock : ℕ → Campaign → Campaign
release_lock p c = record c { lock = none; stage = set c.stage p idle }

unfoldable pub spawn_process : ℕ → Campaign → Campaign
spawn_process p c = record c { alive = set c.alive p true }

-- A process that dies leaves its lock file behind.
unfoldable pub kill_process : ℕ → Campaign → Campaign
kill_process p c = record c { alive = set c.alive p false; stage = set c.stage p idle }

-- What can happen to a campaign: the halves of `acquireLock` are steps of their own. A look is
-- taken where `May` holds; the number of a dead process may be given to a new one.
pub data Step (May : Campaign → Type 0) : Campaign → Campaign → Type 0 where
  spawns : {c : Campaign} (p : ℕ) → c.alive p ≡ false → Step May c (spawn_process p c)
  dies : {c : Campaign} (p : ℕ) → Step May c (kill_process p c)
  looks :
      {c : Campaign} (p : ℕ)
      → c.alive p ≡ true
      → c.stage p ≡ idle
      → May c
      → Step May c (look_at_lock p c)
  writes :
      {c : Campaign} (p : ℕ) (now : String) → c.stage p ≡ cleared → Step May c (write_lock p now c)
  ends : {c : Campaign} (p : ℕ) → c.stage p ≡ passing → Step May c (release_lock p c)

-- No process lives, whatever lock file a crash has left.
abbrev pub at_rest : Option LockInfo → Campaign
at_rest lock = record { lock = lock; alive = λ p. false; stage = λ p. idle }

pub data IsReachable (May : Campaign → Type 0) : Campaign → Type 0 where
  initial : (lock : Option LockInfo) → IsReachable May (at_rest lock)
  after : {c d : Campaign} → IsReachable May c → Step May c d → IsReachable May d
