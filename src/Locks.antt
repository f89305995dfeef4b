-- ===== src/Locks.antt =====
-- common/lock_atomic.hpp: the spinlocks. Each atomic access is one step; a loop that spins is a step
-- that may be taken again.
pub mod Exclusion
use leveldb_daemon.Prelude.{ℕ, suc, pred, ◌≡◌, ◌<◌, Bool, true, false, not, ◌==◌}

-- class spinlock
pub record Spinlock : Type 0 where
  pub value : Bool

abbrev pub new_spinlock : Spinlock
new_spinlock = record { value = false }

-- value.exchange(true)
unfoldable pub exchange : Spinlock → Bool × Spinlock
exchange l = (l.value, record { value = true })

-- spinlock::try_lock; one round of the loop of `spinlock::lock`, which ends with the result true
unfoldable pub try_lock : Spinlock → Bool × Spinlock
unfolding exchange
try_lock l = let (old, l') = exchange l in (not old, l')

-- spinlock::unlock
unfoldable pub unlock : Spinlock → Spinlock
unlock l = record { value = false }

-- class multispinlock
pub record Multispinlock : Type 0 where
  pub rvalue : ℕ
  pub wvalue : Bool

abbrev pub new_multispinlock : Multispinlock
new_multispinlock = record { rvalue = 0; wvalue = false }

-- One round of the first loop of `multispinlock::lock`: whether the loop is left.
unfoldable pub take_write : Multispinlock → Bool × Multispinlock
take_write l = (not l.wvalue, record l { wvalue = true })

-- One round of its second loop.
unfoldable pub no_readers : Multispinlock → Bool
no_readers l = l.rvalue == 0

-- multispinlock::unlock
unfoldable pub unlock_write : Multispinlock → Multispinlock
unlock_write l = record l { wvalue = false }

-- One round of the loop of `multispinlock::lock_r`.
unfoldable pub no_writer : Multispinlock → Bool
no_writer l = not l.wvalue

-- rvalue++, rvalue--
unfoldable pub count_reader : Multispinlock → Multispinlock
count_reader l = record l { rvalue = suc l.rvalue }

unfoldable pub unlock_r : Multispinlock → Multispinlock
unlock_r l = record l { rvalue = pred l.rvalue }

-- A spinlock and how many threads are between `lock` (or a `try_lock` that returned true) and `unlock`.
pub record Guarded : Type 0 where
  pub lock : Spinlock
  pub inside : ℕ

pub data SpinStep : Guarded → Guarded → Type 0 where
  enter :
      (g : Guarded)
      → (try_lock g.lock).0 ≡ true
      → SpinStep g (record { lock = (try_lock g.lock).1; inside = suc g.inside })
  spin :
      (g : Guarded)
      → (try_lock g.lock).0 ≡ false
      → SpinStep g (record g { lock = (try_lock g.lock).1 })
  leave :
      (g : Guarded)
      → 0 < g.inside
      → SpinStep g (record { lock = unlock g.lock; inside = pred g.inside })

pub data SpinReach : Guarded → Type 0 where
  unused : SpinReach (record { lock = new_spinlock; inside = 0 })
  more : {g h : Guarded} → SpinReach g → SpinStep g h → SpinReach h

-- A multispinlock and the threads at each point of the code: writers between the two loops of `lock`,
-- writers inside, readers between the loop of `lock_r` and the increment, and readers inside.
pub record Shared : Type 0 where
  pub lock : Multispinlock
  pub waiting : ℕ
  pub writing : ℕ
  pub passed : ℕ
  pub reading : ℕ

pub data SharedStep : Shared → Shared → Type 0 where
  write_taken :
      (s : Shared)
      → (take_write s.lock).0 ≡ true
      → SharedStep s (record s { lock = (take_write s.lock).1; waiting = suc s.waiting })
  write_spin :
      (s : Shared)
      → (take_write s.lock).0 ≡ false
      → SharedStep s (record s { lock = (take_write s.lock).1 })
  write_enter :
      (s : Shared)
      → 0 < s.waiting
      → no_readers s.lock ≡ true
      → SharedStep s (record s { waiting = pred s.waiting; writing = suc s.writing })
  write_leave :
      (s : Shared)
      → 0 < s.writing
      → SharedStep s (record s { lock = unlock_write s.lock; writing = pred s.writing })
  read_pass :
      (s : Shared) → no_writer s.lock ≡ true → SharedStep s (record s { passed = suc s.passed })
  read_enter :
      (s : Shared)
      → 0 < s.passed
      → SharedStep s
          (record s { lock = count_reader s.lock; passed = pred s.passed; reading = suc s.reading })
  read_leave :
      (s : Shared)
      → 0 < s.reading
      → SharedStep s (record s { lock = unlock_r s.lock; reading = pred s.reading })

abbrev pub unshared : Shared
unshared = record { lock = new_multispinlock; waiting = 0; writing = 0; passed = 0; reading = 0 }

pub data SharedReach : Shared → Type 0 where
  unused : SharedReach unshared
  more : {s t : Shared} → SharedReach s → SharedStep s t → SharedReach t
