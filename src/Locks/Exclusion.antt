-- ===== src/Locks/Exclusion.antt =====
-- common/lock_atomic.hpp: who may hold the spinlocks at the same time.
use leveldb_daemon.Prelude.{ℕ, zero, suc, ◌+◌, ◌≡◌, ◌≤◌, ◌↔◌, refl, sym, Bool, true, false, arith}
use leveldb_daemon.Locks.{
  try_lock, unlock, Guarded, SpinStep, enter, spin, leave, SpinReach, take_write, no_readers,
  unlock_write, no_writer, count_reader, unlock_r, Shared, SharedStep, write_taken, write_spin,
  write_enter, write_leave, read_pass, read_enter, read_leave, SharedReach, unshared,
}

abbrev as_number : Bool → ℕ
as_number true = 1
as_number false = 0

SpinStep-inside :
    {g h : Guarded}
    → SpinStep g h
    → g.inside ≡ as_number g.lock.value
    → h.inside ≡ as_number h.lock.value
unfolding try_lock unlock
SpinStep-inside (enter g e) i = ground arith
SpinStep-inside (spin g e) i = ground arith
SpinStep-inside (leave g e) i = ground arith

SpinReach-inside : {g : Guarded} → SpinReach g → g.inside ≡ as_number g.lock.value
SpinReach-inside SpinReach.unused = refl
SpinReach-inside (SpinReach.more r s) = SpinStep-inside s (SpinReach-inside r)

-- However the threads are interleaved, at most one is between `lock` and `unlock`, and an attempt to
-- take the lock succeeds exactly if none is.
pub spinlock_excludes :
    {g : Guarded} → SpinReach g → (g.inside ≤ 1) × (((try_lock g.lock).0 ≡ true) ↔ (g.inside ≡ 0))
unfolding try_lock
spinlock_excludes r =
    let i = SpinReach-inside r in
    (ground (arith, i), (λ e. ground (arith, i), λ e. ground (arith, i)))

-- What every reachable state has.
record SharedInv (s : Shared) : Type 0 where
  pub writers : s.waiting + s.writing ≡ as_number s.lock.wvalue
  pub readers : s.reading ≡ s.lock.rvalue

SharedStep-Inv : {s t : Shared} → SharedStep s t → SharedInv s → SharedInv t
unfolding take_write no_readers unlock_write no_writer count_reader unlock_r
SharedStep-Inv (write_taken s e) i = record {
  writers = ground (arith, i.writers);
  readers = i.readers;
}
SharedStep-Inv (write_spin s e) i = record {
  writers = ground (arith, i.writers);
  readers = i.readers;
}
SharedStep-Inv (write_enter s w e) i = record {
  writers = ground (arith, i.writers);
  readers = i.readers;
}
SharedStep-Inv (write_leave s w) i = record {
  writers = ground (arith, i.writers);
  readers = i.readers;
}
SharedStep-Inv (read_pass s e) i = record { writers = i.writers; readers = i.readers }
SharedStep-Inv (read_enter s p) i = record {
  writers = i.writers;
  readers = ground (arith, i.readers);
}
SharedStep-Inv (read_leave s p) i = record {
  writers = i.writers;
  readers = ground (arith, i.readers);
}

SharedReach-Inv : {s : Shared} → SharedReach s → SharedInv s
SharedReach-Inv SharedReach.unused = record { writers = refl; readers = refl }
SharedReach-Inv (SharedReach.more r st) = SharedStep-Inv st (SharedReach-Inv r)

-- However the threads are interleaved, at most one writer holds a multispinlock or waits between the
-- loops of `lock`, and the count of the lock is the number of the readers inside.
pub writers_exclude :
    {s : Shared} → SharedReach s → (s.waiting + s.writing ≤ 1) × (s.lock.rvalue ≡ s.reading)
writers_exclude r = let i = SharedReach-Inv r in (ground (arith, i.writers), sym i.readers)

-- Readers between the test and the increment.
abbrev readers_passed : ℕ → Shared
readers_passed k = record unshared { passed = k }

passed-SharedReach : (k : ℕ) → SharedReach (readers_passed k)
unfolding no_writer
passed-SharedReach zero = SharedReach.unused
passed-SharedReach (suc k) = SharedReach.more (passed-SharedReach k) (read_pass _ refl)

-- A writer that came in then, and readers that followed it.
abbrev pub beside_writer : ℕ → ℕ → Shared
beside_writer j k = record {
  lock = record { rvalue = k; wvalue = true };
  waiting = 0;
  writing = 1;
  passed = j;
  reading = k;
}

writer-SharedReach : (j : ℕ) → SharedReach (beside_writer j 0)
unfolding take_write no_readers
writer-SharedReach j =
    SharedReach.more (SharedReach.more (passed-SharedReach j) (write_taken _ refl))
      (write_enter _ (omega arith) refl)

-- Any number of readers may be inside together with a writer: they tested `wvalue` before the writer
-- set it, and count themselves after the writer has looked for readers.
pub readers_beside_writer : (j k : ℕ) → SharedReach (beside_writer j k)
unfolding count_reader
readers_beside_writer j zero = writer-SharedReach j
readers_beside_writer j (suc k) =
    SharedReach.more (readers_beside_writer (suc j) k) (read_enter _ (omega arith))
