-- ===== src/Tests/Guards.antt =====
-- The spinlocks with a few threads.
use leveldb_daemon.Prelude.{◌+◌, ◌≡◌, ◌≤◌, ◌↔◌, refl, true}
use leveldb_daemon.Locks.{
  new_spinlock, try_lock, Guarded, enter, SpinReach, new_multispinlock, take_write, Shared,
  write_taken, SharedReach, unshared,
}
use leveldb_daemon.Locks.Exclusion.{
  spinlock_excludes, writers_exclude, readers_beside_writer, beside_writer,
}

abbrev entered : Guarded
entered = record { lock = (try_lock new_spinlock).1; inside = 1 }

entered-SpinReach : SpinReach entered
unfolding try_lock
entered-SpinReach = SpinReach.more SpinReach.unused (enter _ refl)

spinlock_excludes_example :
    (entered.inside ≤ 1) × (((try_lock entered.lock).0 ≡ true) ↔ (entered.inside ≡ 0))
spinlock_excludes_example = spinlock_excludes entered-SpinReach

abbrev taken : Shared
taken = record unshared { lock = (take_write new_multispinlock).1; waiting = 1 }

taken-SharedReach : SharedReach taken
unfolding take_write
taken-SharedReach = SharedReach.more SharedReach.unused (write_taken _ refl)

writers_exclude_example : (taken.waiting + taken.writing ≤ 1) × (taken.lock.rvalue ≡ 0)
writers_exclude_example = writers_exclude taken-SharedReach

readers_beside_writer_example : SharedReach (beside_writer 1 2)
readers_beside_writer_example = readers_beside_writer 1 2
