-- ===== src/Multiserver/Lifecycle.antt =====
-- common/multiserver.hpp: one request between the connection that read it, which may be closed and then
-- runs `ad_invoke_first::clear`, and the thread of a pool that takes it from the queue. Each access
-- to what both see is a step. The connection's spinlock is held by `clear` for a whole round, and by
-- `delete_request` for one step.
pub mod Safety
use leveldb_daemon.Prelude.{
  ℕ, ◌≡◌, ◌⊎◌, ◌≢◌, inl, inr, refl, ap, sym, ◌∙◌, Bool, true, false, not, ◌&&◌, ◌||◌, arith,
  if◌then◌else◌,
}
use leveldb_daemon.Prelude.{Bool-cases}
use leveldb_daemon.Locks.{Spinlock, new_spinlock, try_lock, unlock}

-- Where the thread of the pool is in `threadproc`: before `try_pop`, at the first test of the client, at
-- `lock`, at the second test, at `delete_request` in `clean`, behind it, at `unlock`, at `delete`, and
-- past it.
pub data WorkerAt : Type 0 where
  before_pop first_test locking second_test leaving_set dropping unlocking deleting past : WorkerAt

-- Where the connection is in `clear`: outside of a round, at `try_lock` of this request, at the
-- assignment of its client, at `unlock`, and at the end of the round, with or without the request.
pub data ClearAt : Type 0 where
  outside trying detaching releasing kept taken : ClearAt

-- The request, and both threads. `has_client` is `client != 0`, `in_set` that it is in the connection's
-- set, and `is_freed` that it was deleted.
pub record Shared : Type 0 where
  pub mtx : Spinlock
  pub has_client : Bool
  pub in_set : Bool
  pub is_freed : Bool
  pub worker : WorkerAt
  pub clearing : ClearAt

-- A request that was put into the set and the queue.
abbrev pub queued : Shared
queued = record {
  mtx = new_spinlock;
  has_client = true;
  in_set = true;
  is_freed = false;
  worker = before_pop;
  clearing = outside;
}

-- A round of `clear` is running: the connection's spinlock is held.
abbrev pub in_round : ClearAt → Bool
in_round outside = false
in_round trying = true
in_round detaching = true
in_round releasing = true
in_round kept = true
in_round taken = true

pub data Step : Shared → Shared → Type 0 where
  pop : (s : Shared) → s.worker ≡ before_pop → Step s (record s { worker = first_test })
  test_client :
      (s : Shared)
      → s.worker ≡ first_test
      → Step s (record s { worker = if s.has_client then locking else deleting })
  lock :
      (s : Shared)
      → s.worker ≡ locking
      → (try_lock s.mtx).0 ≡ true
      → Step s (record s { mtx = (try_lock s.mtx).1; worker = second_test })
  test_again :
      (s : Shared)
      → s.worker ≡ second_test
      → Step s (record s { worker = if s.has_client then leaving_set else unlocking })
  delete_request :
      (s : Shared)
      → s.worker ≡ leaving_set
      → in_round s.clearing ≡ false
      → Step s (record s { in_set = false; worker = dropping })
  drop_client :
      (s : Shared)
      → s.worker ≡ dropping
      → Step s (record s { has_client = false; worker = unlocking })
  unlock_request :
      (s : Shared)
      → s.worker ≡ unlocking
      → Step s (record s { mtx = unlock s.mtx; worker = deleting })
  delete_it :
      (s : Shared) → s.worker ≡ deleting → Step s (record s { is_freed = true; worker = past })
  begin_round :
      (s : Shared)
      → s.clearing ≡ outside
      → s.in_set ≡ true
      → Step s (record s { clearing = trying })
  try_it :
      (s : Shared)
      → s.clearing ≡ trying
      → Step s (record s {
        mtx = (try_lock s.mtx).1;
        clearing = if (try_lock s.mtx).0 then detaching else kept;
      })
  detach :
      (s : Shared)
      → s.clearing ≡ detaching
      → Step s (record s { has_client = false; clearing = releasing })
  release :
      (s : Shared)
      → s.clearing ≡ releasing
      → Step s (record s { mtx = unlock s.mtx; clearing = taken })
  keep_it : (s : Shared) → s.clearing ≡ kept → Step s (record s { clearing = outside })
  take_out :
      (s : Shared) → s.clearing ≡ taken → Step s (record s { in_set = false; clearing = outside })

pub data Reach (s : Shared) : Shared → Type 0 where
  here : Reach s s
  more : {t u : Shared} → Reach s t → Step t u → Reach s u
