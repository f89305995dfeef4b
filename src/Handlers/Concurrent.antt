-- ===== src/Handlers/Concurrent.antt =====
-- src/fas_methods.hpp: the handlers that read and write a key, in several threads at once. The locks of the
-- keys (`LockManager` of src/db.hpp) are taken by `add`, `inc` and `inc_add` around the `Get` and the
-- `Put` of one key, and not by `set`. The calls of `Replication::set` are recorded in their order; an access
-- to the database, to a lock or to the replication is one step.
pub mod Atomic
pub mod Sequential
pub mod Races
pub mod Progress
use leveldb_daemon.Prelude.{
  at_index, ℕ, zero, suc, ◌+◌, ◌≡◌, Bool, true, false, Option, none, some, List, [], ◌∷◌, ◌++◌,
  ◌==◌, if◌then◌else◌,
}
use leveldb_daemon.Prelude.Int.{ℤ, pos, add_i64}
use leveldb_daemon.Prelude.Bytes.{Bytes}
use leveldb_daemon.Assoc
use leveldb_daemon.Locks.{Spinlock, try_lock, unlock}
use leveldb_daemon.Db.{Leveldb}
use leveldb_daemon.Db.Entries.{Entry}
use leveldb_daemon.Db.Memory.{lock_of}
use leveldb_daemon.Serializers.{Serializers}

-- What a handler does with the value that it has read: it leaves the key, puts a value, or throws.
pub data Change : Type 0 where
  leave : Change
  put : Bytes → Change
  fail : Change

-- One round of a handler's loop: with the lock of the key, or without (`set`).
pub data Item : Type 0 where
  locked_update : Bytes → (Option Bytes → Change) → Item
  plain_put : Bytes → Bytes → Item

-- Where a handler is: before a round, with the lock, with the value it has read, behind the `Put`, behind
-- a throw, and at its end.
pub data At : Type 0 where
  between locked : At
  fetched : Option Bytes → At
  stored aborting finished : At

-- A thread that runs a handler: the rounds from the current one on, and what it will replicate.
pub record Thread : Type 0 where
  pub todo : List Item
  pub result : List Entry
  pub at : At

abbrev pub new_thread : List Item → Thread
new_thread items = record { todo = items; result = []; at = between }

-- Whether a handler has the lock of the key, the key of its round, and the number of its lock.
abbrev pub holds : At → Bool
holds between = false
holds locked = true
holds (fetched r) = true
holds stored = true
holds aborting = true
holds finished = false

abbrev pub key_of : List Item → Bytes
key_of [] = []
key_of (locked_update k f ∷ items) = k
key_of (plain_put k v ∷ items) = k

abbrev pub number : (Bytes → ℕ) → Thread → ℕ
number hash t = lock_of hash (key_of t.todo)

module _ (J : Serializers) where
  -- The rounds of `add`, `inc` and `inc_add`
  abbrev pub add_change : Bytes → Option Bytes → Change
  add_change v none = put v
  add_change v (some r) = leave

  abbrev pub inc_change : ℤ → ℤ → Option Bytes → Change
  inc_change unset n none = leave
  inc_change unset n (some r) =
      let (val, returned) = J.parse_i64 unset r in
      if returned then put (J.print_i64 (add_i64 val n)) else fail

  abbrev pub inc_add_change : ℤ → Option ℤ → ℤ → Option Bytes → Change
  inc_add_change unset def n none =
      put (J.print_i64 (add_i64 (elim def as (λ o. ℤ) [ some v ↦ v | none ↦ pos 0 ]) n))
  inc_add_change unset def n (some r) =
      let (val, returned) = J.parse_i64 unset r in
      put (J.print_i64 (add_i64 (if returned then val else pos 0) n))

module _ (L : Leveldb) (hash : Bytes → ℕ) where
  -- What the threads share.
  pub record Memory : Type 0 where
    pub db : L.Db
    pub locks : ℕ → Spinlock
    pub calls : List (List Entry)

  -- The database and the thread after the `Put`; a pair that was written is replicated later.
  abbrev pub after_put : Bytes → Bytes → Memory → Memory
  after_put k v m = record m { db = (L.put m.db k v).0 }

  abbrev pub pushed : Bytes → Bytes → Memory → List Entry → List Entry
  pushed k v m result = if (L.put m.db k v).1 then result ++ (k, v) ∷ [] else result

  pub data Move : Memory → Thread → Memory → Thread → Type 0 where
    acquire :
        (m : Memory) (t : Thread) (k : Bytes) (f : Option Bytes → Change) (items : List Item)
        → t.at ≡ between
        → t.todo ≡ locked_update k f ∷ items
        → (try_lock (m.locks (lock_of hash k))).0 ≡ true
        → Move m t
            (record m {
              locks = at_index m.locks (lock_of hash k) (try_lock (m.locks (lock_of hash k))).1;
            })
            (record t { at = locked })
    fetch :
        (m : Memory) (t : Thread) (k : Bytes) (f : Option Bytes → Change) (items : List Item)
        → t.at ≡ locked
        → t.todo ≡ locked_update k f ∷ items
        → Move m t m (record t { at = fetched (L.get m.db k) })
    store :
        (m : Memory) (t : Thread) (k : Bytes) (f : Option Bytes → Change) (items : List Item)
        (r : Option Bytes) (v : Bytes)
        → t.at ≡ fetched r
        → t.todo ≡ locked_update k f ∷ items
        → f r ≡ put v
        → Move m t (after_put k v m) (record t { at = stored; result = pushed k v m t.result })
    skip :
        (m : Memory) (t : Thread) (k : Bytes) (f : Option Bytes → Change) (items : List Item)
        (r : Option Bytes)
        → t.at ≡ fetched r
        → t.todo ≡ locked_update k f ∷ items
        → f r ≡ leave
        → Move m t m (record t { at = stored })
    abort :
        (m : Memory) (t : Thread) (k : Bytes) (f : Option Bytes → Change) (items : List Item)
        (r : Option Bytes)
        → t.at ≡ fetched r
        → t.todo ≡ locked_update k f ∷ items
        → f r ≡ fail
        → Move m t m (record t { at = aborting })
    release :
        (m : Memory) (t : Thread) (k : Bytes) (f : Option Bytes → Change) (items : List Item)
        → t.at ≡ stored
        → t.todo ≡ locked_update k f ∷ items
        → Move m t
            (record m {
              locks = at_index m.locks (lock_of hash k) (unlock (m.locks (lock_of hash k)));
            })
            (record t { at = between; todo = items })
    unwind :
        (m : Memory) (t : Thread) (k : Bytes) (f : Option Bytes → Change) (items : List Item)
        → t.at ≡ aborting
        → t.todo ≡ locked_update k f ∷ items
        → Move m t
            (record m {
              locks = at_index m.locks (lock_of hash k) (unlock (m.locks (lock_of hash k)));
            })
            (record t { at = finished; todo = items })
    assign :
        (m : Memory) (t : Thread) (k v : Bytes) (items : List Item)
        → t.at ≡ between
        → t.todo ≡ plain_put k v ∷ items
        → Move m t (after_put k v m) (record t { todo = items; result = t.result ++ (k, v) ∷ [] })
    replicate :
        (m : Memory) (t : Thread)
        → t.at ≡ between
        → t.todo ≡ []
        → Move m t (record m { calls = m.calls ++ t.result ∷ [] }) (record t { at = finished })

  pub record World : Type 0 where
    pub memory : Memory
    pub threads : ℕ → Thread

  pub data Step : World → World → Type 0 where
    pick :
        (w : World) (i : ℕ) {m : Memory} {t : Thread}
        → Move w.memory (w.threads i) m t
        → Step w (record { memory = m; threads = at_index w.threads i t })

  pub data Reach (w : World) : World → Type 0 where
    here : Reach w w
    next : {u v : World} → Reach w u → Step u v → Reach w v
