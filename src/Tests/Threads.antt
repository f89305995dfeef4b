-- ===== src/Tests/Threads.antt =====
-- Handlers in two threads on concrete rounds.
use leveldb_daemon.Prelude.{false, at_index, ℕ, ◌≡◌, refl, Option, none, some, [], ◌∷◌, arith}
use leveldb_daemon.Prelude.Int.{pos, ◌+ℤ◌, wrap, add_i64}
use leveldb_daemon.Prelude.Bytes.{Bytes, codes, beq, blt}
use leveldb_daemon.Locks.{new_spinlock, try_lock, exchange}
use leveldb_daemon.Db.Entries.{find, insert}
use leveldb_daemon.Handlers.Concurrent.{
  Change, Item, locked_update, plain_put, between, locked, fetched, stored, finished, Thread,
  new_thread, acquire, fetch, store, World, Step, after_put, pick, Reach, here, next,
  inc_add_change,
}
use leveldb_daemon.Handlers.Concurrent.Atomic.{Starts, do_rounds, rounds, atomic_rounds}
use leveldb_daemon.Handlers.Writes.{get-put}
use leveldb_daemon.Handlers.Concurrent.Races.{updates_reordered, set_lost}
use leveldb_daemon.Handlers.Concurrent.Progress.{never_deadlocks}
use leveldb_daemon.Tests.Sample.{Log, sample, sample_contract, sample_writes, sample_json}

abbrev one_hash : Bytes → ℕ
one_hash k = 7

-- An `inc_add` of one key by n
abbrev plus : ℕ → Item
plus n = locked_update (codes "a") (inc_add_change sample_json (pos 0) none (pos n))

abbrev two_threads : Thread → Thread → World sample one_hash
two_threads s t = record {
  memory = record { db = []; locks = λ n. new_spinlock; calls = [] };
  threads = at_index (at_index (λ n. new_thread []) 1 t) 0 s;
}

abbrev incs : World sample one_hash
incs = two_threads (new_thread (plus 2 ∷ [])) (new_thread (plus 3 ∷ []))

sample_others :
    (d : Log) (k v j : Bytes) → beq k j ≡ false → sample.get (sample.put d k v).0 j ≡ sample.get d j
sample_others d k v j h =
    ground (arith, h, get-put sample sample_contract d k v j (sample_writes d k v))

incs-Starts : Starts sample sample_others one_hash incs
incs-Starts = record { idle = λ i. ground arith; covered = λ i. ground arith }

abbrev key_a : Bytes
key_a = codes "a"

abbrev plus_two : Option Bytes → Change
plus_two = inc_add_change sample_json (pos 0) none (pos 2)

abbrev first_locked : World sample one_hash
first_locked = record incs {
  memory = record incs.memory { locks = at_index incs.memory.locks 7 (try_lock new_spinlock).1 };
  threads = at_index incs.threads 0 (record (new_thread (plus 2 ∷ [])) { at = locked });
}

abbrev first_fetched : World sample one_hash
first_fetched = record first_locked {
  threads = at_index first_locked.threads 0 (record (first_locked.threads 0) { at = fetched none });
}

-- The first thread behind its `Put`, the second one not yet started.
abbrev first_stored : World sample one_hash
first_stored = record {
  memory = after_put sample one_hash key_a (0 ∷ 2 ∷ []) first_fetched.memory;
  threads =
      at_index first_fetched.threads 0
        (record (first_fetched.threads 0) { at = stored; result = (key_a, 0 ∷ 2 ∷ []) ∷ [] });
}

abbrev first_stored-Reach : Reach sample one_hash incs first_stored
unfolding add_i64 wrap ◌+ℤ◌ find insert beq blt try_lock exchange
first_stored-Reach =
    next
      (next (next here (pick incs 0 (acquire _ _ key_a plus_two [] refl refl refl)))
        (pick first_locked 0 (fetch _ _ key_a plus_two [] refl refl)))
      (pick first_fetched 0 (store _ _ key_a plus_two [] none (0 ∷ 2 ∷ []) refl refl refl))

atomic_rounds_example :
    first_stored.memory.db
    ≡ do_rounds sample (rounds sample sample_others one_hash first_stored-Reach) []
atomic_rounds_example = atomic_rounds sample sample_others one_hash incs-Starts first_stored-Reach

never_deadlocks_example : (v : World sample one_hash) × Step sample one_hash first_stored v
never_deadlocks_example =
    never_deadlocks sample one_hash incs-Starts.idle (λ n. refl) 0 first_stored-Reach (ground arith)

updates_reordered_example :
    (u : World sample one_hash) × Reach sample one_hash incs u
    × ((u.threads 0).at ≡ finished)
    × ((u.threads 1).at ≡ finished)
    × (sample.get u.memory.db (codes "a") ≡ some (0 ∷ 5 ∷ []))
    × (u.memory.calls ≡ ((codes "a", 0 ∷ 5 ∷ []) ∷ []) ∷ ((codes "a", 0 ∷ 2 ∷ []) ∷ []) ∷ [])
unfolding add_i64 wrap ◌+ℤ◌ find insert beq blt
updates_reordered_example =
    updates_reordered sample sample_contract sample_writes one_hash incs 0 1 (codes "a")
      (0 ∷ 2 ∷ []) (0 ∷ 5 ∷ []) (inc_add_change sample_json (pos 0) none (pos 2))
      (inc_add_change sample_json (pos 0) none (pos 3)) refl refl refl refl refl refl

abbrev inc_and_set : World sample one_hash
inc_and_set =
    two_threads (new_thread (plus 2 ∷ [])) (new_thread (plain_put (codes "a") (0 ∷ 9 ∷ []) ∷ []))

set_lost_example :
    (u : World sample one_hash) × Reach sample one_hash inc_and_set u
    × (u.threads 1 ≡ record { todo = []; result = (codes "a", 0 ∷ 9 ∷ []) ∷ []; at = between })
    × ((u.threads 0).result ≡ (codes "a", 0 ∷ 2 ∷ []) ∷ [])
    × (sample.get u.memory.db (codes "a") ≡ some (0 ∷ 2 ∷ []))
unfolding add_i64 wrap ◌+ℤ◌ find insert beq blt
set_lost_example =
    set_lost sample sample_contract sample_writes one_hash inc_and_set 0 1 (codes "a") (0 ∷ 2 ∷ [])
      (0 ∷ 9 ∷ []) (inc_add_change sample_json (pos 0) none (pos 2)) [] refl refl refl refl refl
