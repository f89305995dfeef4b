-- ===== src/Db.antt =====
-- The interface of LevelDB that src/db.hpp opens and the handlers call: LevelDB is not in the
-- repository, so its types and operations are parameters, and `Contract` is what its documentation
-- promises of them.
pub mod Entries
pub mod Above
pub mod Same
pub mod Memory
use leveldb_daemon.Prelude.{◌≡◌, Bool, true, not, Option, List, ◌∷◌, is_empty}
use leveldb_daemon.Prelude.Bytes.{Bytes}
use leveldb_daemon.Db.Entries.{Entry, find, insert, remove, from_key, IsSorted}

pub record Leveldb : Type 1 where
  pub Db : Type 0
  pub Iterator : Type 0
  -- `Get(...)`: the value if the status is ok
  pub get : Db → Bytes → Option Bytes
  -- `Put(...)` and `Delete(...)`, with `.ok()` of the status
  pub put : Db → Bytes → Bytes → Db × Bool
  pub delete : Db → Bytes → Db × Bool
  pub new_iterator : Db → Iterator
  pub seek : Iterator → Bytes → Iterator
  pub seek_to_first : Iterator → Iterator
  pub valid : Iterator → Bool
  pub next : Iterator → Iterator
  pub key : Iterator → Bytes
  pub value : Iterator → Bytes

-- The documented behaviour: a sorted map of keys, writes that succeed are seen by later reads, and an
-- iterator walks a snapshot in key order. A write that fails may leave any contents, and `next` past
-- the end may do anything.
pub record Contract (L : Leveldb) : Type 0 where
  pub entries : L.Db → List Entry
  pub snapshot : L.Iterator → List Entry
  pub rest : L.Iterator → List Entry
  pub entries_sorted : (d : L.Db) → IsSorted (entries d)
  pub get_entries : (d : L.Db) (k : Bytes) → L.get d k ≡ find k (entries d)
  pub put_entries :
      (d : L.Db) (k v : Bytes)
      → (L.put d k v).1 ≡ true
      → entries (L.put d k v).0 ≡ insert k v (entries d)
  pub delete_entries :
      (d : L.Db) (k : Bytes)
      → (L.delete d k).1 ≡ true
      → entries (L.delete d k).0 ≡ remove k (entries d)
  pub snapshot-new : (d : L.Db) → snapshot (L.new_iterator d) ≡ entries d
  pub rest-first : (it : L.Iterator) → rest (L.seek_to_first it) ≡ snapshot it
  pub rest-seek : (it : L.Iterator) (k : Bytes) → rest (L.seek it k) ≡ from_key k (snapshot it)
  pub valid_rest : (it : L.Iterator) → L.valid it ≡ not (is_empty (rest it))
  pub next_rest :
      (it : L.Iterator) (e : Entry) (es : List Entry)
      → rest it ≡ e ∷ es
      → (L.key it ≡ e.0) × (L.value it ≡ e.1) × (rest (L.next it) ≡ es)
