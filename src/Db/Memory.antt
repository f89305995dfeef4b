-- ===== src/Db/Memory.antt =====
-- src/db.hpp: the database in memory that stands there for tests (`ldb_mem_db` and `ldb_mem_Iterator`, in the
-- disabled branch), and `LockManager`. `std::map` is a sorted list; an iterator is the place in it. Each
-- method holds the lock of the database, an iterator as long as it lives, so that the map does not
-- change under it.
use leveldb_daemon.Prelude.{
  ℕ, zero, suc, pred, ◌%◌, ◌≤◌, ◌≡◌, refl, Bool, true, not, none, some, List, [], ◌∷◌, ◌==◌,
  if◌then◌else◌, arith, length, drop, is_empty, min, Option-cases,
}
use leveldb_daemon.Prelude.Bytes.{Bytes, blt, beq_refl}
use leveldb_daemon.Db.{Leveldb, Contract}
use leveldb_daemon.Db.Entries.{
  Entry, find, insert, remove, from_key, IsSorted, insert-IsSorted, remove-IsSorted, find-insert,
}

-- std::map::lower_bound, as a place
unfoldable pub lower_bound : Bytes → List Entry → ℕ
lower_bound k [] = 0
lower_bound k ((j, v) ∷ es) = let rest = lower_bound k es in if blt j k then suc rest else 0

-- data[key]: the value, and the map with the key
unfoldable pub subscript : Bytes → List Entry → Bytes × List Entry
subscript k es = elim (find k es) [ some v ↦ (v, es) | none ↦ ([], insert k [] es) ]

-- ldb_mem_db::Get: the status, the caller's value, and the map. The pointer to a new string is assigned to
-- the parameter, so that the caller's value stays.
unfoldable pub mem_get : Bytes → Bytes → List Entry → Bool × Bytes × List Entry
unfolding subscript
mem_get k value es = (true, value, (subscript k es).1)

-- ldb_mem_db::Put and ldb_mem_db::Delete
abbrev pub mem_put : Bytes → Bytes → List Entry → List Entry × Bool
mem_put k v es = (insert k v es, true)

abbrev pub mem_delete : Bytes → List Entry → List Entry × Bool
mem_delete k es = (remove k es, true)

-- class ldb_mem_Iterator
pub record MemIterator : Type 0 where
  pub data_of : List Entry
  pub place : ℕ

abbrev pub new_mem_iterator : List Entry → MemIterator
new_mem_iterator es = record { data_of = es; place = 0 }

-- Valid, SeekToFirst, SeekToLast, Seek, Next and Prev; an iterator behind the end has no place
abbrev pub mem_valid : MemIterator → Bool
mem_valid it = not (it.place == length it.data_of)

abbrev pub mem_seek_to_first : MemIterator → MemIterator
mem_seek_to_first it = record it { place = 0 }

abbrev pub mem_seek_to_last : MemIterator → MemIterator
mem_seek_to_last it = record it { place = length it.data_of }

abbrev pub mem_seek : MemIterator → Bytes → MemIterator
mem_seek it k = record it { place = lower_bound k it.data_of }

abbrev pub mem_next : MemIterator → MemIterator
mem_next it = record it { place = suc it.place }

abbrev pub mem_prev : MemIterator → MemIterator
mem_prev it = record it { place = pred it.place }

abbrev pub first_entry : List Entry → Entry
first_entry [] = ([], [])
first_entry (e ∷ es) = e

-- key and value, where the iterator is valid
abbrev pub mem_key : MemIterator → Bytes
mem_key it = (first_entry (drop it.place it.data_of)).0

abbrev pub mem_value : MemIterator → Bytes
mem_value it = (first_entry (drop it.place it.data_of)).1

-- LockManager::get
abbrev pub lock_number : ℕ → ℕ
lock_number n = n % 1024

abbrev pub lock_of : (Bytes → ℕ) → Bytes → ℕ
lock_of hash k = lock_number (hash k)

-- A map keeps its keys sorted.
abbrev pub MemDb : Type 0
MemDb = (es : List Entry) × IsSorted es

pub lower_bound_le : (k : Bytes) (es : List Entry) → lower_bound k es ≤ length es
unfolding lower_bound
lower_bound_le k [] = omega arith
lower_bound_le k ((j, v) ∷ es) = ground (arith, lower_bound_le k es)

-- An iterator of the map, up to its end.
abbrev pub Place : Type 0
Place = (it : MemIterator) × (it.place ≤ length it.data_of)

abbrev pub next_place : Place → Place
next_place it =
    (record it.0 { place = min (mem_next it.0).place (length it.0.data_of) }, omega arith)

-- The database with a `Get` that answers what the map holds; an iterator at the end stays there.
abbrev pub repaired : Leveldb
repaired = record {
  Db = MemDb;
  Iterator = Place;
  get = λ d k. find k d.0;
  put = λ d k v. (((mem_put k v d.0).0, insert-IsSorted k v d.0 d.1), (mem_put k v d.0).1);
  delete = λ d k. (((mem_delete k d.0).0, remove-IsSorted k d.0 d.1), (mem_delete k d.0).1);
  new_iterator = λ d. (new_mem_iterator d.0, omega arith);
  seek = λ it k. (mem_seek it.0 k, lower_bound_le k it.0.data_of);
  seek_to_first = λ it. (mem_seek_to_first it.0, omega arith);
  valid = λ it. mem_valid it.0;
  next = next_place;
  key = λ it. mem_key it.0;
  value = λ it. mem_value it.0;
}

pub drop-lower_bound : (k : Bytes) (es : List Entry) → drop (lower_bound k es) es ≡ from_key k es
unfolding lower_bound from_key
drop-lower_bound k [] = refl
drop-lower_bound k ((j, v) ∷ es) = ground (arith, drop-lower_bound k es)

pub drop-is_empty :
    (n : ℕ) (es : List Entry) → n ≤ length es → not (n == length es) ≡ not (is_empty (drop n es))
drop-is_empty zero [] h = refl
drop-is_empty zero (e ∷ es) h = ground arith
drop-is_empty (suc n) [] h = absurd (omega arith)
drop-is_empty (suc n) (e ∷ es) h = ground (arith, drop-is_empty n es (omega arith))

drop-next :
    (n : ℕ) (es : List Entry) (e : Entry) (rest : List Entry)
    → drop n es ≡ e ∷ rest
    → drop (min (suc n) (length es)) es ≡ rest
drop-next zero [] e rest h = absurd (ground arith)
drop-next zero (d ∷ es) e rest h =
    let one : min 1 (suc (length es)) ≡ suc zero = omega arith in rw one (ground arith)
drop-next (suc n) [] e rest h = absurd (ground arith)
drop-next (suc n) (d ∷ es) e rest h =
    let one : min (suc (suc n)) (suc (length es)) ≡ suc (min (suc n) (length es)) = omega arith in
    rw one (drop-next n es e rest h)

pub next_place_lem :
    (it : Place) (e : Entry) (rest : List Entry)
    → drop it.0.place it.0.data_of ≡ e ∷ rest
    → (mem_key it.0 ≡ e.0)
      × (mem_value it.0 ≡ e.1)
      × (drop (next_place it).0.place it.0.data_of ≡ rest)
next_place_lem it e rest h =
    (ground arith, ground arith, drop-next it.0.place it.0.data_of e rest h)

abbrev pub repaired_contract : Contract repaired
repaired_contract = record {
  entries = λ d. d.0;
  snapshot = λ it. it.0.data_of;
  rest = λ it. drop it.0.place it.0.data_of;
  entries_sorted = λ d. d.1;
  get_entries = λ d k. refl;
  put_entries = λ d k v h. refl;
  delete_entries = λ d k h. refl;
  snapshot-new = λ d. refl;
  rest-first = λ it. refl;
  rest-seek = λ it k. drop-lower_bound k it.0.data_of;
  valid_rest = λ it. drop-is_empty it.0.place it.0.data_of it.1;
  next_rest = next_place_lem;
}

-- `Get` answers that it found every key, leaves the caller's value as it was, and puts a key that the map
-- does not have into it, with the empty value.
pub mem_get_lem :
    (k value : Bytes) (es : List Entry)
    → ((mem_get k value es).0 ≡ true)
      × ((mem_get k value es).1 ≡ value)
      × (find k (mem_get k value es).2
          ≡ some (elim (find k es) as (λ o. Bytes) [ none ↦ [] | some v ↦ v ]))
unfolding mem_get
mem_get_lem k value es =
    (refl, refl, ground (arith, find-insert k k [] es, beq_refl k, Option-cases (find k es)))
