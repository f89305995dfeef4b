-- ===== src/Tests/Caches.antt =====
-- The cache, the database in memory, and the results of queries.
use leveldb_daemon.Prelude.{
  ◌+◌, ℕ, ◌≡◌, ◌≤◌, refl, none, some, List, [], ◌∷◌, ◌++◌, ◌==◌, length, map, arith,
}
use leveldb_daemon.Prelude.Bytes.{codes}
use leveldb_daemon.Db.Entries.{insert, insert-IsSorted}
use leveldb_daemon.Db.Memory.{MemDb}
use leveldb_daemon.LruCache.{
  Bimap, BimapContract, lookup, without, LruCache, new_lrucache, run, size, Operation, asked,
  inserted,
}
use leveldb_daemon.Mysql.{Results, Use, construct, assign, destroy, use_results}
use leveldb_daemon.Mysql.Ownership.{times_held, times_in, results_balanced}
use leveldb_daemon.LruCache.Records.{run_spec, least_recently_used}

abbrev Records : Type 0
Records = List (ℕ × ℕ)

abbrev moved : Records → ℕ → Records
moved c k = elim (lookup ◌==◌ k c) [ none ↦ c | some v ↦ without ◌==◌ k c ++ (k, v) ∷ [] ]

abbrev rest_of : Records → Records
rest_of [] = []
rest_of (r ∷ rs) = rs

-- A bimap that is a list of its records.
abbrev plain : Bimap ℕ ℕ
plain = record {
  Cache = Records;
  empty = [];
  size = λ c. length c;
  find = λ c k. lookup ◌==◌ k c;
  relocate = moved;
  erase = λ c k. without ◌==◌ k c;
  erase_first = rest_of;
  insert = λ c k v. c ++ (k, v) ∷ [];
  right = λ c. map (λ r. r.0) c;
}

moved_lem :
    (c : Records) (k v : ℕ) → lookup ◌==◌ k c ≡ some v → moved c k ≡ without ◌==◌ k c ++ (k, v) ∷ []
moved_lem c k v h = ground arith

rest_of_lem : (c : Records) (r : ℕ × ℕ) (rs : Records) → c ≡ r ∷ rs → rest_of c ≡ rs
rest_of_lem c r rs h = rw h refl

abbrev plain-BimapContract : BimapContract ◌==◌ plain
plain-BimapContract = record {
  records = λ c. c;
  records-empty = refl;
  size_lem = λ c. refl;
  find_lem = λ c k. refl;
  records-relocate = moved_lem;
  records-erase = λ c k. refl;
  records-erase_first = rest_of_lem;
  records-insert = λ c k v h. refl;
}

abbrev uses : List (Operation ℕ ℕ)
uses = inserted 1 10 ∷ inserted 2 20 ∷ asked 1 ∷ inserted 3 30 ∷ asked 2 ∷ asked 1 ∷ []

-- The record of 2 was dropped for the one of 3.
uses_answers : (run_spec ◌==◌ 2 uses []).0 ≡ some 10 ∷ none ∷ some 10 ∷ []
unfolding run_spec
uses_answers = refl

least_recently_used_example :
    (l : LruCache plain) × (l' : LruCache plain) × (new_lrucache plain 2 ≡ some l)
    × (run plain uses l ≡ some ((run_spec ◌==◌ 2 uses []).0, l'))
    × (l'.cache ≡ (run_spec ◌==◌ 2 uses []).1)
    × (size plain l' ≤ 2)
least_recently_used_example =
    least_recently_used ◌==◌ plain plain-BimapContract 2 uses (omega arith)

abbrev two_entries : MemDb
two_entries = (
  insert (codes "b") (codes "2") (insert (codes "a") (codes "1") []),
  insert-IsSorted (codes "b") (codes "2") _ (insert-IsSorted (codes "a") (codes "1") [] tt),
)

-- A result that a query gave, moved by an assignment into a variable that held another one.
abbrev query_twice : List Use
query_twice = construct (some 5) ∷ construct (some 6) ∷ assign 1 0 ∷ destroy ∷ destroy ∷ []

abbrev no_results : Results
no_results = record { held = []; freed = [] }

results_balanced_example :
    times_held 6 (use_results query_twice no_results).held
      + times_in 6 (use_results query_twice no_results).freed
    ≡ 1
results_balanced_example = results_balanced 6 query_twice no_results refl
