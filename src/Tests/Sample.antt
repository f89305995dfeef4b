-- ===== src/Tests/Sample.antt =====
-- A store that meets the contract of the database, and serializers that read back what they print.
use leveldb_daemon.Prelude.{
  zero, suc, ◌++◌, ◌≡◌, refl, Bool, true, false, not, Option, none, some, List, [], ◌∷◌, arith,
  is_empty,
}
use leveldb_daemon.Prelude.Int.{ℤ, pos, negsuc, InRange, i64_half}
use leveldb_daemon.Prelude.Bytes.{Bytes}
use leveldb_daemon.Db.{Leveldb, Contract}
use leveldb_daemon.Db.Entries.{
  Entry, find, insert, remove, from_key, IsSorted, insert-IsSorted, remove-IsSorted,
}
use mathlib.Core.List.{flatten}
use leveldb_daemon.Serializers.{Serializers}

-- The log of the writes, newest first; `none` is a deletion.
abbrev pub Log : Type 0
Log = List (Bytes × Option Bytes)

abbrev pub contents : Log → List Entry
contents [] = []
contents ((k, none) ∷ l) = remove k (contents l)
contents ((k, some v) ∷ l) = insert k v (contents l)

pub contents-IsSorted : (l : Log) → IsSorted (contents l)
contents-IsSorted [] = tt
contents-IsSorted ((k, none) ∷ l) = remove-IsSorted k (contents l) (contents-IsSorted l)
contents-IsSorted ((k, some v) ∷ l) = insert-IsSorted k v (contents l) (contents-IsSorted l)

abbrev pub head_of : List Entry → Entry
head_of [] = ([], [])
head_of (e ∷ es) = e

abbrev pub tail_of : List Entry → List Entry
tail_of [] = []
tail_of (e ∷ es) = es

abbrev pub sample : Leveldb
sample = record {
  Db = Log;
  Iterator = List Entry × List Entry;
  get = λ l k. find k (contents l);
  put = λ l k v. ((k, some v) ∷ l, true);
  delete = λ l k. ((k, none) ∷ l, true);
  new_iterator = λ l. (contents l, contents l);
  seek = λ it k. (it.0, from_key k it.0);
  seek_to_first = λ it. (it.0, it.0);
  valid = λ it. not (is_empty it.1);
  next = λ it. (it.0, tail_of it.1);
  key = λ it. (head_of it.1).0;
  value = λ it. (head_of it.1).1;
}

pub head_and_tail :
    (it : List Entry × List Entry) (e : Entry) (es : List Entry)
    → it.1 ≡ e ∷ es
    → (sample.key it ≡ e.0) × (sample.value it ≡ e.1) × (tail_of it.1 ≡ es)
head_and_tail it e es h = (ground arith, ground arith, ground arith)

abbrev pub sample_contract : Contract sample
sample_contract = record {
  entries = contents;
  snapshot = λ it. it.0;
  rest = λ it. it.1;
  entries_sorted = contents-IsSorted;
  get_entries = λ d k. refl;
  put_entries = λ d k v h. refl;
  delete_entries = λ d k h. refl;
  snapshot-new = λ d. refl;
  rest-first = λ it. refl;
  rest-seek = λ it k. refl;
  valid_rest = λ it. refl;
  next_rest = head_and_tail;
}

pub sample_writes : (d : Log) (k v : Bytes) → (sample.put d k v).1 ≡ true
sample_writes d k v = refl

-- An integer is printed as a sign and a number; a batch is printed as its keys.
abbrev print_int : ℤ → Bytes
print_int (pos n) = 0 ∷ n ∷ []
print_int (negsuc n) = 1 ∷ n ∷ []

abbrev parse_int : ℤ → Bytes → ℤ × Bool
parse_int u [] = (u, false)
parse_int u (s ∷ []) = (u, false)
parse_int u (zero ∷ n ∷ r) = (pos n, true)
parse_int u (suc s ∷ n ∷ r) = (negsuc n, true)

abbrev keys_joined : List Entry → Bytes
keys_joined [] = []
keys_joined ((k, v) ∷ es) = k ++ keys_joined es

abbrev pub sample_json : Serializers
sample_json = record {
  print_valmap2str = keys_joined;
  print_vallist = λ ks. flatten ks;
  print_string = λ s. s;
  parse_i64 = parse_int;
  print_i64 = print_int;
  parse_map = λ s. none;
  print_map = keys_joined;
}

pub sample_reads_back :
    (u z : ℤ) → InRange i64_half z → sample_json.parse_i64 u (sample_json.print_i64 z) ≡ (z, true)
sample_reads_back u (pos n) h = refl
sample_reads_back u (negsuc n) h = refl
