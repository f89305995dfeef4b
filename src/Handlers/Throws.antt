-- ===== src/Handlers/Throws.antt =====
-- src/fas_methods.hpp: an `inc` that meets a value which is no integer.
use leveldb_daemon.Prelude.{◌≡◌, true, false, some, List, ◌∷◌, arith}
use leveldb_daemon.Prelude.Int.{ℤ, add_i64}
use leveldb_daemon.Prelude.Bytes.{Bytes, beq, beq_refl}
use leveldb_daemon.Prelude.Exec.{throw}
use leveldb_daemon.Db.{Leveldb, Contract}
use leveldb_daemon.Serializers.{Serializers}
use leveldb_daemon.Handlers.{Server, json_error, inc_one, inc_all, inc_request}
use leveldb_daemon.Handlers.Writes.{get-put}

module _ (L : Leveldb) (C : Contract L) (J : Serializers) (unset : ℤ) (s : Server L)
    (k j r t : Bytes) (n m : ℤ) (items : List (Bytes × ℤ)) where
  -- What the first increment writes.
  abbrev sum_text : Bytes
  sum_text = J.print_i64 (add_i64 (J.parse_i64 unset r).0 n)

  -- In a database that meets `Contract`, if the first key of an `inc` holds an integer and can be written, and the second, another key,
  -- holds a value that the parser refuses, then the command throws, the first key keeps its new value
  -- in the database, and no slave is told of it.
  pub inc_partial_unreplicated :
      L.get s.db k ≡ some r
      → (J.parse_i64 unset r).1 ≡ true
      → (L.put s.db k sum_text).1 ≡ true
      → beq k j ≡ false
      → L.get s.db j ≡ some t
      → (J.parse_i64 unset t).1 ≡ false
      → let (result, s') = inc_request L J unset ((k, n) ∷ (j, m) ∷ items) s in
        (result ≡ throw json_error) × (L.get s'.db k ≡ some sum_text) × (s'.clients ≡ s.clients)
  unfolding inc_request inc_all inc_one
  inc_partial_unreplicated first parsed written other second refused =
      let kept = get-put L C s.db k sum_text k written in
      let seen = get-put L C s.db k sum_text j written in
      (ground (arith, seen), ground (arith, kept, seen, beq_refl k), ground (arith, seen))
