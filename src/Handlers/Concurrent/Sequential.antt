-- ===== src/Handlers/Concurrent/Sequential.antt =====
-- src/fas_methods.hpp: the handlers that run alone, by the rounds that their threads have.
use leveldb_daemon.Prelude.{
  ◌≡◌, refl, ap, ◌∙◌, Bool, true, List, [], ◌∷◌, map, arith, Option-cases, inl, inr,
}
use leveldb_daemon.Prelude.Int.{ℤ, add_i64}
use leveldb_daemon.Prelude.Exec.{ok, Result-cases}
use leveldb_daemon.Prelude.Bytes.{Bytes}
use leveldb_daemon.Assoc
use leveldb_daemon.Db.{Leveldb}
use leveldb_daemon.Db.Entries.{Entry}
use leveldb_daemon.Serializers.{Serializers}
use leveldb_daemon.Handlers.{put_all, add_all, store_sum, inc_one, inc_all, base_value, inc_add_all}
use leveldb_daemon.Handlers.Concurrent.{
  Item, locked_update, plain_put, add_change, inc_change, inc_add_change,
}
use leveldb_daemon.Handlers.Concurrent.Atomic.{do_round, do_rounds}

module _ (J : Serializers) where
  -- The rounds of a command.
  abbrev pub set_rounds : List Entry → List Item
  set_rounds cmd = map (λ e. plain_put e.0 e.1) cmd

  abbrev pub add_rounds : List Entry → List Item
  add_rounds cmd = map (λ e. locked_update e.0 (add_change J e.1)) cmd

  abbrev pub inc_rounds : ℤ → List (Bytes × ℤ) → List Item
  inc_rounds unset cmd = map (λ e. locked_update e.0 (inc_change J unset e.1)) cmd

  abbrev pub inc_add_rounds : ℤ → List (Bytes × ℤ) → List (Bytes × ℤ) → List Item
  inc_add_rounds unset def cmd =
      map (λ e. locked_update e.0 (inc_add_change J unset (Assoc.find e.0 def) e.1)) cmd

module _ (L : Leveldb) (writes : (d : L.Db) (k v : Bytes) → (L.put d k v).1 ≡ true)
    (J : Serializers) where
  put_all-rounds :
      (cmd : List Entry) (b : Bool) (d : L.Db)
      → (put_all L cmd b d).1 ≡ do_rounds L (set_rounds J cmd) d
  unfolding put_all do_round
  put_all-rounds [] b d = refl
  put_all-rounds ((k, v) ∷ cmd) b d = put_all-rounds cmd _ (L.put d k v).0

  add_all-rounds :
      (cmd : List Entry) (d : L.Db) → (add_all L cmd d).2 ≡ do_rounds L (add_rounds J cmd) d
  unfolding add_all do_round
  add_all-rounds [] d = refl
  add_all-rounds ((k, v) ∷ cmd) d = elim (Option-cases (L.get d k)) [
    | inl e ↦ ground (arith, e, writes d k v, add_all-rounds cmd (L.put d k v).0)
    | inr (r, e) ↦ ground (arith, e, add_all-rounds cmd d)
  ]

  inc_add_all-rounds :
      (unset : ℤ) (def cmd : List (Bytes × ℤ)) (d : L.Db)
      → (inc_add_all L J unset def cmd d).1 ≡ do_rounds L (inc_add_rounds J unset def cmd) d
  unfolding inc_add_all do_round base_value store_sum
  inc_add_all-rounds unset def [] d = refl
  inc_add_all-rounds unset def ((k, n) ∷ cmd) d = elim (Option-cases (L.get d k)) [
    | inl e ↦ ground (
      arith,
      e,
      inc_add_all-rounds unset def cmd
          (L.put d k (J.print_i64 (add_i64 (base_value L J unset def k d) n))).0,
    )
    | inr (r, e) ↦ ground (
      arith,
      e,
      inc_add_all-rounds unset def cmd
          (L.put d k (J.print_i64 (add_i64 (base_value L J unset def k d) n))).0,
    )
  ]

  inc_one-round :
      (unset : ℤ) (k : Bytes) (n : ℤ) (d : L.Db)
      → (inc_one L J unset k n d).1 ≡ do_round L (locked_update k (inc_change J unset n)) d
  unfolding inc_one store_sum do_round
  inc_one-round unset k n d = elim (Option-cases (L.get d k)) [
    | inl e ↦ ground (arith, e)
    | inr (r, e) ↦ ground (arith, e)
  ]

  inc_all-rounds :
      (unset : ℤ) (cmd : List (Bytes × ℤ)) (d : L.Db) (result : List Entry)
      → (inc_all L J unset cmd d).0 ≡ ok result
      → (inc_all L J unset cmd d).1 ≡ do_rounds L (inc_rounds J unset cmd) d
  unfolding inc_all
  inc_all-rounds unset [] d result h = refl
  inc_all-rounds unset ((k, n) ∷ cmd) d result h = elim (Result-cases (inc_one L J unset k n d).0) [
    | inr (x, e) ↦ absurd (ground (arith, e))
    | inl (stored, e) ↦ elim (Result-cases (inc_all L J unset cmd (inc_one L J unset k n d).1).0) [
      | inr (x, g) ↦ absurd (ground (arith, e, g))
      | inl (rest, g) ↦
          ground (arith, e, g)
          ∙ inc_all-rounds unset cmd (inc_one L J unset k n d).1 rest g
          ∙ ap (do_rounds L (inc_rounds J unset cmd)) (inc_one-round unset k n d)
    ]
  ]

  -- The loops of `set`, `add`, `inc_add`, and of an `inc` that does not throw, leave the database that their
  -- rounds give one after the other; where no write fails.
  sequential_rounds :
      (entries : List Entry) (unset : ℤ) (def incs : List (Bytes × ℤ)) (d : L.Db)
      (result : List Entry)
      → (inc_all L J unset incs d).0 ≡ ok result
      → ((put_all L entries true d).1 ≡ do_rounds L (set_rounds J entries) d)
        × ((add_all L entries d).2 ≡ do_rounds L (add_rounds J entries) d)
        × ((inc_add_all L J unset def incs d).1 ≡ do_rounds L (inc_add_rounds J unset def incs) d)
        × ((inc_all L J unset incs d).1 ≡ do_rounds L (inc_rounds J unset incs) d)
  sequential_rounds entries unset def incs d result h = (
    put_all-rounds entries true d,
    add_all-rounds entries d,
    inc_add_all-rounds unset def incs d,
    inc_all-rounds unset incs d result h,
  )
