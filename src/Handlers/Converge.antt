-- ===== src/Handlers/Converge.antt =====
-- src/fas_methods.hpp: what the handlers replicate, and the databases of a master and a slave.
use leveldb_daemon.Prelude.{
  ◌≡◌, refl, ap, sym, ◌∙◌, Bool, true, Option, none, some, List, [], ◌∷◌, arith, Option-cases, inl,
  inr, Bool-cases,
}
use leveldb_daemon.Prelude.Int.{ℤ, add_i64}
use leveldb_daemon.Prelude.Exec.{ok, Result-cases}
use leveldb_daemon.Prelude.Bytes.{Bytes}
use leveldb_daemon.Db.{Leveldb, Contract}
use leveldb_daemon.Db.Entries.{Entry, insert}
use leveldb_daemon.Serializers.{Serializers}
use leveldb_daemon.Replication.Registry
use leveldb_daemon.Handlers.{
  Server, IncAdd, UpdatePacked, put_all, add_all, inc_one, inc_all, inc_add_all, base_value, packed,
  set_request, add_request, inc_request, inc_add_request, update_packed_request, push_some,
}

-- The entries after a list of assignments.
abbrev pub insert_all : List Entry → List Entry → List Entry
insert_all [] es = es
insert_all ((k, v) ∷ items) es = insert_all items (insert k v es)

module _ (L : Leveldb) (C : Contract L)
    (writes : (d : L.Db) (k v : Bytes) → (L.put d k v).1 ≡ true) where
  open C use {entries, put_entries}

  pub put_all-entries :
      (items : List Entry) (b : Bool) (d : L.Db)
      → entries (put_all L items b d).1 ≡ insert_all items (entries d)
  unfolding put_all
  put_all-entries [] b d = refl
  put_all-entries ((k, v) ∷ items) b d = ground (
    arith,
    writes d k v,
    put_all-entries items b (L.put d k v).0,
    ap (insert_all items) (put_entries d k v (writes d k v)),
  )

  add_all-entries :
      (items : List Entry) (d : L.Db)
      → entries (add_all L items d).2 ≡ insert_all (add_all L items d).1 (entries d)
  unfolding add_all
  add_all-entries [] d = refl
  add_all-entries ((k, v) ∷ items) d = elim (Option-cases (L.get d k)) [
    | inl absent ↦ ground (
      arith,
      writes d k v,
      absent,
      add_all-entries items (L.put d k v).0,
      ap (insert_all (add_all L items (L.put d k v).0).1) (put_entries d k v (writes d k v)),
    )
    | inr (r, present) ↦ ground (arith, present, add_all-entries items d)
  ]

  module _ (J : Serializers) where
    inc_add_all-entries :
        (unset : ℤ) (def items : List (Bytes × ℤ)) (d : L.Db)
        → entries (inc_add_all L J unset def items d).1
          ≡ insert_all (inc_add_all L J unset def items d).0 (entries d)
    unfolding inc_add_all
    inc_add_all-entries unset def [] d = refl
    inc_add_all-entries unset def ((k, n) ∷ items) d =
        let r = J.print_i64 (add_i64 (base_value L J unset def k d) n) in
        let d' = (L.put d k r).0 in
        ground (
          arith,
          writes d k r,
          inc_add_all-entries unset def items d',
          ap (insert_all (inc_add_all L J unset def items d').0) (put_entries d k r (writes d k r)),
        )

    inc_one-entries :
        (unset : ℤ) (k : Bytes) (n : ℤ) (d : L.Db) (stored : Option Entry)
        → (inc_one L J unset k n d).0 ≡ ok stored
        → entries (inc_one L J unset k n d).1 ≡ insert_all (push_some stored []) (entries d)
    unfolding inc_one
    inc_one-entries unset k n d stored e = elim (Option-cases (L.get d k)) [
      | inl absent ↦ ground (arith, absent)
      | inr (r, present) ↦ elim (Bool-cases (J.parse_i64 unset r).1) [
        | inl parsed ↦
            let text = J.print_i64 (add_i64 (J.parse_i64 unset r).0 n) in
            ground (arith, present, parsed, writes d k text, put_entries d k text (writes d k text))
        | inr refused ↦ absurd (ground (arith, present, refused))
      ]
    ]

    insert_all-push_some :
        (o : Option Entry) (items es : List Entry)
        → insert_all (push_some o items) es ≡ insert_all items (insert_all (push_some o []) es)
    insert_all-push_some none items es = refl
    insert_all-push_some (some x) items es = refl

    inc_all-entries :
        (unset : ℤ) (items : List (Bytes × ℤ)) (d : L.Db) (result : List Entry)
        → (inc_all L J unset items d).0 ≡ ok result
        → entries (inc_all L J unset items d).1 ≡ insert_all result (entries d)
    unfolding inc_all
    inc_all-entries unset [] d result e = ground arith
    inc_all-entries unset ((k, n) ∷ items) d result e =
        elim (Result-cases (inc_one L J unset k n d).0) [
          | inr (x, threw) ↦ absurd (ground (arith, threw))
          | inl (stored, one) ↦
              elim (Result-cases (inc_all L J unset items (inc_one L J unset k n d).1).0) [
                | inr (x, threw) ↦ absurd (ground (arith, one, threw))
                | inl (rest, more) ↦ ground (
                  arith,
                  one,
                  more,
                  inc_all-entries unset items (inc_one L J unset k n d).1 rest more,
                  ap (insert_all rest) (inc_one-entries unset k n d stored one),
                  insert_all-push_some stored rest (entries d),
                )
              ]
        ]

    -- What an `inc` that answers has answered, its loop has put together.
    pub inc_all-result :
        (unset : ℤ) (cmd : List (Bytes × ℤ)) (s : Server L) (result : List Entry)
        → (inc_request L J unset cmd s).0 ≡ ok result
        → (inc_all L J unset cmd s.db).0 ≡ ok result
    unfolding inc_request
    inc_all-result unset cmd s result h = elim (Result-cases (inc_all L J unset cmd s.db).0) [
      | inr (x, threw) ↦ absurd (ground (arith, threw))
      | inl (stored, done) ↦ ground (arith, done)
    ]

    module _ (e : L.Db) (s : Server L) (same : entries e ≡ entries s.db) where
      -- The slave's database after it was sent `set` with `repl`.
      slave :
          (repl : List Entry) → entries (put_all L repl true e).1 ≡ insert_all repl (entries s.db)
      slave repl = put_all-entries repl true e ∙ ap (insert_all repl) same

      -- What a `set` replicates, applied as one `set` by a slave that had the master's contents before,
      -- gives it the master's contents after; where the databases meet
      -- `Contract` and no write fails.
      pub set_converges :
          (cmd : List Entry)
          → ((set_request L J cmd s).1.clients ≡ Registry.set J cmd s.clients)
            × (entries (put_all L cmd true e).1 ≡ entries (set_request L J cmd s).1.db)
      unfolding set_request
      set_converges cmd = (refl, slave cmd ∙ sym (put_all-entries cmd true s.db))

      -- What an `add` replicates, applied as one `set` by a slave that had the master's contents before,
      -- gives it the master's contents after; where the databases meet
      -- `Contract` and no write fails.
      pub add_converges :
          (cmd : List Entry)
          → ((add_request L J cmd s).1.clients ≡ Registry.set J ((add_all L cmd s.db).1) s.clients)
            × (entries (put_all L ((add_all L cmd s.db).1) true e).1
                ≡ entries (add_request L J cmd s).1.db)
      unfolding add_request
      add_converges cmd = (refl, slave _ ∙ sym (add_all-entries cmd s.db))

      -- What an `inc` that does not throw replicates, applied as one `set` by a slave that had the
      -- master's contents before, gives it the master's contents after; where the databases meet
      -- `Contract` and no write fails.
      pub inc_converges :
          (unset : ℤ) (cmd : List (Bytes × ℤ)) (result : List Entry)
          → (inc_request L J unset cmd s).0 ≡ ok result
          → ((inc_request L J unset cmd s).1.clients ≡ Registry.set J result s.clients)
            × (entries (put_all L result true e).1 ≡ entries (inc_request L J unset cmd s).1.db)
      unfolding inc_request
      inc_converges unset cmd result h =
          let done : (inc_all L J unset cmd s.db).0 ≡ ok result =
            inc_all-result unset cmd s result h in
          (
            ground (arith, done),
            slave result ∙ sym (inc_all-entries unset cmd s.db result done) ∙ ground (arith, done),
          )

      -- What an `inc_add` replicates, applied as one `set` by a slave that had the master's contents before,
      -- gives it the master's contents after; where the databases meet
      -- `Contract` and no write fails.
      pub inc_add_converges :
          (unset : ℤ) (cmd : IncAdd)
          → ((inc_add_request L J unset cmd s).1.clients
              ≡ Registry.set J ((inc_add_all L J unset cmd.def cmd.inc s.db).0) s.clients)
            × (entries (put_all L ((inc_add_all L J unset cmd.def cmd.inc s.db).0) true e).1
                ≡ entries (inc_add_request L J unset cmd s).1.db)
      unfolding inc_add_request
      inc_add_converges unset cmd =
          (refl, slave _ ∙ sym (inc_add_all-entries unset cmd.def cmd.inc s.db))

      -- What an `update_packed` replicates, applied as one `set` by a slave that had the master's contents before,
      -- gives it the master's contents after; where the databases meet
      -- `Contract` and no write fails.
      pub update_packed_converges :
          (cmd : UpdatePacked)
          → ((update_packed_request L J cmd s).1.clients
              ≡ Registry.set J ((cmd.key, packed L J cmd s.db) ∷ []) s.clients)
            × (entries (put_all L ((cmd.key, packed L J cmd s.db) ∷ []) true e).1
                ≡ entries (update_packed_request L J cmd s).1.db)
      unfolding update_packed_request
      update_packed_converges cmd =
          let value = packed L J cmd s.db in
          let done = writes s.db cmd.key value in
          (
            ground (arith, done),
            slave _ ∙ sym (put_entries s.db cmd.key value done) ∙ ground (arith, done),
          )
