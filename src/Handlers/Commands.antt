-- ===== src/Handlers/Commands.antt =====
-- src/fas_methods.hpp: the handlers that change the database and replicate what they wrote, as one type of
-- commands.
use leveldb_daemon.Prelude.{◌≡◌, sym, subst, Bool, true, false, List, [], ◌∷◌, arith, inl, inr}
use leveldb_daemon.Prelude.Int.{ℤ}
use leveldb_daemon.Prelude.Exec.{Result, ok, throw, Result-cases}
use leveldb_daemon.Prelude.Bytes.{Bytes}
use leveldb_daemon.Db.{Leveldb, Contract}
use leveldb_daemon.Db.Entries.{Entry}
use leveldb_daemon.Serializers.{Serializers}
use leveldb_daemon.Replication.Registry
use leveldb_daemon.Handlers.{
  Server, IncAdd, UpdatePacked, put_all, add_all, inc_all, inc_add_all, packed, set_request,
  add_request, inc_request, inc_add_request, update_packed_request,
}
use leveldb_daemon.Handlers.Converge.{
  inc_all-result, set_converges, add_converges, inc_converges, inc_add_converges,
  update_packed_converges,
}

-- A call of a handler. `unset` is what a local variable holds before it is parsed into.
pub data Command : Type 0 where
  set add : List Entry → Command
  inc : ℤ → List (Bytes × ℤ) → Command
  inc_add : ℤ → IncAdd → Command
  update_packed : UpdatePacked → Command

abbrev pub is_ok {ℓ} : {A : Type ℓ} {E : Type 0} → Result E A → Bool
is_ok (ok x) = true
is_ok (throw x) = false

module _ (L : Leveldb) (J : Serializers) where
  -- Whether the handler answers, or throws; and what it leaves.
  abbrev pub is_answered : Command → Server L → Bool
  is_answered (set cmd) s = true
  is_answered (add cmd) s = true
  is_answered (inc unset cmd) s = is_ok (inc_request L J unset cmd s).0
  is_answered (inc_add unset cmd) s = true
  is_answered (update_packed cmd) s = true

  abbrev pub handled : Command → Server L → Server L
  handled (set cmd) s = (set_request L J cmd s).1
  handled (add cmd) s = (add_request L J cmd s).1
  handled (inc unset cmd) s = (inc_request L J unset cmd s).1
  handled (inc_add unset cmd) s = (inc_add_request L J unset cmd s).1
  handled (update_packed cmd) s = (update_packed_request L J cmd s).1

  -- What the handler hands to `Replication::set`, if it answers and all its writes succeed.
  abbrev pub replicated : Command → Server L → List Entry
  replicated (set cmd) s = cmd
  replicated (add cmd) s = (add_all L cmd s.db).1
  replicated (inc unset cmd) s = elim (inc_all L J unset cmd s.db).0 [
    | ok result ↦ result
    | throw x ↦ []
  ]
  replicated (inc_add unset cmd) s = (inc_add_all L J unset cmd.def cmd.inc s.db).0
  replicated (update_packed cmd) s = (cmd.key, packed L J cmd s.db) ∷ []

module _ (L : Leveldb) (C : Contract L) (writes : (d : L.Db) (k v : Bytes) → (L.put d k v).1 ≡ true)
    (J : Serializers) (e : L.Db) (s : Server L) (same : C.entries e ≡ C.entries s.db) where
  -- Of a `set`, an `add`, an `inc` that does not throw, an `inc_add` or an `update_packed`: what `replicated`
  -- says is what it hands to `Replication::set`, and applied as one `set` by a slave that had the master's
  -- contents before, it gives the slave the master's contents after; where the databases meet `Contract`
  -- and no write fails.
  pub commands_converge :
      (c : Command)
      → is_answered L J c s ≡ true
      → ((handled L J c s).clients ≡ Registry.set J (replicated L J c s) s.clients)
        × (C.entries (put_all L (replicated L J c s) true e).1 ≡ C.entries (handled L J c s).db)
  commands_converge (set cmd) h = set_converges L C writes J e s same cmd
  commands_converge (add cmd) h = add_converges L C writes J e s same cmd
  commands_converge (inc unset cmd) h = elim (Result-cases (inc_request L J unset cmd s).0) [
    | inl (result, p) ↦
        let done : replicated L J (inc unset cmd) s ≡ result =
          ground (arith, inc_all-result L C writes J unset cmd s result p) in
        subst
          (λ repl.
            ((inc_request L J unset cmd s).1.clients ≡ Registry.set J repl s.clients)
            × (C.entries (put_all L repl true e).1 ≡ C.entries (inc_request L J unset cmd s).1.db))
          (sym done) (inc_converges L C writes J e s same unset cmd result p)
    | inr (x, threw) ↦ absurd (ground (arith, threw))
  ]
  commands_converge (inc_add unset cmd) h = inc_add_converges L C writes J e s same unset cmd
  commands_converge (update_packed cmd) h = update_packed_converges L C writes J e s same cmd
