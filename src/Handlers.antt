-- ===== src/Handlers.antt =====
-- src/fas_methods.hpp: the handlers of the JSON-RPC methods, over the database and the replication. A
-- handler's `true` result (an answer is sent) is `some`, its `false` result `none`.
pub mod Writes
pub mod Throws
pub mod Range
pub mod Sums
pub mod Converge
pub mod Commands
pub mod Concurrent
use leveldb_daemon.Prelude.{
  ◌≡◌, Bool, true, false, Option, none, some, List, [], ◌∷◌, ◌++◌, is_empty, if◌then◌else◌,
}
use leveldb_daemon.Prelude.Int.{ℤ, pos, add_i64}
use leveldb_daemon.Prelude.Bytes.{Bytes, codes}
use leveldb_daemon.Prelude.Exec.{Result, ok, throw, Exec, pure, raise, ◌>>=◌}
use leveldb_daemon.Assoc
use leveldb_daemon.Db.{Leveldb}
use leveldb_daemon.Db.Entries.{Entry}
use leveldb_daemon.Serializers.{Serializers}
use leveldb_daemon.Replication.{Client}
use leveldb_daemon.Replication.Registry

-- The two globals that the handlers change: `db_global` and `replication`.
pub record Server (L : Leveldb) : Type 0 where
  pub db : L.Db
  pub clients : List (Bytes × Client)

-- What a JSON parser throws.
pub data JsonError : Type 0 where
  json_error : JsonError

-- struct request::inc_add
pub record IncAdd : Type 0 where
  pub inc : List (Bytes × ℤ)
  pub def : List (Bytes × ℤ)

-- struct request::update_packed
pub record UpdatePacked : Type 0 where
  pub key : Bytes
  pub inc : List (Bytes × ℤ)
  pub set : List (Bytes × Bytes)
  pub def : List (Bytes × Bytes)

-- push_pair, where there is something to push
abbrev pub push_some {ℓ} : {A : Type ℓ} → Option A → List A → List A
push_some none xs = xs
push_some (some x) xs = x ∷ xs

module _ (L : Leveldb) where
  -- get::request
  unfoldable pub get : List Bytes → L.Db → List Entry
  get [] d = []
  get (k ∷ ks) d = let rest = get ks d in elim (L.get d k) [ none ↦ rest | some r ↦ (k, r) ∷ rest ]

  -- The loop of `set::request` and `set_range::request`, with `b` so far.
  unfoldable pub put_all : List Entry → Bool → L.Db → Bool × L.Db
  put_all [] b d = (b, d)
  put_all ((k, v) ∷ es) b d =
      let (d', done) = L.put d k v in put_all es (if done then b else false) d'

  -- The loop of `del::request`.
  unfoldable pub delete_all : List Bytes → L.Db → List (Bytes × Bool) × L.Db
  delete_all [] d = ([], d)
  delete_all (k ∷ ks) d =
      let (d', done) = L.delete d k in
      let (result, d'') = delete_all ks d' in ((k, done) ∷ result, d'')

  -- The loop of `add::request`: the answer, and what is replicated.
  unfoldable pub add_all : List Entry → L.Db → List (Bytes × Bool) × List Entry × L.Db
  add_all [] d = ([], [], d)
  add_all ((k, v) ∷ es) d = elim (L.get d k) [
    | some r ↦ let (result, repl, d') = add_all es d in ((k, false) ∷ result, repl, d')
    | none ↦
        let (d₁, done) = L.put d k v in
        let (result, repl, d') = add_all es d₁ in
        if done then ((k, true) ∷ result, (k, v) ∷ repl, d') else ((k, false) ∷ result, repl, d')
  ]

module _ (L : Leveldb) (J : Serializers) where
  -- The end of an increment: `val` goes back into the database, and into the answer if that worked.
  unfoldable pub store_sum : Bytes → ℤ → L.Db → Option Entry × L.Db
  store_sum k val d =
      let r = J.print_i64 val in
      let (d', done) = L.put d k r in (if done then some (k, r) else none, d')

  -- The loop body of `inc::request`; `unset` is what the uninitialised `val` holds.
  unfoldable pub inc_one : ℤ → Bytes → ℤ → Exec JsonError L.Db (Option Entry)
  unfolding store_sum
  inc_one unset k n d = elim (L.get d k) [
    | none ↦ pure none d
    | some r ↦
        let (val, returned) = J.parse_i64 unset r in
        let (stored, d') = store_sum k (add_i64 val n) d in
        if returned then pure stored d' else raise json_error d
  ]

  unfoldable pub inc_all : ℤ → List (Bytes × ℤ) → Exec JsonError L.Db (List Entry)
  inc_all unset [] = pure []
  inc_all unset ((k, n) ∷ items) = do
    stored ← inc_one unset k n
    rest ← inc_all unset items
    pure (push_some stored rest)

  -- What `inc_add::request` adds to.
  unfoldable pub base_value : ℤ → List (Bytes × ℤ) → Bytes → L.Db → ℤ
  base_value unset def k d = elim (L.get d k) [
    | some r ↦ let (val, returned) = J.parse_i64 unset r in if returned then val else pos 0
    | none ↦ elim (Assoc.find k def) [ some v ↦ v | none ↦ pos 0 ]
  ]

  -- The loop of `inc_add::request`.
  unfoldable pub inc_add_all : ℤ → List (Bytes × ℤ) → List (Bytes × ℤ) → L.Db → List Entry × L.Db
  unfolding base_value store_sum
  inc_add_all unset def [] d = ([], d)
  inc_add_all unset def ((k, n) ∷ items) d =
      let (stored, d') = store_sum k (add_i64 (base_value unset def k d) n) d in
      let (rest, d'') = inc_add_all unset def items d' in (push_some stored rest, d'')

  -- The two loops of `update_packed::request` over the unpacked structure.
  unfoldable pub set_fields : List (Bytes × Bytes) → List (Bytes × Bytes) → List (Bytes × Bytes)
  set_fields [] fields = fields
  set_fields ((k, v) ∷ items) fields = set_fields items (Assoc.assign k v fields)

  unfoldable pub field_value : Bytes → List (Bytes × Bytes) → ℤ
  field_value k fields = elim (Assoc.find k fields) [
    | none ↦ pos 0
    | some sval ↦ if is_empty sval then pos 0 else (J.parse_i64 (pos 0) sval).0
  ]

  unfoldable pub inc_fields : List (Bytes × ℤ) → List (Bytes × Bytes) → List (Bytes × Bytes)
  unfolding field_value
  inc_fields [] fields = fields
  inc_fields ((k, n) ∷ items) fields =
      inc_fields items (Assoc.assign k (J.print_i64 (add_i64 (field_value k fields) n)) fields)

  -- What `update_packed::request` starts from.
  unfoldable pub unpacked : UpdatePacked → L.Db → List (Bytes × Bytes)
  unpacked cmd d = elim (L.get d cmd.key) [
    | none ↦ cmd.def
    | some tmp ↦ elim (J.parse_map tmp) [ none ↦ cmd.def | some fields ↦ fields ]
  ]

  unfoldable pub packed : UpdatePacked → L.Db → Bytes
  unfolding unpacked set_fields inc_fields
  packed cmd d = J.print_map (inc_fields cmd.inc (set_fields cmd.set (unpacked cmd d)))

  -- The `request` members: the answer and the new state.
  unfoldable pub set_request : List Entry → Server L → Bool × Server L
  set_request cmd s =
      let (b, d) = put_all L cmd true s.db in
      (b, record { db = d; clients = Registry.set J cmd s.clients })

  -- `result` is what the caller's variable holds: an empty command leaves it as it is.
  unfoldable pub set_range_request : List Entry → Bool → Server L → Bool × Server L
  set_range_request cmd result s =
      if is_empty cmd
      then (result, s)
      else (let (b, d) = put_all L cmd true s.db in
          (b, record { db = d; clients = Registry.set_range J cmd s.clients }))

  unfoldable pub del_request : List Bytes → Server L → List (Bytes × Bool) × Server L
  del_request cmd s =
      let (result, d) = delete_all L cmd s.db in
      (result, record { db = d; clients = Registry.del J cmd s.clients })

  unfoldable pub add_request : List Entry → Server L → List (Bytes × Bool) × Server L
  add_request cmd s =
      let (result, repl, d) = add_all L cmd s.db in
      (result, record { db = d; clients = Registry.set J repl s.clients })

  -- A throw leaves the writes of the earlier keys, and replicates nothing.
  unfoldable pub inc_request : ℤ → List (Bytes × ℤ) → Exec JsonError (Server L) (List Entry)
  inc_request unset cmd s =
      let (r, d) = inc_all unset cmd s.db in
      elim r [
        | ok result ↦ pure result (record { db = d; clients = Registry.set J result s.clients })
        | throw x ↦ raise x (record { db = d; clients = s.clients })
      ]

  unfoldable pub inc_add_request : ℤ → IncAdd → Server L → List Entry × Server L
  inc_add_request unset cmd s =
      let (result, d) = inc_add_all unset cmd.def cmd.inc s.db in
      (result, record { db = d; clients = Registry.set J result s.clients })

  unfoldable pub update_packed_request : UpdatePacked → Server L → Bytes × Server L
  unfolding packed
  update_packed_request cmd s =
      let result = packed cmd s.db in
      let (d, done) = L.put s.db cmd.key result in
      if done
      then (result, record { db = d; clients = Registry.set J ((cmd.key, result) ∷ []) s.clients })
      else (codes "null", record { db = d; clients = s.clients })
