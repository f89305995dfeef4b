-- ===== src/Handlers/Writes.antt =====
-- src/fas_methods.hpp: what a client reads after a `set` or a `del`.
use leveldb_daemon.Prelude.{
  ◌≡◌, refl, ap, inl, inr, Bool, true, false, Option, none, some, List, [], ◌∷◌, arith,
  if◌then◌else◌, Bool-cases,
}
use leveldb_daemon.Prelude.Bytes.{Bytes, beq}
use leveldb_daemon.Db.{Leveldb, Contract}
use leveldb_daemon.Db.Entries.{Entry, find-insert, find-remove}
use leveldb_daemon.Serializers.{Serializers}
use leveldb_daemon.Handlers.{Server, put_all, delete_all, set_request, del_request}

-- The value of `k` after the assignments of a command, in order, over an old one.
abbrev pub assigned : Bytes → List Entry → Option Bytes → Option Bytes
assigned k [] old = old
assigned k ((j, v) ∷ es) old = assigned k es (if beq j k then some v else old)

-- Every operation of a command succeeded.
abbrev pub all_done : List (Bytes × Bool) → Bool
all_done [] = true
all_done ((k, done) ∷ r) = if done then all_done r else false

abbrev pub listed : Bytes → List Bytes → Bool
listed k [] = false
listed k (j ∷ ks) = if beq j k then true else listed k ks

module _ (L : Leveldb) (C : Contract L) where
  pub get-put :
      (d : L.Db) (j v k : Bytes)
      → (L.put d j v).1 ≡ true
      → L.get (L.put d j v).0 k ≡ (if beq j k then some v else L.get d k)
  get-put d j v k done = rw (
    C.get_entries (L.put d j v).0 k,
    C.put_entries d j v done,
    find-insert j k v,
    ← C.get_entries d k,
  )

  get-delete :
      (d : L.Db) (j k : Bytes)
      → (L.delete d j).1 ≡ true
      → L.get (L.delete d j).0 k ≡ (if beq j k then none else L.get d k)
  get-delete d j k done = rw (
    C.get_entries (L.delete d j).0 k,
    C.delete_entries d j done,
    find-remove j k,
    ← C.get_entries d k,
  )

  put_all-false : (es : List Entry) (d : L.Db) → (put_all L es false d).0 ≡ false
  unfolding put_all
  put_all-false [] d = refl
  put_all-false ((k, v) ∷ es) d = ground (arith, put_all-false es (L.put d k v).0)

  put_all-get :
      (es : List Entry) (d : L.Db) (k : Bytes)
      → (put_all L es true d).0 ≡ true
      → L.get (put_all L es true d).1 k ≡ assigned k es (L.get d k)
  unfolding put_all
  put_all-get [] d k h = refl
  put_all-get ((j, v) ∷ es) d k h = elim (Bool-cases (L.put d j v).1) [
    | inl done ↦
        ground (arith, put_all-get es (L.put d j v).0 k, ap (assigned k es) (get-put d j v k done))
    | inr failed ↦ absurd (ground (arith, put_all-false es (L.put d j v).0))
  ]

  -- In a database that meets `Contract`, after a `set` that answers `true`, a read of any key returns the last value that the command
  -- assigned to it, or what it returned before if the command does not name it.
  pub get-set :
      (J : Serializers) (cmd : List Entry) (s : Server L) (k : Bytes)
      → (set_request L J cmd s).0 ≡ true
      → L.get (set_request L J cmd s).1.db k ≡ assigned k cmd (L.get s.db k)
  unfolding set_request
  get-set J cmd s k h = put_all-get cmd s.db k h

  delete_all-get :
      (ks : List Bytes) (d : L.Db) (k : Bytes)
      → all_done (delete_all L ks d).0 ≡ true
      → L.get (delete_all L ks d).1 k ≡ (if listed k ks then none else L.get d k)
  unfolding delete_all
  delete_all-get [] d k h = refl
  delete_all-get (j ∷ ks) d k h = elim (Bool-cases (L.delete d j).1) [
    | inl done ↦ ground (arith, delete_all-get ks (L.delete d j).0 k, get-delete d j k done)
    | inr failed ↦ absurd (ground arith)
  ]

  -- In a database that meets `Contract`, after a `del` that answers `true` for every key, a read of a key that it names finds nothing, and
  -- a read of any other key returns what it did before.
  get-del :
      (J : Serializers) (cmd : List Bytes) (s : Server L) (k : Bytes)
      → all_done (del_request L J cmd s).0 ≡ true
      → L.get (del_request L J cmd s).1.db k ≡ (if listed k cmd then none else L.get s.db k)
  unfolding del_request
  get-del J cmd s k h = delete_all-get cmd s.db k h
