-- ===== src/Replication/Registry.antt =====
-- `struct Replication` of src/replication.hpp: the slaves by their ids, and the updates that the
-- handlers pass on to them. The order of the list is the iteration order of the `unordered_map`.
pub mod Routing
pub mod Members
use leveldb_daemon.Prelude.{
  ◌≡◌, Bool, true, false, Option, none, some, List, [], ◌∷◌, map, keep, is_empty, if◌then◌else◌,
}
use leveldb_daemon.Prelude.Bytes.{Bytes, codes, beq, blt}
use leveldb_daemon.Prelude.Exec.{Result, ok, throw, Exec, pure, raise, ◌>>=◌, ◌>>◌}
use leveldb_daemon.Assoc.{find, contains, assign, erase}
use leveldb_daemon.Db.{Leveldb}
use leveldb_daemon.Serializers.{Serializers}
use leveldb_daemon.Replication.{
  ClientState, not_ready, syncing, sync_finishing, running, Client, new_client, Conn, Session,
  Failure, current, send, sync_initial, sync_queue, on_confirm,
}

-- The registry with the connection over which the running method was called.
pub record Master : Type 0 where
  pub clients : List (Bytes × Client)
  pub conn : Conn

-- What a method does that was not called on a client that is there: a null pointer is followed.
pub data Fault : Type 0 where
  null_client : Fault
  thrown : Failure → Fault

-- repClients[id]->m(conn)
unfoldable pub on_client {ℓ} : {A : Type ℓ} → Bytes → Exec Failure Session A → Exec Fault Master A
on_client id m w = elim (find id w.clients) [
  | none ↦ raise null_client w
  | some c ↦
      let (r, s) = m (record { client = c; conn = w.conn }) in
      let w' : Master = record { clients = assign id s.client w.clients; conn = s.conn } in
      elim r [ ok a ↦ pure a w' | throw x ↦ raise (thrown x) w' ]
]

-- The loop body of `_send_to_clients`.
unfoldable pub send_to_client {ℓ} :
    {X : Type ℓ} → (List X → Bytes) → Bytes → List X → (List X → Bytes → List X) → Client → Client
unfolding send
send_to_client print cmd items callback c = elim c.state [
  | running ↦ send print cmd items c
  | syncing ↦
      let partial = callback items (current c) in
      if is_empty partial then c else send print cmd partial c
  | _ ↦ c
]

-- Replication::_send_to_clients
unfoldable pub send_to_clients {ℓ} :
    {X : Type ℓ}
    → (List X → Bytes)
    → Bytes
    → List X
    → (List X → Bytes → List X)
    → List (Bytes × Client)
    → List (Bytes × Client)
unfolding send_to_client
send_to_clients print cmd items callback cs =
    if is_empty items then cs else map (λ e. (e.0, send_to_client print cmd items callback e.1)) cs

-- The callbacks of `set`, `set_range` and `del`: what lies below the key that was copied last.
abbrev pub below_key : List (Bytes × Bytes) → Bytes → List (Bytes × Bytes)
below_key items key = keep (λ e. blt e.0 key) items

abbrev pub keys_below : List Bytes → Bytes → List Bytes
keys_below items key = keep (λ k. blt k key) items

module _ (J : Serializers) where
  -- Replication::set, Replication::set_range and Replication::del
  unfoldable pub set : List (Bytes × Bytes) → List (Bytes × Client) → List (Bytes × Client)
  set items = send_to_clients J.print_valmap2str (codes "set") items below_key

  unfoldable pub set_range : List (Bytes × Bytes) → List (Bytes × Client) → List (Bytes × Client)
  set_range items = send_to_clients J.print_valmap2str (codes "set_range") items below_key

  unfoldable pub del : List Bytes → List (Bytes × Client) → List (Bytes × Client)
  del items = send_to_clients J.print_vallist (codes "del") items keys_below

module _ (L : Leveldb) (J : Serializers) where
  -- The end of `add_client`, once it is decided what is done.
  unfoldable pub begin_client : L.Db → Bytes → Bytes → Exec Fault Master (Unit {0})
  begin_client d id state w =
      let w' : Master =
        if contains id w.clients
        then w
        else record w { clients = assign id (new_client id) w.clients } in
      if beq state (codes "start")
      then on_client id
          (λ s. sync_initial L J d (record s { client = record s.client { state = not_ready } })) w'
      else on_client id
          (λ s. sync_queue (record s { client = record s.client { state = running } })) w'

  -- Replication::add_client
  unfoldable pub add_client : L.Db → Bytes → Bytes → Exec Fault Master (Unit {0})
  add_client d id state w =
      let dropped : Master = record w { clients = erase id w.clients } in
      if contains id w.clients
      then (if beq state (codes "stop")
          then pure tt dropped
          else if beq state (codes "start")
          then begin_client d id state dropped
          else begin_client d id state w)
      else (if beq state (codes "auto")
          then begin_client d id (codes "start") w
          else if beq state (codes "stop")
          then pure tt w
          else begin_client d id state w)

  -- The `response` of `set`, `set_range` and `del`, for the slave that `rep_setstate` registered.
  unfoldable pub confirm_response : L.Db → Bytes → Exec Fault Master Bool
  confirm_response d clid w =
      if contains clid w.clients
      then (on_client clid (on_confirm L J d) >> pure true) w
      else pure false w
