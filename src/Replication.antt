-- ===== src/Replication.antt =====
-- src/replication.hpp: the slaves that a master feeds. A `Session` is a `Client_t` with the connection
-- that its methods are given; each method holds the client's spinlock, so it is one step. What the
-- methods send over the connection (the library `fas` does that) is recorded in order.
pub mod Sending
pub mod Steps
pub mod Safety
pub mod Protocol
pub mod Copying
pub mod Delivery
pub mod Registry
pub mod Invariant
use leveldb_daemon.Prelude.{
  ℕ, zero, suc, ◌+◌, pred, Bool, true, false, Option, none, some, List, [], ◌∷◌, ◌++◌,
  if◌then◌else◌, length, drop, is_empty, ◌&&◌,
}
use leveldb_daemon.Prelude.Int.{ℤ, pos, negsuc, ◌+ℤ◌, ◌-ℤ◌, pos_part, ltb_ℤ, leb_ℤ}
use leveldb_daemon.Prelude.Bytes.{Bytes, codes, beq}
use leveldb_daemon.Prelude.Exec.{Result, ok, throw, Exec, pure, raise, ◌>>=◌, ◌>>◌}
use leveldb_daemon.Db.{Leveldb}
use leveldb_daemon.Db.Entries.{Entry}
use leveldb_daemon.Db.Above.{last_key}
use leveldb_daemon.Serializers.{Serializers}

-- enum client_state
pub data ClientState : Type 0 where
  not_ready syncing sync_finishing running : ClientState

-- The methods of the slave that a master calls: the tags `_set_`, `_set_range_` and `_del_`.
pub data Method : Type 0 where
  set set_range del : Method

-- struct Client_t; the spinlock `mtx` is the atomicity of the steps
pub record Client : Type 0 where
  pub id : Bytes
  pub state : ClientState
  pub current_keys : List Bytes
  pub queue : List (Bytes × Bytes)
  pub queue_pipelined : ℤ

-- new Client_t(): every member is value-initialised
abbrev pub new_client : Bytes → Client
new_client id = record {
  id = id;
  state = not_ready;
  current_keys = [];
  queue = [];
  queue_pipelined = pos 0;
}

-- A slave's connection: the calls sent over it, the detached threads that `_schedule_queue` started
-- and that have not run yet, and whether it is open (`get_status`).
pub record Conn : Type 0 where
  pub sent : List (Method × Bytes)
  pub scheduled : ℕ
  pub open_status : Bool

pub record Session : Type 0 where
  pub client : Client
  pub conn : Conn

-- The exceptions of the file, in the order of their `throw`s.
pub data Failure : Type 0 where
  no_current_key : Failure
  nothing_was_queued : Failure
  pipelined_without_queue : Failure
  unknown_command : Bytes → Failure

abbrev pub pipeline_size : ℕ
pipeline_size = 100

abbrev pub portion_size : ℕ
portion_size = 1000

-- conn.get_aspect().get<tag>().request(conn, buf)
abbrev pub request : Method → Bytes → Conn → Conn
request m buf c = record c { sent = c.sent ++ (m, buf) ∷ [] }

-- std::list::back of a list that is not empty
abbrev pub back : List Bytes → Bytes
back [] = []
back (k ∷ []) = k
back (k ∷ j ∷ ks) = back (j ∷ ks)

-- std::list::pop_front of a list that is not empty
abbrev pub pop_front {ℓ} : {A : Type ℓ} → List A → List A
pop_front [] = []
pop_front (x ∷ xs) = xs

-- The session with its oldest portion confirmed.
abbrev pub popped : Session → Session
popped s = record s { client = record s.client { current_keys = pop_front s.client.current_keys } }

-- The session with its oldest update confirmed.
abbrev pub dequeued : Session → Session
dequeued s = record s {
  client = record s.client {
    queue = pop_front s.client.queue;
    queue_pipelined = s.client.queue_pipelined -ℤ pos 1;
  };
}

-- Client_t::current
abbrev pub current : Client → Bytes
current c = back c.current_keys

-- Client_t::enqueue
unfoldable pub enqueue : Bytes × Bytes → Client → Client
enqueue buf c = record c { queue = c.queue ++ buf ∷ [] }

-- Client_t::send<T>, with the serializer of T
unfoldable pub send {ℓ} : {T : Type ℓ} → (T → Bytes) → Bytes → T → Client → Client
unfolding enqueue
send print cmd x c = enqueue (cmd, print x) c

-- Client_t::_schedule_queue
unfoldable pub schedule_queue : Session → Session
schedule_queue s = record s { conn = record s.conn { scheduled = s.conn.scheduled + 1 } }

-- The command's dispatch in the loop of `_push_queue_items`.
unfoldable pub method_of : Bytes → Option Method
method_of cmd =
    if beq cmd (codes "del")
    then some del
    else if beq cmd (codes "set")
    then some set
    else if beq cmd (codes "set_range")
    then some set_range
    else none

-- The loop of `_push_queue_items`, from the first entry that is not on its way.
unfoldable pub send_items : List (Bytes × Bytes) → Exec Failure Session (Unit {0})
send_items [] s = pure tt s
send_items ((cmd, params) ∷ rest) s =
    if ltb_ℤ s.client.queue_pipelined (pos pipeline_size)
    then (elim (method_of cmd) [
      | none ↦ raise (unknown_command cmd) s
      | some m ↦ send_items rest (record s {
        client = record s.client { queue_pipelined = s.client.queue_pipelined +ℤ pos 1 };
        conn = request m params s.conn;
      })
    ])
    else pure tt s

-- Client_t::_push_queue_items
unfoldable pub push_queue_items : Exec Failure Session Bool
push_queue_items s =
    if is_empty s.client.queue
    then (if leb_ℤ s.client.queue_pipelined (pos 0) && leb_ℤ (pos 0) s.client.queue_pipelined
        then pure false (schedule_queue s)
        else raise pipelined_without_queue s)
    else if leb_ℤ (pos (length s.client.queue)) s.client.queue_pipelined
    then pure false s
    else if leb_ℤ (pos pipeline_size) s.client.queue_pipelined
    then pure false s
    else (send_items (drop (pos_part s.client.queue_pipelined) s.client.queue) >> pure true) s

-- Client_t::_sync_queue and Client_t::sync_queue
unfoldable pub sync_queue : Exec Failure Session (Unit {0})
sync_queue s =
    (push_queue_items >> pure tt)
      (record s { client = record s.client { state = running; queue_pipelined = pos 0 } })

-- The thread of `_schedule_queue`, when it wakes.
unfoldable pub wake : Exec Failure Session Bool
wake s =
    let s' = record s { conn = record s.conn { scheduled = pred s.conn.scheduled } } in
    if s.conn.open_status then push_queue_items s' else pure false s'

module _ (L : Leveldb) where
  -- The `for` loop of `_push_next_portion`, with the rounds that its counter leaves.
  unfoldable pub collect : ℕ → L.Iterator → List Entry
  collect zero it = []
  collect (suc n) it =
      let rest = collect n (L.next it) in if L.valid it then (L.key it, L.value it) ∷ rest else []

  -- Where `_push_next_portion` begins to read.
  unfoldable pub portion_start : L.Db → Bytes → L.Iterator
  portion_start d from =
      if is_empty from
      then L.seek_to_first (L.new_iterator d)
      else L.next (L.seek (L.new_iterator d) from)

  unfoldable pub portion : L.Db → Bytes → List Entry
  portion d from = collect portion_size (portion_start d from)

module _ (L : Leveldb) (J : Serializers) where
  -- Client_t::_push_next_portion
  unfoldable pub push_next_portion : L.Db → Bytes → Exec Failure Session Bytes
  push_next_portion d from s =
      let found = portion L d from in
      let conn = request set (J.print_valmap2str found) s.conn in
      let key = last_key from found in
      let keys = s.client.current_keys ++ key ∷ [] in
      if is_empty found
      then pure key (record s {
        client = record s.client { state = sync_finishing; current_keys = keys };
        conn = conn;
      })
      else pure key (record s { client = record s.client { current_keys = keys }; conn = conn })

  -- The loop of `sync_initial`.
  unfoldable pub push_portions : ℕ → L.Db → Bytes → Exec Failure Session (Unit {0})
  push_portions zero d key = pure tt
  push_portions (suc n) d key = push_next_portion d key >>= push_portions n d

  -- Client_t::sync_initial
  unfoldable pub sync_initial : L.Db → Exec Failure Session (Unit {0})
  sync_initial d = push_portions pipeline_size d [] >> λ s.
      pure tt (record s { client = record s.client { state = syncing } })

  -- Client_t::on_confirm
  unfoldable pub on_confirm : L.Db → Exec Failure Session (Unit {0})
  on_confirm d s = elim s.client.state [
    | not_ready ↦ pure tt s
    | syncing ↦
        if is_empty s.client.current_keys
        then raise no_current_key s
        else (push_next_portion d (back s.client.current_keys) >> pure tt) (popped s)
    | sync_finishing ↦
        if is_empty s.client.current_keys
        then raise no_current_key s
        else if is_empty (pop_front s.client.current_keys)
        then sync_queue (popped s)
        else pure tt (popped s)
    | running ↦
        if is_empty s.client.queue
        then raise nothing_was_queued s
        else (push_queue_items >> pure tt) (dequeued s)
  ]
