-- ===== src/Replication/Steps.antt =====
-- src/replication.hpp: one confirmation (`on_confirm`), case by case.
use leveldb_daemon.Prelude.{◌≡◌, List, [], ◌∷◌, ◌++◌, arith, if◌then◌else◌, is_empty}
use leveldb_daemon.Prelude.Bytes.{Bytes}
use leveldb_daemon.Prelude.Exec.{ok, pure, ◌>>◌}
use leveldb_daemon.Db.{Leveldb}
use leveldb_daemon.Db.Entries.{Entry}
use leveldb_daemon.Db.Above.{last_key}
use leveldb_daemon.Serializers.{Serializers}
use leveldb_daemon.Replication.{
  syncing, sync_finishing, running, Session, sync_queue, push_queue_items, push_next_portion,
  dequeued, on_confirm, request, set, popped, back, portion,
}

-- The session after the portion `found`, read from `from`, was sent.
abbrev pub after_portion : (List Entry → Bytes) → List Entry → Bytes → Session → Session
after_portion print found from s = record s {
  client = record s.client {
    state = if is_empty found then sync_finishing else s.client.state;
    current_keys = s.client.current_keys ++ last_key from found ∷ [];
  };
  conn = request set (print found) s.conn;
}

module _ (L : Leveldb) (J : Serializers) (d : L.Db) where
  -- A portion always goes out, and its last key is remembered; an empty one ends the copying.
  pub push_next_portion_lem :
      (from : Bytes) (s : Session)
      → push_next_portion L J d from s ≡ (
        ok (last_key from (portion L d from)),
        after_portion J.print_valmap2str (portion L d from) from s,
      )
  unfolding push_next_portion
  push_next_portion_lem from s = ground arith

  pub confirm_copying :
      (s : Session) (x : Bytes) (keys : List Bytes)
      → s.client.state ≡ syncing
      → s.client.current_keys ≡ x ∷ keys
      → on_confirm L J d s ≡ (
          let from = back s.client.current_keys in
          (ok tt, after_portion J.print_valmap2str (portion L d from) from (popped s)))
  unfolding on_confirm
  confirm_copying s x keys e c =
      ground (arith, push_next_portion_lem (back s.client.current_keys) (popped s))

  pub confirm_finishing :
      (s : Session) (x y : Bytes) (keys : List Bytes)
      → s.client.state ≡ sync_finishing
      → s.client.current_keys ≡ x ∷ y ∷ keys
      → on_confirm L J d s ≡ (ok tt, popped s)
  unfolding on_confirm
  confirm_finishing s x y keys e c = ground arith

  pub confirm_finished :
      (s : Session) (x : Bytes)
      → s.client.state ≡ sync_finishing
      → s.client.current_keys ≡ x ∷ []
      → on_confirm L J d s ≡ sync_queue (popped s)
  unfolding on_confirm
  confirm_finished s x e c = ground arith

  pub confirm_running :
      (s : Session) (x : Bytes × Bytes) (q : List (Bytes × Bytes))
      → s.client.state ≡ running
      → s.client.queue ≡ x ∷ q
      → on_confirm L J d s ≡ (push_queue_items >> pure tt) (dequeued s)
  unfolding on_confirm
  confirm_running s x q e c = ground arith
