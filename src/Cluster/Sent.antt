-- ===== src/Cluster/Sent.antt =====
-- src/replication.hpp: no operation takes a call back that was sent.
use leveldb_daemon.Prelude.{
  ◌≤◌, ◌≡◌, refl, pred, List, [], ◌∷◌, length, drop, length-append, arith, Option-cases, inl, inr,
}
use leveldb_daemon.Prelude.Int.{pos, pos_part, ◌+ℤ◌}
use leveldb_daemon.Prelude.Bytes.{Bytes}
use leveldb_daemon.Db.{Leveldb}
use leveldb_daemon.Serializers.{Serializers}
use leveldb_daemon.Replication.{
  running, Session, dequeued, request, send_items, push_queue_items, schedule_queue, wake,
  on_confirm, method_of, sync_queue, pop_front,
}

send_items-sent :
    (items : List (Bytes × Bytes)) (s : Session)
    → length s.conn.sent ≤ length (send_items items s).1.conn.sent
unfolding send_items
send_items-sent [] s = omega arith
send_items-sent ((cmd, params) ∷ items) s = elim (Option-cases (method_of cmd)) [
  | inl e ↦ ground (arith, e)
  | inr (m, e) ↦
      let s' : Session = record s {
        client = record s.client { queue_pipelined = s.client.queue_pipelined +ℤ pos 1 };
        conn = request m params s.conn;
      } in
      ground (arith, e, send_items-sent items s', length-append s.conn.sent ((m, params) ∷ []))
]

push_queue_items-sent : (s : Session) → length s.conn.sent ≤ length (push_queue_items s).1.conn.sent
unfolding push_queue_items schedule_queue
push_queue_items-sent s =
    ground (arith, send_items-sent (drop (pos_part s.client.queue_pipelined) s.client.queue) s)

pub wake-sent : (s : Session) → length s.conn.sent ≤ length (wake s).1.conn.sent
unfolding wake
wake-sent s = ground (
  arith,
  push_queue_items-sent (record s { conn = record s.conn { scheduled = pred s.conn.scheduled } }),
)

module _ (L : Leveldb) (J : Serializers) where
  pub on_confirm-sent :
      (d : L.Db) (s : Session)
      → s.client.state ≡ running
      → length s.conn.sent ≤ length (on_confirm L J d s).1.conn.sent
  unfolding on_confirm
  on_confirm-sent d s h = ground (arith, push_queue_items-sent (dequeued s))

-- Only a confirmation takes an update from the queue.
send_items-queue :
    (items : List (Bytes × Bytes)) (s : Session)
    → (send_items items s).1.client.queue ≡ s.client.queue
unfolding send_items
send_items-queue [] s = refl
send_items-queue ((cmd, params) ∷ items) s = elim (Option-cases (method_of cmd)) [
  | inl e ↦ ground (arith, e)
  | inr (m, e) ↦
      let s' : Session = record s {
        client = record s.client { queue_pipelined = s.client.queue_pipelined +ℤ pos 1 };
        conn = request m params s.conn;
      } in
      ground (arith, e, send_items-queue items s')
]

push_queue_items-queue : (s : Session) → (push_queue_items s).1.client.queue ≡ s.client.queue
unfolding push_queue_items schedule_queue
push_queue_items-queue s =
    ground (arith, send_items-queue (drop (pos_part s.client.queue_pipelined) s.client.queue) s)

pub wake-queue : (s : Session) → (wake s).1.client.queue ≡ s.client.queue
unfolding wake
wake-queue s = ground (
  arith,
  push_queue_items-queue (record s { conn = record s.conn { scheduled = pred s.conn.scheduled } }),
)

pub sync_queue-queue : (s : Session) → (sync_queue s).1.client.queue ≡ s.client.queue
unfolding sync_queue
sync_queue-queue s =
    let s' : Session = record s {
      client = record s.client { state = running; queue_pipelined = pos 0 };
    } in
    ground (arith, push_queue_items-queue s')

module _ (L : Leveldb) (J : Serializers) where
  pub on_confirm-queue :
      (d : L.Db) (s : Session)
      → s.client.state ≡ running
      → (on_confirm L J d s).1.client.queue ≡ pop_front s.client.queue
  unfolding on_confirm
  on_confirm-queue d s h = ground (arith, push_queue_items-queue (dequeued s))
