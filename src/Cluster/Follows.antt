-- ===== src/Cluster/Follows.antt =====
-- src/fas_methods.hpp, src/replication.hpp: the contents of a slave and those of its master.
use leveldb_daemon.Prelude.{
  suc, ◌+◌, ◌-◌, ◌≤◌, ◌≡◌, refl, ap, ap₂, sym, subst, ◌∙◌, true, List, [], ◌∷◌, ◌++◌, length, drop,
  take, drop-drop, drop-append, arith,
}
use mathlib.Core.List.{append-nil}
use leveldb_daemon.Prelude.Int.{pos, pos_part}
use leveldb_daemon.Prelude.Bytes.{Bytes}
use leveldb_daemon.Db.{Leveldb, Contract}
use leveldb_daemon.Serializers.{Serializers}
use leveldb_daemon.Replication.{Client, Method, wake, on_confirm}
use leveldb_daemon.Replication.Sending.{Known, calls}
use leveldb_daemon.Replication.Protocol.{Link, confirm, update, resumed, new_conn}
use leveldb_daemon.Replication.Protocol
use leveldb_daemon.Replication.Delivery.{pending, LinkDelivers, Step-Delivers, resumed-Delivers}
use leveldb_daemon.Handlers.{Server}
use leveldb_daemon.Cluster.Sent.{
  wake-sent, on_confirm-sent, wake-queue, on_confirm-queue, sync_queue-queue,
}
use leveldb_daemon.Cluster.Replay.{sent_again}
use leveldb_daemon.Cluster.Updates.{
  take_calls-append, drop-cons-length, drop-length, drop-suc, take-suc, calls-pop_front,
}
use leveldb_daemon.Cluster.{
  Parsers, take_call, take_calls, Cluster, Step, command, del_command, take_next, answer, wakes,
  reconnect, Reach, here, next,
}
use leveldb_daemon.Cluster.Invariant.{
  IsKept, IsReadBack, caught_up, Follows, command-Follows, del-Follows,
}

-- A step other than a handler that throws, or whose update the slave does not read back.
abbrev pub Keeps :
    (L : Leveldb) (J : Serializers) (P : Parsers) (id : Bytes) {u w : Cluster L}
    → Step L J P id u w
    → Type 0
Keeps L J P id (command u c client e) = IsKept L J P id u c
Keeps L J P id (del_command u keys client e) = IsReadBack J P keys
Keeps L J P id (take_next u c rest e) = Unit {0}
Keeps L J P id (answer u h) = Unit {0}
Keeps L J P id (wakes u h) = Unit {0}
Keeps L J P id (reconnect u) = Unit {0}

abbrev pub AllKeep :
    (L : Leveldb) (J : Serializers) (P : Parsers) (id : Bytes) {u w : Cluster L}
    → Reach L J P id u w
    → Type 0
AllKeep L J P id here = Unit {0}
AllKeep L J P id (next r st) = AllKeep L J P id r × Keeps L J P id st

module _ (L : Leveldb) (C : Contract L) (writes : (d : L.Db) (k v : Bytes) → (L.put d k v).1 ≡ true)
    (deletes : (d : L.Db) (k : Bytes) → (L.delete d k).1 ≡ true) (J : Serializers)
    (P : Parsers) where
  abbrev InStep : Cluster L → Type 0
  InStep = Follows L C writes deletes J P

  take_next-InStep :
      (u : Cluster L) (v : InStep u) (c : Method × Bytes) (rest : List (Method × Bytes))
      → drop u.taken u.link.session.conn.sent ≡ c ∷ rest
      → InStep (record u { slave = take_call L J P c u.slave; taken = suc u.taken })
  take_next-InStep u v c rest e =
      let sent = u.link.session.conn.sent in
      let more =
        calls (drop (pos_part u.link.session.client.queue_pipelined) u.link.session.client.queue) in
      let below = drop-cons-length u.taken sent rest c e in
      let due : drop u.taken (pending u.link.session) ≡ c ∷ (rest ++ more) =
        drop-append u.taken sent more v.within ∙ ap (λ t. t ++ more) e in
      record {
        updates = v.updates;
        delivers = v.delivers;
        answered = omega (arith, v.answered);
        within = omega (arith, below);
        same =
            ap (λ t. C.entries (take_calls L J P t (take_call L J P c u.slave)).db)
              (drop-suc u.taken (pending u.link.session) (rest ++ more) c due)
            ∙ ap (λ t. C.entries (take_calls L J P t u.slave).db) (sym due)
            ∙ v.same;
        base = v.base;
        since =
            ap (take_call L J P c) v.since
            ∙ sym (take_calls-append L J P (take u.taken (pending u.link.session)) (c ∷ []) v.base)
            ∙ ap (λ t. take_calls L J P t v.base)
                (sym (take-suc u.taken (pending u.link.session) (rest ++ more) c due));
        queued = v.queued;
      }

  -- The session goes on, with the same calls before it and no more of them confirmed than taken.
  moved-InStep :
      (u : Cluster L) (v : InStep u) (l : Link)
      → LinkDelivers v.updates l
      → l.confirmed ≤ u.taken
      → length u.link.session.conn.sent ≤ length l.session.conn.sent
      → calls l.session.client.queue ≡ drop l.confirmed (pending u.link.session)
      → InStep (record u { link = l })
  moved-InStep u v l after answered grown left =
      let kept : pending l.session ≡ pending u.link.session = after.due ∙ sym v.delivers.due in
      record {
        updates = v.updates;
        delivers = after;
        answered = answered;
        within = omega (arith, v.within, grown);
        same = ap (λ t. C.entries (take_calls L J P (drop u.taken t) u.slave).db) kept ∙ v.same;
        base = v.base;
        since = v.since ∙ ap (λ t. take_calls L J P (take u.taken t) v.base) (sym kept);
        queued = left ∙ ap (drop l.confirmed) (sym kept);
      }

  reconnect-InStep :
      (u : Cluster L) (v : InStep u)
      → InStep (record u { link = resumed u.link.session.client; taken = 0 })
  reconnect-InStep u v =
      let client = u.link.session.client in
      let delivers = resumed-Delivers L J client v.delivers.inv.1.known in
      let ahead = u.taken - u.link.confirmed in
      let split_taken : u.taken ≡ u.link.confirmed + ahead = omega (arith, v.answered) in
      record {
        updates = client.queue;
        delivers = delivers;
        answered = omega arith;
        within = omega arith;
        same =
            ap (λ t. C.entries (take_calls L J P t u.slave).db) (delivers.due ∙ v.queued)
            ∙ sent_again L C writes deletes J P (pending u.link.session) u.link.confirmed ahead
                v.base u.slave
                (v.since
                  ∙ ap (λ n. take_calls L J P (take n (pending u.link.session)) v.base) split_taken)
            ∙ ap (λ n. C.entries (take_calls L J P (drop n (pending u.link.session)) u.slave).db)
                (sym split_taken)
            ∙ v.same;
        base = u.slave;
        since = refl;
        queued =
            ap calls (sync_queue-queue (record { client = client; conn = new_conn }))
            ∙ sym delivers.due;
      }

  Step-InStep :
      (id : Bytes) {u w : Cluster L} (st : Step L J P id u w)
      → Keeps L J P id st
      → InStep u
      → InStep w
  Step-InStep id (command u c client e) k v =
      command-Follows L C writes deletes J P id u v c client k e
  Step-InStep id (del_command u keys client e) k v =
      del-Follows L C writes deletes J P id u v keys client k e
  Step-InStep id (take_next u c rest e) k v = take_next-InStep u v c rest e
  Step-InStep id (answer u h) k v =
      let st = confirm u.db u.link (omega (arith, h, v.within)) in
      let one_more : u.link.confirmed + 1 ≡ suc u.link.confirmed = omega arith in
      moved-InStep u v _
        (subst
          (λ q. LinkDelivers q (record {
            session = (on_confirm L J u.db u.link.session).1;
            confirmed = suc u.link.confirmed;
          }))
          (append-nil v.updates) (Step-Delivers L J v.updates st v.delivers))
        (omega (arith, h)) (on_confirm-sent L J u.db u.link.session v.delivers.is_running)
        (ap calls (on_confirm-queue L J u.db u.link.session v.delivers.is_running)
          ∙ calls-pop_front u.link.session.client.queue
          ∙ ap (drop 1) v.queued
          ∙ sym (drop-drop u.link.confirmed 1 (pending u.link.session))
          ∙ ap (λ n. drop n (pending u.link.session)) one_more)
  Step-InStep id (wakes u h) k v =
      moved-InStep u v _
        (subst (λ q. LinkDelivers q (record u.link { session = (wake u.link.session).1 }))
          (append-nil v.updates) (Step-Delivers L J v.updates (Protocol.wakes u.link h) v.delivers))
        v.answered (wake-sent u.link.session) (ap calls (wake-queue u.link.session) ∙ v.queued)
  Step-InStep id (reconnect u) k v = reconnect-InStep u v

  Reach-InStep :
      (id : Bytes) {u w : Cluster L} (r : Reach L J P id u w)
      → AllKeep L J P id r
      → InStep u
      → InStep w
  Reach-InStep id here k v = v
  Reach-InStep id (next r st) k v = Step-InStep id st k.1 (Reach-InStep id r k.0 v)

  module _ (id : Bytes) (c : Client) (known : Known c.queue) (d : L.Db) (slave : Server L)
      (same : C.entries (take_calls L J P (calls c.queue) slave).db ≡ C.entries d) where
    -- The slave connects, to go on where it was.
    abbrev pub connected : Cluster L
    connected = record { db = d; link = resumed c; slave = slave; taken = 0 }

    connected-InStep : InStep connected
    connected-InStep =
        let delivers = resumed-Delivers L J c known in
        record {
          updates = c.queue;
          delivers = delivers;
          answered = omega arith;
          within = omega arith;
          same = ap (λ t. C.entries (take_calls L J P t slave).db) delivers.due ∙ same;
          base = slave;
          since = refl;
          queued =
              ap calls (sync_queue-queue (record { client = c; conn = new_conn }))
              ∙ sym delivers.due;
        }

    pub slave_follows :
        {u : Cluster L} (r : Reach L J P id connected u)
        → AllKeep L J P id r
        → C.entries (caught_up L C writes deletes J P u).db ≡ C.entries u.db
    slave_follows r k = (Reach-InStep id r k connected-InStep).same

    -- Of such a slave: when all updates have been sent, and it has taken all calls, it has the contents of
    -- the master.
    slave_in_step :
        {u : Cluster L} (r : Reach L J P id connected u)
        → AllKeep L J P id r
        → u.link.session.client.queue_pipelined ≡ pos (length u.link.session.client.queue)
        → u.taken ≡ length u.link.session.conn.sent
        → C.entries u.slave.db ≡ C.entries u.db
    slave_in_step {u} r k all taken =
        let sent = u.link.session.conn.sent in
        let queue = u.link.session.client.queue in
        let none_left : drop (pos_part u.link.session.client.queue_pipelined) queue ≡ [] =
          ap (λ n. drop (pos_part n) queue) all ∙ drop-length queue in
        let all_sent : pending u.link.session ≡ sent =
          ap (λ q. sent ++ calls q) none_left ∙ append-nil sent in
        let nothing : drop u.taken (pending u.link.session) ≡ [] =
          ap₂ drop taken all_sent ∙ drop-length sent in
        ap (λ t. C.entries (take_calls L J P t u.slave).db) (sym nothing) ∙ slave_follows r k
