-- ===== src/Cluster/Invariant.antt =====
-- src/fas_methods.hpp, src/replication.hpp: what holds of a master and its slave at every time, and the
-- handlers of the master keep.
use leveldb_daemon.Prelude.{
  ◌≤◌, ◌≡◌, ap, sym, subst, ◌∙◌, true, some, List, [], ◌∷◌, ◌++◌, length, drop, take, drop-append,
  length-append, arith, inl, inr,
}
use leveldb_daemon.Prelude.Int.{pos_part}
use leveldb_daemon.Prelude.Bytes.{Bytes, codes}
use leveldb_daemon.Db.{Leveldb, Contract}
use leveldb_daemon.Serializers.{Serializers}
use leveldb_daemon.Replication
use leveldb_daemon.Replication.{
  ClientState, running, Client, Session, Method, request, send_items, push_queue_items,
  schedule_queue, wake, on_confirm, enqueue, send, method_of,
}
use leveldb_daemon.Replication.Sending.{calls, or_set}
use leveldb_daemon.Replication.Protocol.{update}
use leveldb_daemon.Replication.Delivery.{pending, LinkDelivers, Step-Delivers, calls-append}
use leveldb_daemon.Handlers.{Server, put_all, delete_all, del_request}
use leveldb_daemon.Handlers.Commands.{Command, is_answered, handled, replicated, commands_converge}
use leveldb_daemon.Cluster.Updates.{
  take_calls-append, take_set, take_del, delete_all-entries, remove_all, set-one, del-one,
  method_of_set, method_of-del, take-append,
}
use leveldb_daemon.Cluster.{Parsers, take_call, take_calls, Cluster, master, after_handler}

-- A handler answers, and the slave reads back what it replicates.
abbrev pub IsKept : (L : Leveldb) → Serializers → Parsers → Bytes → Cluster L → Command → Type 0
IsKept L J P id u c =
    let repl = replicated L J c (master id u) in
    (is_answered L J c (master id u) ≡ true)
    × (P.parse_valmap2str (J.print_valmap2str repl) ≡ some repl)

abbrev pub IsReadBack : Serializers → Parsers → List Bytes → Type 0
IsReadBack J P keys = P.parse_vallist (J.print_vallist keys) ≡ some keys

module _ (L : Leveldb) (C : Contract L) (writes : (d : L.Db) (k v : Bytes) → (L.put d k v).1 ≡ true)
    (deletes : (d : L.Db) (k : Bytes) → (L.delete d k).1 ≡ true) (J : Serializers)
    (P : Parsers) where
  -- The slave, once it has taken all calls that are on their way or will be sent.
  abbrev pub caught_up : Cluster L → Server L
  caught_up u = take_calls L J P (drop u.taken (pending u.link.session)) u.slave

  within-pending : (s : Session) → length s.conn.sent ≤ length (pending s)
  within-pending s = omega (
    arith,
    length-append s.conn.sent (calls (drop (pos_part s.client.queue_pipelined) s.client.queue)),
  )

  pub record Follows (u : Cluster L) : Type 0 where
    pub updates : List (Bytes × Bytes)
    pub delivers : LinkDelivers updates u.link
    pub answered : u.link.confirmed ≤ u.taken
    pub within : u.taken ≤ length u.link.session.conn.sent
    pub same : C.entries (caught_up u).db ≡ C.entries u.db
    pub base : Server L
    pub since : u.slave ≡ take_calls L J P (take u.taken (pending u.link.session)) base
    pub queued : calls u.link.session.client.queue ≡ drop u.link.confirmed (pending u.link.session)

  -- One more update that is queued, where the slave can make of it what the handler made of the database.
  queued-Follows :
      (u : Cluster L) (v : Follows u) (d : L.Db) (m : Method) (cmd params : Bytes)
      → method_of cmd ≡ some m
      → C.entries (take_call L J P (m, params) (caught_up u)).db ≡ C.entries d
      → Follows (after_handler d (enqueue (cmd, params) u.link.session.client) u)
  queued-Follows u v d m cmd params h e =
      let next_one : List (Bytes × Bytes) = (cmd, params) ∷ [] in
      let after = Step-Delivers L J v.updates (update u.link m cmd params h) v.delivers in
      let u' = after_handler d (enqueue (cmd, params) u.link.session.client) u in
      let longer : pending u'.link.session ≡ pending u.link.session ++ (m, params) ∷ [] =
        after.due
        ∙ calls-append v.updates next_one
        ∙ ap (λ t. calls v.updates ++ (t, params) ∷ []) (ap or_set h)
        ∙ ap (λ t. t ++ (m, params) ∷ []) (sym v.delivers.due) in
      let fits : u.taken ≤ length (pending u.link.session) =
        omega (arith, v.within, within-pending u.link.session) in
      record {
        updates = v.updates ++ next_one;
        delivers = after;
        answered = v.answered;
        within = v.within;
        same =
            ap (λ t. C.entries (take_calls L J P (drop u.taken t) u.slave).db) longer
            ∙ ap (λ t. C.entries (take_calls L J P t u.slave).db)
                (drop-append u.taken (pending u.link.session) ((m, params) ∷ []) fits)
            ∙ ap (λ t. C.entries t.db)
                (take_calls-append L J P (drop u.taken (pending u.link.session)) ((m, params) ∷ [])
                  u.slave)
            ∙ e;
        base = v.base;
        since =
            v.since
            ∙ ap (λ t. take_calls L J P t v.base)
                (sym (take-append u.taken (pending u.link.session) ((m, params) ∷ []) fits)
                  ∙ ap (take u.taken) (sym longer));
        queued =
            unfold enqueue in
            calls-append u.link.session.client.queue next_one
            ∙ ap (λ t. calls u.link.session.client.queue ++ (t, params) ∷ []) (ap or_set h)
            ∙ ap (λ t. t ++ (m, params) ∷ []) v.queued
            ∙ sym (
                drop-append u.link.confirmed (pending u.link.session) ((m, params) ∷ [])
                  (omega (arith, fits, v.answered)))
            ∙ ap (drop u.link.confirmed) (sym longer);
      }

  -- Nothing is queued, and the database keeps its contents.
  unchanged-Follows :
      (u : Cluster L) (v : Follows u) (d : L.Db) (client : Client)
      → client ≡ u.link.session.client
      → C.entries u.db ≡ C.entries d
      → Follows (after_handler d client u)
  unchanged-Follows u v d client e h =
      subst (λ c. Follows (after_handler d c u)) (sym e)
        (record {
          updates = v.updates;
          delivers = v.delivers;
          answered = v.answered;
          within = v.within;
          same = v.same ∙ h;
          base = v.base;
          since = v.since;
          queued = v.queued;
        })

  pub command-Follows :
      (id : Bytes) (u : Cluster L) (v : Follows u) (c : Command) (client : Client)
      → IsKept L J P id u c
      → (handled L J c (master id u)).clients ≡ (id, client) ∷ []
      → Follows (after_handler (handled L J c (master id u)).db client u)
  unfolding put_all
  command-Follows id u v c client h e =
      let d = (handled L J c (master id u)).db in
      let repl = replicated L J c (master id u) in
      let (clients, same) =
        commands_converge L C writes J (caught_up u).db (master id u) v.same c h.0 in
      elim (set-one J repl id u.link.session.client client v.delivers.is_running
        (sym clients ∙ e)) [
          | inl (none_sent, kept) ↦ unchanged-Follows u v d client kept (
              sym v.same
              ∙ ap (λ r. C.entries (put_all L r true (caught_up u).db).1) (sym none_sent)
              ∙ same)
          | inr queued ↦
              subst (λ c. Follows (after_handler d c u)) (sym queued)
                (queued-Follows u v d Replication.set (codes "set") (J.print_valmap2str repl)
                  method_of_set (ap C.entries (take_set L J P repl (caught_up u) h.1) ∙ same))
        ]

  pub del-Follows :
      (id : Bytes) (u : Cluster L) (v : Follows u) (keys : List Bytes) (client : Client)
      → IsReadBack J P keys
      → (del_request L J keys (master id u)).1.clients ≡ (id, client) ∷ []
      → Follows (after_handler (del_request L J keys (master id u)).1.db client u)
  unfolding del_request delete_all
  del-Follows id u v keys client read e =
      let d = (delete_all L keys u.db).1 in
      let same : C.entries (delete_all L keys (caught_up u).db).1 ≡ C.entries d =
        delete_all-entries L C deletes keys (caught_up u).db
        ∙ ap (remove_all L C deletes keys) v.same
        ∙ sym (delete_all-entries L C deletes keys u.db) in
      elim (del-one J keys id u.link.session.client client v.delivers.is_running e) [
        | inl (none_sent, kept) ↦ unchanged-Follows u v d client kept (
            sym v.same
            ∙ ap (λ r. C.entries (delete_all L r (caught_up u).db).1) (sym none_sent)
            ∙ same)
        | inr queued ↦
            subst (λ c. Follows (after_handler d c u)) (sym queued)
              (queued-Follows u v d Replication.del (codes "del") (J.print_vallist keys)
                method_of-del (ap C.entries (take_del L J P keys (caught_up u) read) ∙ same))
      ]
