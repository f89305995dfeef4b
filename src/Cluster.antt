-- ===== src/Cluster.antt =====
-- A master and a slave that it feeds, as src/fas_methods.hpp and src/replication.hpp put them together: the
-- handlers of the master, its session with the slave, the calls on their way, and the handlers of the
-- slave. A handler is one step. The JSON parsers of the slave are parameters.
pub mod Sent
pub mod Updates
pub mod Replay
pub mod Invariant
pub mod Follows
use leveldb_daemon.Prelude.{
  ℕ, zero, suc, ◌<◌, ◌≡◌, Bool, true, false, Option, none, some, List, [], ◌∷◌, drop,
}
use leveldb_daemon.Prelude.Bytes.{Bytes}
use leveldb_daemon.Db.{Leveldb}
use leveldb_daemon.Db.Entries.{Entry}
use leveldb_daemon.Serializers.{Serializers}
use leveldb_daemon.Replication.{Client, Session, Method, set, set_range, del, on_confirm, wake}
use leveldb_daemon.Replication.Protocol.{Link, resumed}
use leveldb_daemon.Handlers.{Server, set_request, set_range_request, del_request}
use leveldb_daemon.Handlers.Commands.{Command, handled}

-- The parsers of the parameters: `valmap2str_json` and `vallist_json`; `none` if one throws.
pub record Parsers : Type 0 where
  pub parse_valmap2str : Bytes → Option (List Entry)
  pub parse_vallist : Bytes → Option (List Bytes)

module _ (L : Leveldb) (J : Serializers) (P : Parsers) where
  -- A call as the slave serves it: the method of both `_set_` and `_set_range_` is `set`, which gives the
  -- name of the call (`method_list_client`). A call that cannot be parsed changes nothing.
  unfoldable pub take_call : Method × Bytes → Server L → Server L
  take_call (set, params) s = elim (P.parse_valmap2str params) [
    | none ↦ s
    | some cmd ↦ (set_request L J cmd s).1
  ]
  take_call (set_range, params) s = elim (P.parse_valmap2str params) [
    | none ↦ s
    | some cmd ↦ (set_request L J cmd s).1
  ]
  take_call (del, params) s = elim (P.parse_vallist params) [
    | none ↦ s
    | some cmd ↦ (del_request L J cmd s).1
  ]

  abbrev pub take_calls : List (Method × Bytes) → Server L → Server L
  take_calls [] s = s
  take_calls (c ∷ cs) s = take_calls cs (take_call c s)

-- The master's database, its session with the slave and the answers that it got, the slave, and how many
-- calls the slave has taken.
pub record Cluster (L : Leveldb) : Type 0 where
  pub db : L.Db
  pub link : Link
  pub slave : Server L
  pub taken : ℕ

module _ {L : Leveldb} where
  -- The master, whose only slave is this one.
  abbrev pub master : Bytes → Cluster L → Server L
  master id u = record { db = u.db; clients = (id, u.link.session.client) ∷ [] }

  -- The cluster after a handler of the master.
  abbrev pub after_handler : L.Db → Client → Cluster L → Cluster L
  after_handler d c u = record u {
    db = d;
    link = record u.link { session = record u.link.session { client = c } };
  }

module _ (L : Leveldb) (J : Serializers) (P : Parsers) (id : Bytes) where
  -- A client's command at the master (an `inc` that throws is one too), the slave's next call, the answer
  -- to a call, a thread of `_schedule_queue` that wakes, and a slave that loses its connection at any time
  -- and connects again with "continue": the calls and the answers that are still on their way are lost.
  pub data Step : Cluster L → Cluster L → Type 0 where
    command :
        (u : Cluster L) (c : Command) (client : Client)
        → (handled L J c (master id u)).clients ≡ (id, client) ∷ []
        → Step u (after_handler (handled L J c (master id u)).db client u)
    del_command :
        (u : Cluster L) (keys : List Bytes) (client : Client)
        → (del_request L J keys (master id u)).1.clients ≡ (id, client) ∷ []
        → Step u (after_handler (del_request L J keys (master id u)).1.db client u)
    take_next :
        (u : Cluster L) (c : Method × Bytes) (rest : List (Method × Bytes))
        → drop u.taken u.link.session.conn.sent ≡ c ∷ rest
        → Step u (record u { slave = take_call L J P c u.slave; taken = suc u.taken })
    answer :
        (u : Cluster L)
        → u.link.confirmed < u.taken
        → Step u (record u {
          link = record {
            session = (on_confirm L J u.db u.link.session).1;
            confirmed = suc u.link.confirmed;
          };
        })
    wakes :
        (u : Cluster L)
        → 0 < u.link.session.conn.scheduled
        → Step u (record u { link = record u.link { session = (wake u.link.session).1 } })
    reconnect :
        (u : Cluster L) → Step u (record u { link = resumed u.link.session.client; taken = 0 })

  pub data Reach (u : Cluster L) : Cluster L → Type 0 where
    here : Reach u u
    next : {v w : Cluster L} → Reach u v → Step v w → Reach u w
