-- ===== src/Tests/Registrations.antt =====
-- The registry of slaves on a concrete master.
use leveldb_daemon.Prelude.{◌≡◌, false, some, [], ◌∷◌}
use leveldb_daemon.Prelude.Bytes.{codes, beq}
use leveldb_daemon.Assoc.{find}
use leveldb_daemon.Replication.{new_client}
use leveldb_daemon.Replication.Protocol.{new_conn}
use leveldb_daemon.Replication.Registry.{Master, add_client}
use leveldb_daemon.Replication.Registry.Members.{is_some, add_client-registered}
use leveldb_daemon.Tests.Sample.{Log, sample, sample_json}

abbrev store : Log
store = (codes "a", some (codes "1")) ∷ []

abbrev master : Master
master = record { clients = (codes "s1", new_client (codes "s1")) ∷ []; conn = new_conn }

add_client-registered_example :
    is_some (
      find
        (codes "s1")
        (add_client sample sample_json store (codes "s1") (codes "stop") master).1.clients)
    ≡ false
unfolding beq
add_client-registered_example =
    add_client-registered sample sample_json store (codes "s1") (codes "stop") master
