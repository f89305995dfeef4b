-- ===== src/Lib.antt =====
-- leveldb-daemon: a key-value server over LevelDB with JSON-RPC methods and master-slave replication.
--
-- A client calls a method (`set`, `del`, `add`, `inc`, `inc_add`, `update_packed`, `get`,
-- `get_range`); its handler (src/fas_methods.hpp) reads and writes the database (src/db.hpp) and hands
-- what it wrote to the replication (src/replication.hpp). A slave registers with `rep_setstate`; the
-- master first copies its database to it in portions, and then sends it the queued updates. The slave
-- answers each call, and the answer is the confirmation that makes the master send more.
--
-- The files and the code:
--   Db.antt: what the code calls of LevelDB, as parameters (`Leveldb`), and what LevelDB documents
--     (`Contract`); Db/Entries.antt, Db/Above.antt and Db/Same.antt: sorted lists of entries,
--     the abstract contents.
--     Db/Memory.antt: the disabled database in memory of src/db.hpp, and the numbers of its key locks.
--   Serializers.antt: the JSON serializers of the library fas, as parameters.
--   Assoc.antt: `std::unordered_map` as an association list.
--   Replication.antt: `Client_t`. A `Session` is a client with the connection that its methods are
--     given; a method holds the client's spinlock and is one function: `_push_queue_items` is
--     `push_queue_items`, `_push_next_portion` is `push_next_portion`, `_schedule_queue` is
--     `schedule_queue` and its thread is `wake`, and so on. Replication/Sending, Steps and Invariant
--     state the invariant of a session, Safety is about the operations and the invariant, Protocol
--     holds the step relation between a master and a slave, Delivery the order of the
--     updates, Copying the first copy.
--   Replication/Registry.antt: `struct Replication`; Registry/Routing: which updates reach
--     which slave, Registry/Members: who is registered.
--   Status.antt: the answer of `rep_status`; Status/Printing is about its form.
--   Handlers.antt: the handlers; `Server` holds the globals `db_global` and `replication`. `get_range`
--     is in Handlers/Range. Handlers/Writes, Sums, Throws, Converge and Commands are about the handlers.
--     Handlers/Concurrent: the rounds of `add`, `inc`, `inc_add` and `set` in several threads, with the locks
--     of the keys (`LockManager` of src/db.hpp); an access to the database, a lock or the replication
--     is a step. Atomic is about the database, Sequential about the handlers that run alone, Progress
--     about the waiting for locks, Races about what the locks do not prevent.
--   Cluster.antt: a master and a slave that it feeds, as a step relation over the handlers of both, the session,
--     the calls on their way, and the reconnection of the slave (`client_connect` of src/daemon.cpp).
--     Cluster/Invariant and Follows are about the contents of the two, over Sent (the session), Updates (one
--     update) and Replay (calls that are taken again). That the slave reads back what the master prints is a
--     condition on each step: `valmap2str_json` goes by the serializers of src/strvalue.hpp, which cut a
--     value at a zero byte.
--   StringValue.antt: the JSON serializer of the values (src/strvalue.hpp); RoundTrip, Progress and
--     Escapes are about its two directions, its loops and the `\u` escapes.
--   Locks.antt: the spinlocks (common/lock_atomic.hpp), and their users as step relations.
--   Multiserver.antt: the numbering and dispatch of methods, the queues of the pools and the waiting
--     time, and the start of the threads (common/multiserver.hpp, common/multiserver_hlp.hpp,
--     `server_tcp::init` of src/daemon.cpp). Multiserver/Invoke: the invokers, over the classes of the
--     methods as parameters. Multiserver/Lifecycle: a request object between a thread and a connection
--     that is closed, as a step relation; Multiserver/Connection: the set of requests of a connection,
--     without interleaving.
--     Multiserver/Input: what a connection does with a text, with the error answers
--     (common/aspect/json_aspect.hpp) and the line writer (common/aspect/rn_json_aspect.hpp).
--   JsonObject.antt: the serializer of objects with a list of members (common/aj_type_list_inst.hpp);
--     EnumSet.antt: of sets of flags (common/json_set.hpp); JsonValues.antt: of quoted values and of pairs
--     (common/aj_int_quoted.hpp, src/aj_pairvector.hpp). Their modules RoundTrip are about both
--     directions, and the modules Progress about the loops.
--   Mysql.antt: rows, results and connections (common/mymysql.hpp); Mysql/Ownership is about who
--     frees a result.
--   LruCache.antt: the cache (common/lrucache.hpp), over its container; LruCache/Records is about its
--     records.
--   Process.antt: `change_user`, `redirect_output` and `daemonize` (common/misc.hpp), and how `main` of
--     src/daemon.cpp composes them, over the calls of the system; Process/Identities is about the user,
--     Process/Outputs about the files.
--   Comet.antt: the configuration that changes while the program runs (common/config_manager_comet.hpp),
--     over the parser of options and the client of the Comet server.
--   Lines.antt: the reading of lines of a compressed file (common/ad_compressed_write.hpp), over zlib.
--   Prelude.antt and its modules: numbers, `int` and `long long` with their wrap-around, byte strings
--     as lists of numbers in the order of `std::string::compare`, lists, and the monad `Exec` of
--     programs that change a state and may throw (what was changed before a throw stays changed).
--   Tests.antt and its modules: runs at concrete inputs, over a store and serializers of their own.
--
-- Bounds: the loops of `_push_next_portion` and `get_range` are counted loops, and their counters are the
-- arguments of `collect` and `range_loop`. The loops of `unserialize` run on fuel: the length of the text
-- and one more, which is enough since each round consumes a byte (StringValue/Progress); so do the loops
-- over the names and the array of a set (EnumSet/Progress) and over the members of an object
-- (JsonObject/Progress), which consume a comma or a name. The printing of a number runs on the number and
-- one more (Status/Printing). The loop of `getline` runs on any fuel, since it is never entered. `limit + skip`, the sums of increments, the count `n` of `unserialize` and
-- the ids of requests wrap around.
--
-- Not modelled: the sockets, the JSON-RPC layers and the JSON serializers of the library fas, whose
-- copy is in fas/ (parameters, or recorded calls); the interleaving of the handlers outside
-- Handlers/Concurrent (there `update_packed`, which replicates under its lock, and `del`; elsewhere a handler
-- is one step); memory management of clients (that a
-- deleted client may still be used by a thread is outside the model), and answers of an old connection
-- that reach the master after the slave has connected again; the statistics; the
-- reading of the options, and the servers that `main` starts.
pub mod Prelude
pub mod Assoc
pub mod Db
pub mod Serializers
pub mod Replication
pub mod Handlers
pub mod StringValue
pub mod Locks
pub mod Multiserver
pub mod Status
pub mod EnumSet
pub mod JsonObject
pub mod JsonValues
pub mod Cluster
pub mod LruCache
pub mod Process
pub mod Comet
pub mod Lines
pub mod Mysql
pub mod Tests
