-- ===== src/Tests/Requests.antt =====
-- The handlers on concrete commands.
use leveldb_daemon.Prelude.{ap, ◌≡◌, refl, true, some, List, [], ◌∷◌, arith}
use leveldb_daemon.Prelude.Int.{ℤ, pos, negsuc, ◌+ℤ◌, wrap, add_i64}
use leveldb_daemon.Prelude.Bytes.{Bytes, codes, beq, blt, ble}
use leveldb_daemon.Prelude.Exec.{ok, throw}
use leveldb_daemon.Db.Entries.{Entry, find, insert, from_key}
use leveldb_daemon.Replication.Registry
use leveldb_daemon.Handlers.{
  Server, json_error, put_all, set_request, inc_request, inc_add_request, inc_all, inc_one,
  base_value,
}
use leveldb_daemon.Handlers.Writes.{get-set}
use leveldb_daemon.Handlers.Sums.{get-inc_add}
use leveldb_daemon.Handlers.Throws.{inc_partial_unreplicated}
use leveldb_daemon.Handlers.Commands.{
  is_ok, inc, handled, replicated, is_answered, commands_converge,
}
use leveldb_daemon.Handlers.Range.{get_range, get_range-window}
use leveldb_daemon.Tests.Sample.{
  Log, sample, sample_contract, sample_writes, sample_json, sample_reads_back,
}

-- "a" holds the integer 1, "b" holds 2 and "x" a text that is no integer.
abbrev store : Log
store =
    (codes "x", some (7 ∷ []))
    ∷ (codes "b", some (0 ∷ 2 ∷ []))
    ∷ (codes "a", some (0 ∷ 1 ∷ []))
    ∷ []

abbrev server : Server sample
server = record { db = store; clients = [] }

abbrev two_keys : List Entry
two_keys = (codes "a", codes "5") ∷ (codes "c", codes "6") ∷ []

get-set_example :
    sample.get (set_request sample sample_json two_keys server).1.db (codes "a") ≡ some (codes "5")
unfolding beq set_request put_all
get-set_example = get-set sample sample_contract sample_json two_keys server (codes "a") refl

-- Two increments of one key in one command.
get-inc_add_example :
    sample.get
      (inc_add_request sample sample_json
        (pos 0)
        (record { inc = (codes "a", pos 4) ∷ (codes "a", negsuc 1) ∷ []; def = [] })
        server).1.db
      (codes "a")
    ≡ some (0 ∷ 3 ∷ [])
unfolding beq base_value find insert blt wrap ◌+ℤ◌
get-inc_add_example =
    get-inc_add sample sample_contract sample_json sample_writes sample_reads_back (pos 0) []
      (codes "a") ((codes "a", pos 4) ∷ (codes "a", negsuc 1) ∷ []) server (pos 1) refl refl

abbrev increments : List (Bytes × ℤ)
increments = (codes "a", pos 4) ∷ (codes "b", pos 1) ∷ []

inc_result :
    (inc_request sample sample_json (pos 0) increments server).0
    ≡ ok ((codes "a", 0 ∷ 5 ∷ []) ∷ (codes "b", 0 ∷ 3 ∷ []) ∷ [])
unfolding inc_request inc_all inc_one find insert beq blt add_i64 wrap ◌+ℤ◌
inc_result = refl

inc_answered : is_answered sample sample_json (inc (pos 0) increments) server ≡ true
inc_answered = ap is_ok inc_result

commands_converge_example :
    let repl = replicated sample sample_json (inc (pos 0) increments) server in
    ((handled sample sample_json (inc (pos 0) increments) server).clients
      ≡ Registry.set sample_json repl [])
    × (sample_contract.entries (put_all sample repl true store).1
        ≡ sample_contract.entries (handled sample sample_json (inc (pos 0) increments) server).db)
commands_converge_example =
    commands_converge sample sample_contract sample_writes sample_json store server refl
      (inc (pos 0) increments) inc_answered

inc_partial_unreplicated_example :
    let (result, s') =
      inc_request sample sample_json
        (pos 0)
        ((codes "a", pos 4) ∷ (codes "x", pos 1) ∷ [])
        server in
    (result ≡ throw json_error)
    × (sample.get s'.db (codes "a") ≡ some (sample_json.print_i64 (add_i64 (pos 1) (pos 4))))
    × (s'.clients ≡ [])
unfolding find insert beq blt
inc_partial_unreplicated_example =
    inc_partial_unreplicated sample sample_contract sample_json (pos 0) server (codes "a")
      (codes "x") (0 ∷ 1 ∷ []) (7 ∷ []) (pos 4) (pos 1) [] refl refl refl refl refl refl

-- One entry is skipped and one is returned.
get_range-window_example :
    get_range sample
      (record { from = codes "a"; to = codes "w"; limit = pos 1; skip = pos 1 })
      store
    ≡ some ((codes "b", 0 ∷ 2 ∷ []) ∷ [])
unfolding insert from_key beq blt ble
get_range-window_example =
    get_range-window sample sample_contract (codes "a") (codes "w") 1 1 store (omega arith)
