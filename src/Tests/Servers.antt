-- ===== src/Tests/Servers.antt =====
-- The server of several pools on concrete requests.
use leveldb_daemon.Prelude.{◌≡◌, refl, Bool, true, false, some, List, [], ◌∷◌, arith}
use leveldb_daemon.Prelude.Int.{ℤ, pos, wrap}
use leveldb_daemon.Prelude.Bytes.{Bytes, codes, beq}
use leveldb_daemon.Multiserver.{JsonRpcReq, new_json_rpc_req, invoke_request, serve}
use leveldb_daemon.Multiserver.Dispatch.{serve_lem}
use leveldb_daemon.Multiserver.Invoke.{Classes, execute_request, perform, run, run-answer}
use leveldb_daemon.Prelude.Exec.{ok}
use leveldb_daemon.Assoc.{find, assign}
use leveldb_daemon.Prelude.Int.{leb_ℤ}
use leveldb_daemon.Multiserver.{get_method_number, fill_map, run_method_request}

-- A method is its name here; the table has one name twice, as the daemon's has.
abbrev own_name : Bytes → Bytes
own_name m = m

abbrev no_ids : Bytes → ℤ → Bool
no_ids m id = false

abbrev methods : List Bytes
methods = codes "get" ∷ codes "set" ∷ codes "set" ∷ codes "inc" ∷ []

abbrev set_call : JsonRpcReq
set_call = record new_json_rpc_req { method = codes "set"; id = pos 7; params = codes "{}" }

serve_lem_example :
    serve own_name no_ids methods set_call ≡ invoke_request (codes "set") (pos 7) (codes "{}")
unfolding beq wrap
serve_lem_example = serve_lem own_name no_ids methods set_call refl refl

-- Methods that answer their parameters.
abbrev echo : Classes Bytes (Unit {0}) (Unit {0})
echo = record {
  name = own_name;
  has_id = no_ids;
  has_request = λ m. true;
  has_notify = λ m. false;
  parses = λ m params. true;
  request = λ m params id s. (ok (some params), s);
  notify = λ m params s. (ok tt, s);
}

run-answer_example : (pos 7 ≡ set_call.id) × (leb_ℤ (pos 0) set_call.id ≡ true)
unfolding run perform serve get_method_number fill_map run_method_request execute_request beq find
    assign wrap
run-answer_example =
    run-answer echo methods set_call tt (codes "{}") (pos 7) refl refl (omega arith, omega arith)
      refl
