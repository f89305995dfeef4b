-- ===== src/Multiserver/Input.antt =====
-- common/multiserver.hpp (`ad_invoke_first::operator()` and `error`, `multiserver_mux_connection`, `ad_writer`),
-- common/aspect/json_aspect.hpp (the error answers) and common/aspect/rn_json_aspect.hpp (the line writer): what
-- a connection does with the text of a request. The parser of the request and the push into a
-- queue are parameters; either may throw.
pub mod Alive
use leveldb_daemon.Prelude.{
  ℕ, ◌+◌, ◌<◌, Bool, true, false, not, ◌&&◌, Option, none, some, List, [], ◌∷◌, ◌++◌, ◌==◌, ltb,
  if◌then◌else◌, length, take, keep,
}
use leveldb_daemon.Prelude.Int.{ℤ, pos, negsuc}
use leveldb_daemon.Prelude.Bytes.{Bytes, codes}
use leveldb_daemon.Locks.{new_spinlock}
use leveldb_daemon.Multiserver.{JsonRpcReq, new_json_rpc_req}
use leveldb_daemon.Multiserver.Connection.{Object, Store, at_address, listed}
use leveldb_daemon.Status.{decimal}

-- A connection: what was written to it, whether it was told to close, and its status.
pub record Wire : Type 0 where
  pub written : Bytes
  pub is_released : Bool
  pub is_open : Bool

abbrev pub write_raw : Bytes → Wire → Wire
write_raw d w = record w { written = w.written ++ d }

abbrev pub release : Wire → Wire
release w = record w { is_released = true }

-- multiserver_mux_connection::write and get_status
unfoldable pub connection_write : Bytes → Wire → Wire
connection_write d w = if w.is_open then write_raw d w else w

-- ad_writer: the client of the request that a thread works on, if one was set
unfoldable pub writer_write : Bytes → Option Wire → Option Wire
unfolding connection_write
writer_write d none = none
writer_write d (some w) = some (connection_write d w)

abbrev pub writer_status : Option Wire → Bool
writer_status none = false
writer_status (some w) = w.is_open

abbrev pub writer_release : Option Wire → Option Wire
writer_release none = none
writer_release (some w) = some (release w)

-- ad_rn_writer::operator(): the text and the end of a line
unfoldable pub rn_write : (Bytes → Wire → Wire) → Bytes → Wire → Wire
rn_write write d w = write (d ++ 13 ∷ 10 ∷ []) w

-- %d
unfoldable pub print_int : ℤ → Bytes
unfolding decimal
print_int (pos n) = decimal n
print_int (negsuc n) = b'-' ∷ decimal (n + 1)

-- snprintf(data, 255, ...) and then as many bytes of `data` as it returned; `none` is a read behind `data`
unfoldable pub printed : Bytes → Option Bytes
printed text =
    if ltb (length text) 255
    then some text
    else if length text == 255
    then some (take 254 text ++ 0 ∷ [])
    else none

abbrev pub error_text : ℤ → Bytes → Bytes → Bytes
error_text code text id =
    codes "{\"jsonrpc\": \"2.0\", \"error\": {\"code\": "
    ++ (print_int code
        ++ (codes ", \"message\": \"" ++ (text ++ (codes ".\"}, \"id\": " ++ (id ++ codes "}")))))

-- ad_json_error::operator(), with an id and without one
unfoldable pub json_error : ℤ → ℤ → Bytes → Option Bytes
unfolding printed print_int
json_error id code text = printed (error_text code text (print_int id))

unfoldable pub json_error_null : ℤ → Bytes → Option Bytes
unfolding printed print_int
json_error_null code text = printed (error_text code text (codes "null"))

-- ad_invoke_first::error: the writer of the connection itself
abbrev pub error : Option Bytes → Wire → Option Wire
error none w = none
error (some d) w = some (write_raw d w)

abbrev pub released : Option Wire → Option Wire
released none = none
released (some w) = some (release w)

-- ad_invalid_json::operator() and ad_unknown_method::operator()
unfoldable pub invalid_json : Wire → Option Wire
unfolding json_error_null
invalid_json w = released (error (json_error_null (negsuc 32599) (codes "Invalid JSON-RPC.")) w)

unfoldable pub unknown_method : Wire → Option Wire
unfolding json_error_null
unknown_method w =
    released (error (json_error_null (negsuc 32600) (codes "Procedure not found.")) w)

-- The connection with its set of requests, the objects, and the queues; `Q` is the queues' type.
pub record Front (Q : Type 0) : Type 0 where
  pub store : Store
  pub requests : List ℕ
  pub queues : Q
  pub wire : Wire

abbrev pub freed : ℕ → Store → Store
freed a st = keep (λ o. not (o.0 == a)) st

-- requests.insert(req)
abbrev pub insert_request : ℕ → List ℕ → List ℕ
insert_request a requests = if listed a requests then requests else a ∷ requests

module _ {Q : Type 0} where
  -- The catch: the request is deleted, and the connection gets the error. (`none` is a read behind the
  -- buffer of the error.)
  unfoldable pub refuse : ℕ → Front Q → Option (Front Q)
  unfolding invalid_json
  refuse a f = elim (invalid_json f.wire) [
    | none ↦ none
    | some w ↦ some (record f { store = freed a f.store; wire = w })
  ]

  -- The request at the address `a` in the objects and in the set of the connection `self`.
  abbrev pub with_request : ℕ → ℕ → JsonRpcReq → Front Q → Front Q
  with_request a self req f = record f {
    store = (a, record { request = req; mtx = new_spinlock; client = some self }) ∷ f.store;
    requests = insert_request a f.requests;
  }

  -- ad_invoke_first::operator(). `parse` fills a new request, `push` puts it into the server's queues, and
  -- is false if it throws; `has_server` is `server != 0`, and `a` is the address that `new` gives.
  unfoldable pub input :
      Bool
      → (Bytes → JsonRpcReq → Option JsonRpcReq)
      → (ℕ → JsonRpcReq → Q → Bool × Q)
      → ℕ
      → ℕ
      → Bytes
      → Front Q
      → Option (Front Q)
  unfolding refuse
  input has_server parse push a self d f =
      if has_server
      then (elim (parse d new_json_rpc_req) as (λ o. Option (Front Q)) [
        | none ↦ refuse a f
        | some req ↦
            let (done, queues) = push a req f.queues in
            let held : Front Q = with_request a self req f in
            if done then some (record held { queues = queues }) else refuse a held
      ])
      else some f
