-- ===== src/Multiserver/Input/Alive.antt =====
-- common/multiserver.hpp: the set of a connection's requests after `ad_invoke_first::operator()`.
use leveldb_daemon.Prelude.{
  ℕ, ◌≡◌, refl, Bool, true, false, ◌&&◌, Option, none, some, List, [], ◌∷◌, ◌++◌, ==_iff, arith,
  Option-cases, inl, inr,
}
use leveldb_daemon.Prelude.Bytes.{Bytes, codes}
use leveldb_daemon.Locks.{new_spinlock}
use leveldb_daemon.Multiserver.{JsonRpcReq, new_json_rpc_req}
use leveldb_daemon.Multiserver.Connection.{Object, Store, at_address, listed}
use leveldb_daemon.Multiserver.Input.{
  Wire, Front, freed, insert_request, with_request, refuse, input, invalid_json, json_error_null,
  printed, print_int,
}
use leveldb_daemon.Status.{decimal, digits}

abbrev pub is_object : Option Object → Bool
is_object none = false
is_object (some o) = true

-- Each request of a list has an object.
abbrev pub all_alive : List ℕ → Store → Bool
all_alive [] st = true
all_alive (a ∷ requests) st = is_object (at_address a st) && all_alive requests st

-- The text of the answer to a text that is no request.
abbrev pub invalid_text : Bytes
invalid_text =
    codes
      "{\"jsonrpc\": \"2.0\", \"error\": {\"code\": -32600, \"message\": \"Invalid JSON-RPC..\"}, \"id\": null}"

invalid_json_lem :
    (w : Wire)
    → invalid_json w ≡ some (record w { written = w.written ++ invalid_text; is_released = true })
unfolding invalid_json json_error_null printed print_int decimal digits
invalid_json_lem w = refl

freed_absent : (a : ℕ) (st : Store) → at_address a (freed a st) ≡ none
freed_absent a [] = refl
freed_absent a ((b, o) ∷ st) = ground (arith, freed_absent a st)

freed_same : (a : ℕ) (st : Store) → at_address a st ≡ none → freed a st ≡ st
freed_same a [] h = refl
freed_same a ((b, o) ∷ st) h = ground (arith, freed_same a st)

all_alive-cons :
    (a : ℕ) (o : Object) (requests : List ℕ) (st : Store)
    → all_alive requests st ≡ true
    → all_alive requests ((a, o) ∷ st) ≡ true
all_alive-cons a o [] st h = refl
all_alive-cons a o (b ∷ requests) st h = ground (arith, all_alive-cons a o requests st)

all_alive-insert :
    (a : ℕ) (o : Object) (requests : List ℕ) (st : Store)
    → all_alive requests st ≡ true
    → all_alive (insert_request a requests) ((a, o) ∷ st) ≡ true
all_alive-insert a o requests st h = ground (arith, all_alive-cons a o requests st, ==_iff a a)

listed-insert : (a : ℕ) (requests : List ℕ) → listed a (insert_request a requests) ≡ true
listed-insert a requests = ground (arith, ==_iff a a)

module _ {Q : Type 0} (parse : Bytes → JsonRpcReq → Option JsonRpcReq)
    (push : ℕ → JsonRpcReq → Q → Bool × Q) where
  -- A text that is no request is answered with the error, the connection is told to close, and the set, the
  -- objects and the queues are as before, where `new` gives an address that is not in use.
  pub input_refused :
      (a self : ℕ) (d : Bytes) (f : Front Q)
      → parse d new_json_rpc_req ≡ none
      → at_address a f.store ≡ none
      → input true parse push a self d f
        ≡ some (record f {
          wire = record f.wire { written = f.wire.written ++ invalid_text; is_released = true };
        })
  unfolding input refuse
  input_refused a self d f p h = ground (arith, p, invalid_json_lem f.wire, freed_same a f.store h)

  -- If each request of the connection's set has an object, this holds after a text was read, too: whether or
  -- not there is a server and the text is a request; where `new` gives an address that is not in use, and the
  -- push throws nothing.
  pub input-all_alive :
      (has_server : Bool) (a self : ℕ) (d : Bytes) (f : Front Q)
      → all_alive f.requests f.store ≡ true
      → at_address a f.store ≡ none
      → ((req : JsonRpcReq) → (push a req f.queues).0 ≡ true)
      → (g : Front Q) × (input has_server parse push a self d f ≡ some g)
        × (all_alive g.requests g.store ≡ true)
  unfolding input refuse
  input-all_alive false a self d f i h k = (f, refl, i)
  input-all_alive true a self d f i h k = elim (Option-cases (parse d new_json_rpc_req)) [
    | inl p ↦ (
      record f {
        wire = record f.wire { written = f.wire.written ++ invalid_text; is_released = true };
      },
      input_refused a self d f p h,
      i,
    )
    | inr (req, p) ↦ (
      record (with_request a self req f) { queues = (push a req f.queues).1 },
      ground (arith, p, k req),
      all_alive-insert a (record { request = req; mtx = new_spinlock; client = some self })
          f.requests f.store i,
    )
  ]

  -- If the push of a request throws, the request is deleted, and its address stays in the connection's set.
  input_dangling :
      (a self : ℕ) (d : Bytes) (req : JsonRpcReq) (f : Front Q)
      → parse d new_json_rpc_req ≡ some req
      → (push a req f.queues).0 ≡ false
      → (g : Front Q) × (input true parse push a self d f ≡ some g)
        × (listed a g.requests ≡ true)
        × (at_address a g.store ≡ none)
  unfolding input refuse
  input_dangling a self d req f p t =
      let held : Front Q = with_request a self req f in
      (
        record held {
          store = freed a held.store;
          wire = record f.wire { written = f.wire.written ++ invalid_text; is_released = true };
        },
        ground (arith, p, t, invalid_json_lem f.wire),
        listed-insert a f.requests,
        freed_absent a held.store,
      )
