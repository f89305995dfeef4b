-- ===== src/Multiserver/Connection.antt =====
-- common/multiserver.hpp: a connection's set of requests (`ad_invoke_first`), and what is done to a request
-- object, without interleaving. A request is known by its address; the objects are in a store.
pub mod Clearing
use leveldb_daemon.Prelude.{
  ℕ, zero, suc, ◌+◌, ◌≡◌, refl, ap, sym, ◌∙◌, Bool, true, false, not, Option, none, some, List, [],
  ◌∷◌, ◌++◌, arith, if◌then◌else◌, is_empty, ◌==◌, keep, Option-cases, Bool-cases, inl, inr, ◌⊎◌,
}
use leveldb_daemon.Prelude.Bytes.{Bytes}
use leveldb_daemon.Locks.{Spinlock, new_spinlock, try_lock, unlock}
use leveldb_daemon.Multiserver.{JsonRpcReq, push_queue}

-- The members of a `json_rpc_req` that the connection and the thread share; `client` is the address of
-- the connection.
pub record Object : Type 0 where
  pub request : JsonRpcReq
  pub mtx : Spinlock
  pub client : Option ℕ

-- The objects that were allocated and not deleted.
abbrev pub Store : Type 0
Store = List (ℕ × Object)

abbrev pub at_address : ℕ → Store → Option Object
at_address a [] = none
at_address a ((b, o) ∷ st) = if b == a then some o else at_address a st

abbrev pub update : ℕ → Object → Store → Store
update a o [] = []
update a o ((b, p) ∷ st) =
    let rest = update a o st in if b == a then (b, o) ∷ rest else (b, p) ∷ rest

abbrev pub listed : ℕ → List ℕ → Bool
listed a [] = false
listed a (b ∷ bs) = if b == a then true else listed a bs

abbrev pub without : ℕ → List ℕ → List ℕ
without a bs = keep (λ b. not (b == a)) bs

-- ad_invoke_first::delete_request
unfoldable pub delete_request : ℕ → List ℕ → Bool × List ℕ
delete_request a requests =
    if listed a requests then (true, without a requests) else (false, requests)

-- json_rpc_req::clean, with the set of the client's connection
unfoldable pub clean : ℕ → Object → Bool → List ℕ → Object × List ℕ
unfolding delete_request
clean a o locked requests =
    let dropped : Object = record o { client = none } in
    let left : List ℕ = elim o.client [
      | none ↦ requests
      | some c ↦ (delete_request a requests).1
    ] in
    (if locked then record dropped { mtx = unlock o.mtx } else dropped, left)

-- One request in a round of `clear`: whether it is kept, and the objects then. (An address with no object
-- would be followed all the same; nothing is done here.)
unfoldable pub clear_one : ℕ → Store → Bool × Store
clear_one a st = elim (at_address a st) [
  | none ↦ (false, st)
  | some o ↦
      let (taken, mtx) = try_lock o.mtx in
      if taken
      then (false, update a (record o { mtx = unlock mtx; client = none }) st)
      else (true, update a (record o { mtx = mtx }) st)
]

-- A round of `clear`; the list is the set in the order of the iteration, from its last element.
unfoldable pub clear_round : List ℕ → Store → List ℕ × Store
unfolding clear_one
clear_round [] st = ([], st)
clear_round (a ∷ requests) st =
    let (kept, st₁) = clear_one a st in
    let (rest, st₂) = clear_round requests st₁ in (if kept then a ∷ rest else rest, st₂)

-- ad_invoke_first::clear: three rounds, unless the set is empty.
unfoldable pub clear_rounds : ℕ → List ℕ → Store → List ℕ × Store
unfolding clear_round
clear_rounds zero requests st = (requests, st)
clear_rounds (suc n) requests st =
    let (rest, st₁) = clear_round requests st in
    let later = clear_rounds n rest st₁ in if is_empty rest then (rest, st₁) else later

abbrev pub clear : List ℕ → Store → List ℕ × Store
clear = clear_rounds 3
