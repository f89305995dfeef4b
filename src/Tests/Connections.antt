-- ===== src/Tests/Connections.antt =====
-- One request between its connection and a thread, and a connection that is closed.
use leveldb_daemon.Prelude.{
  ℕ, Bool, Option, List, ◌++◌, ◌≡◌, refl, true, false, none, some, [], ◌∷◌,
}
use leveldb_daemon.Prelude.Bytes.{Bytes, codes}
use leveldb_daemon.Locks.{new_spinlock, try_lock, exchange}
use leveldb_daemon.Multiserver.{JsonRpcReq, new_json_rpc_req}
use leveldb_daemon.Multiserver.Lifecycle.{
  Shared, first_test, leaving_set, releasing, queued, Reach, here, more, pop, test_client, lock,
  test_again, begin_round, try_it, detach,
}
use leveldb_daemon.Multiserver.Lifecycle.Safety.{detached, served_request, unlocked_after_delete}
use leveldb_daemon.Multiserver.Connection.{Object, Store, at_address, clear}
use leveldb_daemon.Multiserver.Input.{Front, input}
use leveldb_daemon.Multiserver.Input.Alive.{all_alive, input-all_alive}
use leveldb_daemon.Multiserver.Connection.Clearing.{clear_lem}

abbrev served : Shared
served = record queued { mtx = (try_lock new_spinlock).1; worker = leaving_set }

served-Reach : Reach queued served
unfolding try_lock exchange
served-Reach =
    more (more (more (more here (pop _ refl)) (test_client _ refl)) (lock _ refl refl))
      (test_again _ refl)

served_request_example :
    (served.is_freed ≡ false)
    × (served.has_client ≡ true)
    × (served.in_set ≡ true)
    × (detached served.clearing ≡ false)
served_request_example = served_request served-Reach refl

abbrev releasing_it : Shared
releasing_it = record queued {
  mtx = (try_lock new_spinlock).1;
  has_client = false;
  worker = first_test;
  clearing = releasing;
}

releasing_it-Reach : Reach queued releasing_it
unfolding try_lock exchange
releasing_it-Reach =
    more (more (more (more here (pop _ refl)) (begin_round _ refl refl)) (try_it _ refl))
      (detach _ refl)

unlocked_after_delete_example :
    (t : Shared) × Reach releasing_it t × (t.is_freed ≡ true) × (t.clearing ≡ releasing)
unlocked_after_delete_example = unlocked_after_delete releasing_it-Reach refl refl

-- Two requests of one connection: a thread holds the second one.
abbrev free : Object
free = record { request = new_json_rpc_req; mtx = new_spinlock; client = some 7 }

abbrev in_hand : Object
in_hand = record free { mtx = (try_lock new_spinlock).1 }

abbrev objects : Store
objects = (1, free) ∷ (2, in_hand) ∷ []

clear_lem_example :
    ((clear (1 ∷ 2 ∷ []) objects).0 ≡ 2 ∷ [])
    × (at_address 1 (clear (1 ∷ 2 ∷ []) objects).1 ≡ some (record free { client = none }))
unfolding try_lock exchange
clear_lem_example = clear_lem (1 ∷ 2 ∷ []) objects 1

-- A request's text is its method here; the empty one is no request.
abbrev named : Bytes → JsonRpcReq → Option JsonRpcReq
named [] req = none
named (c ∷ d) req = some (record req { method = c ∷ d })

abbrev pushed : ℕ → JsonRpcReq → List ℕ → Bool × List ℕ
pushed a req queue = (true, queue ++ a ∷ [])

abbrev full : ℕ → JsonRpcReq → List ℕ → Bool × List ℕ
full a req queue = (false, queue)

abbrev connected : Front (List ℕ)
connected = record {
  store = objects;
  requests = 1 ∷ 2 ∷ [];
  queues = 1 ∷ [];
  wire = record { written = []; is_released = false; is_open = true };
}

input-all_alive_example :
    (g : Front (List ℕ)) × (input true named pushed 3 7 (codes "get") connected ≡ some g)
    × (all_alive g.requests g.store ≡ true)
input-all_alive_example =
    input-all_alive named pushed true 3 7 (codes "get") connected refl refl (λ req. refl)
