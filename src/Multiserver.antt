-- ===== src/Multiserver.antt =====
-- common/multiserver.hpp and common/multiserver_hlp.hpp: the requests are queued for a pool of threads by
-- their methods, and a thread of the pool finds the method by its number. The pools are set up in
-- `server_tcp::init` of src/daemon.cpp. Tables of methods are far below 2^31 entries, so that their
-- numbers are not wrapped.
pub mod Dispatch
pub mod Pools
pub mod Invoke
pub mod Lifecycle
pub mod Connection
pub mod Input
use leveldb_daemon.Prelude.{
  ℕ, zero, suc, ◌+◌, ◌-◌, ◌*◌, ◌/◌, Bool, true, false, Option, none, some, List, [], ◌∷◌, ◌++◌, ltb,
  leb, is_empty, if◌then◌else◌, map, not, ◌&&◌,
}
use leveldb_daemon.Prelude.Int.{ℤ, pos, negsuc, ◌-ℤ◌, leb_ℤ, wrap, i32_half}
use leveldb_daemon.Prelude.Bytes.{Bytes, codes}
use leveldb_daemon.Assoc.{find, assign}

-- struct json_rpc_req, without its lock and its client
pub record JsonRpcReq : Type 0 where
  pub method : Bytes
  pub id : ℤ
  pub params : Bytes
  pub result : Bytes

-- json_rpc_req::json_rpc_req
abbrev pub new_json_rpc_req : JsonRpcReq
new_json_rpc_req = record { method = []; id = negsuc 0; params = []; result = [] }

-- std::max on int
abbrev pub max_ℕ : ℕ → ℕ → ℕ
max_ℕ a b = if ltb a b then b else a

-- What a thread does with a request, for a type `M` of methods.
pub data Outcome (M : Type 0) : Type 0 where
  unknown_method : Bytes → Outcome M
  invoke_request : M → ℤ → Bytes → Outcome M
  invoke_notify : M → Bytes → Outcome M
  call_not_supported : M → Outcome M
  lost_result : Bytes → Outcome M

module _ {M : Type 0} (name : M → Bytes) (has_id : M → ℤ → Bool) where
  -- hlp::fill_map
  unfoldable pub fill_map : List M → ℕ → List (Bytes × ℕ) → List (Bytes × ℕ)
  fill_map [] v map = map
  fill_map (x ∷ xs) v map = fill_map xs (v + 1) (assign (name x) v map)

  -- multiserver::get_method_number
  unfoldable pub get_method_number : List M → Bytes → ℤ
  unfolding fill_map
  get_method_number methods m = elim (find m (fill_map methods 0 [])) [
    | none ↦ negsuc 0
    | some v ↦ pos v
  ]

  -- hlp::run_method_request; the requester takes the id as an `int`
  unfoldable pub run_method_request : ℤ → List M → JsonRpcReq → Outcome M
  run_method_request num [] req = unknown_method req.params
  run_method_request (pos zero) (x ∷ xs) req =
      if leb_ℤ (pos 0) req.id
      then invoke_request x (wrap i32_half req.id) req.params
      else invoke_notify x req.params
  run_method_request (pos (suc n)) (x ∷ xs) req = run_method_request (pos n) xs req
  run_method_request (negsuc n) (x ∷ xs) req = run_method_request (negsuc (suc n)) xs req

  -- hlp::run_method_call
  unfoldable pub run_method_call : List M → JsonRpcReq → Outcome M
  run_method_call [] req = lost_result req.params
  run_method_call (x ∷ xs) req =
      let rest = run_method_call xs req in if has_id x req.id then call_not_supported x else rest

  -- What `threadproc` runs for a request whose client is there.
  unfoldable pub serve : List M → JsonRpcReq → Outcome M
  unfolding get_method_number run_method_request run_method_call
  serve methods req =
      if is_empty req.result
      then (let method_id =
            if is_empty req.method then negsuc 0 else get_method_number methods req.method in
          run_method_request method_id methods req)
      else run_method_call methods req

-- server_tcp::init: the pools of the methods.
abbrev pub method2thread : List (Bytes × ℕ)
method2thread =
    (codes "set", 1)
    ∷ (codes "set_range", 1)
    ∷ (codes "inc_add", 1)
    ∷ (codes "inc", 1)
    ∷ (codes "update_packed", 1)
    ∷ []

-- multiserver::get_thread_number
unfoldable pub get_thread_number : List (Bytes × ℕ) → Bytes → ℕ
get_thread_number pools m = elim (find m pools) [ none ↦ 0 | some n ↦ n ]

-- queues[num].push(req); `none` is an access out of range
unfoldable pub push_at : ℕ → JsonRpcReq → List (List JsonRpcReq) → Option (List (List JsonRpcReq))
push_at num req [] = none
push_at zero req (q ∷ qs) = some ((q ++ req ∷ []) ∷ qs)
push_at (suc n) req (q ∷ qs) =
    let rest = push_at n req qs in elim rest [ none ↦ none | some qs' ↦ some (q ∷ qs') ]

-- multiserver::push_queue
unfoldable pub push_queue :
    List (Bytes × ℕ) → JsonRpcReq → List (List JsonRpcReq) → Option (List (List JsonRpcReq))
unfolding get_thread_number push_at
push_queue pools req queues = push_at (get_thread_number pools req.method) req queues

-- server_tcp::init: the numbers of the threads `n0`, `n1` and `n2`. `max(1, ...)` makes the same of a
-- negative difference and of 0.
unfoldable pub init_threads : ℕ → ℕ × ℕ × ℕ
init_threads threads =
    let n0 = if leb 8 threads then 2 else 1 in
    let n1 = max_ℕ 1 ((threads - n0) / 2) in let n2 = max_ℕ 1 (threads - n0 - n1) in (n0, n1, n2)

-- A thread that `spawn_threads` starts: one more that accepts connections, or one of a pool.
pub data Thread : Type 0 where
  accepting : Thread
  serving : ℕ → Thread

abbrev pub repeated {ℓ} : {A : Type ℓ} → ℕ → A → List A
repeated zero x = []
repeated (suc n) x = x ∷ repeated n x

abbrev pub pool_threads : ℕ → List ℕ → List Thread
pool_threads num [] = []
pool_threads num (count ∷ counts) = repeated count (serving num) ++ pool_threads (suc num) counts

-- multiserver::spawn_threads: the queues, and the threads in the order of their start
unfoldable pub spawn_threads : ℕ → List ℕ → List (List JsonRpcReq) × List Thread
spawn_threads srvmain_threads counts =
    (map (λ n. []) counts, repeated (srvmain_threads - 1) accepting ++ pool_threads 0 counts)

-- multiserver::start; `none` is a failed assertion
unfoldable pub start : ℕ → List ℕ → Option (List (List JsonRpcReq) × List Thread)
unfolding spawn_threads
start srvmain_threads counts =
    if ltb 0 srvmain_threads && not (is_empty counts)
    then some (spawn_threads srvmain_threads counts)
    else none

-- The waiting time in `threadproc`, after a round that found a request or not.
unfoldable pub next_time : Bool → ℕ → ℕ
next_time false time = if ltb time 1000 then time * 2 + 10 else time
next_time true time = max_ℕ 1 (time / 3)

unfoldable pub times : List Bool → ℕ → ℕ
unfolding next_time
times [] time = time
times (found ∷ rounds) time = times rounds (next_time found time)
