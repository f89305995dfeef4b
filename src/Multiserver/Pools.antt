-- ===== src/Multiserver/Pools.antt =====
-- common/multiserver.hpp: how requests and threads are divided among the pools.
use leveldb_daemon.Prelude.{
  ℕ, ◌+◌, ◌≡◌, ◌≤◌, Bool, true, false, ◌||◌, some, List, [], ◌∷◌, ◌++◌, if◌then◌else◌, arith, zero,
  suc, ◌-◌, length, refl, length-append,
}
use leveldb_daemon.Prelude.Bytes.{Bytes, codes, beq, beq_comm}
use leveldb_daemon.Assoc.{find}
use leveldb_daemon.Multiserver.{
  JsonRpcReq, method2thread, get_thread_number, push_at, push_queue, init_threads, next_time, times,
  Thread, accepting, serving, repeated, pool_threads, spawn_threads, start,
}

-- The methods that the second pool serves.
abbrev pub is_writer : Bytes → Bool
is_writer m =
    beq m (codes "set")
    || beq m (codes "set_range")
    || beq m (codes "inc_add")
    || beq m (codes "inc")
    || beq m (codes "update_packed")

-- With the pools of the daemon a request is put at the end of the second queue if its method is one of
-- `set`, `set_range`, `inc_add`, `inc` and `update_packed`, and at the end of the first otherwise; no
-- access is out of range, and the other queue stays as it is.
push_queue_lem :
    (req : JsonRpcReq) (reads writes : List JsonRpcReq)
    → push_queue method2thread req (reads ∷ writes ∷ [])
      ≡ some (
          if is_writer req.method
          then reads ∷ (writes ++ req ∷ []) ∷ []
          else (reads ++ req ∷ []) ∷ writes ∷ [])
unfolding push_queue get_thread_number push_at find
push_queue_lem req reads writes = ground (
  arith,
  beq_comm req.method (codes "set"),
  beq_comm req.method (codes "set_range"),
  beq_comm req.method (codes "inc_add"),
  beq_comm req.method (codes "inc"),
  beq_comm req.method (codes "update_packed"),
)

-- Each of the three groups of threads has at least one; from 3 threads on they are as many as were
-- asked for, and the two pools differ by at most one thread.
init_threads_lem :
    (threads : ℕ)
    → 3 ≤ threads
    → let (n0, n1, n2) = init_threads threads in
      (1 ≤ n0) × (1 ≤ n1) × (n1 ≤ n2) × (n2 ≤ n1 + 1) × (n0 + n1 + n2 ≡ threads)
unfolding init_threads
init_threads_lem threads h = (ground arith, ground arith, ground arith, ground arith, ground arith)

length-repeated : (n : ℕ) (t : Thread) → length (repeated n t) ≡ n
length-repeated zero t = refl
length-repeated (suc n) t = omega (arith, length-repeated n t)

-- From 3 threads on `start`, with the numbers that `init` sets, fails no assertion, makes an empty queue for
-- each of the two pools, and starts as many threads as were asked for, less the one that calls it.
start-init_threads :
    (threads : ℕ)
    → 3 ≤ threads
    → let (n0, n1, n2) = init_threads threads in
      (started : List Thread) × (start n0 (n2 ∷ n1 ∷ []) ≡ some ([] ∷ [] ∷ [], started))
      × (length started + 1 ≡ threads)
unfolding start spawn_threads
start-init_threads threads h =
    let (n0, n1, n2) = init_threads threads in
    let (a, b, c, d, e) = init_threads_lem threads h in
    (
      repeated (n0 - 1) accepting ++ pool_threads 0 (n2 ∷ n1 ∷ []),
      ground (arith, a),
      omega (
        arith,
        a,
        e,
        length-append {0} (repeated (n0 - 1) accepting) (pool_threads 0 (n2 ∷ n1 ∷ [])),
        length-append {0} (repeated n2 (serving 0)) (pool_threads 1 (n1 ∷ [])),
        length-append {0} (repeated n1 (serving 1)) [],
        length-repeated (n0 - 1) accepting,
        length-repeated n2 (serving 0),
        length-repeated n1 (serving 1),
      ),
    )

next_time_bounded :
    (found : Bool) (time : ℕ)
    → (1 ≤ time) × (time ≤ 2008)
    → (1 ≤ next_time found time) × (next_time found time ≤ 2008)
unfolding next_time
next_time_bounded true time h = (ground (arith, h), ground (arith, h))
next_time_bounded false time h = (ground (arith, h), ground (arith, h))

-- A waiting time that is between 1 and 2008 microseconds, as the first one of 1 is, stays between them
-- whatever the rounds find in the queue.
times_bounded :
    (rounds : List Bool) (time : ℕ)
    → (1 ≤ time) × (time ≤ 2008)
    → (1 ≤ times rounds time) × (times rounds time ≤ 2008)
unfolding times
times_bounded [] time h = h
times_bounded (found ∷ rounds) time h =
    times_bounded rounds (next_time found time) (next_time_bounded found time h)
