-- ===== src/Multiserver/Lifecycle/Safety.antt =====
-- common/multiserver.hpp: what the steps of a request's life keep.
use leveldb_daemon.Prelude.{
  ◌≡◌, ◌⊎◌, inl, inr, refl, Bool, true, false, not, ◌&&◌, ◌||◌, arith, if◌then◌else◌, Bool-cases,
}
use leveldb_daemon.Locks.{try_lock, unlock}
use leveldb_daemon.Multiserver.Lifecycle.{
  WorkerAt, before_pop, first_test, locking, second_test, leaving_set, dropping, unlocking,
  deleting, past, ClearAt, outside, trying, detaching, releasing, kept, taken, Shared, queued,
  in_round, Step, pop, test_client, lock, test_again, delete_request, drop_client, unlock_request,
  delete_it, begin_round, try_it, detach, release, keep_it, take_out, Reach, here, more,
}

-- Who holds the request's mutex.
abbrev worker_holds : WorkerAt → Bool
worker_holds before_pop = false
worker_holds first_test = false
worker_holds locking = false
worker_holds second_test = true
worker_holds leaving_set = true
worker_holds dropping = true
worker_holds unlocking = true
worker_holds deleting = false
worker_holds past = false

abbrev clear_holds : ClearAt → Bool
clear_holds outside = false
clear_holds trying = false
clear_holds detaching = true
clear_holds releasing = true
clear_holds kept = false
clear_holds taken = false

-- The thread has seen that there is no client, or has dropped it.
abbrev saw_none : WorkerAt → Bool
saw_none before_pop = false
saw_none first_test = false
saw_none locking = false
saw_none second_test = false
saw_none leaving_set = false
saw_none dropping = false
saw_none unlocking = true
saw_none deleting = true
saw_none past = true

abbrev is_past : WorkerAt → Bool
is_past past = true
is_past before_pop = false
is_past first_test = false
is_past locking = false
is_past second_test = false
is_past leaving_set = false
is_past dropping = false
is_past unlocking = false
is_past deleting = false

-- `clear` is behind the assignment of the client.
abbrev pub detached : ClearAt → Bool
detached outside = false
detached trying = false
detached detaching = false
detached releasing = true
detached kept = false
detached taken = true

abbrev is_dropping : WorkerAt → Bool
is_dropping dropping = true
is_dropping past = false
is_dropping before_pop = false
is_dropping first_test = false
is_dropping locking = false
is_dropping second_test = false
is_dropping leaving_set = false
is_dropping unlocking = false
is_dropping deleting = false

abbrev is_leaving : WorkerAt → Bool
is_leaving leaving_set = true
is_leaving past = false
is_leaving before_pop = false
is_leaving first_test = false
is_leaving locking = false
is_leaving second_test = false
is_leaving dropping = false
is_leaving unlocking = false
is_leaving deleting = false

record Inv (s : Shared) : Type 0 where
  pub holds : s.mtx.value ≡ (worker_holds s.worker || clear_holds s.clearing)
  pub exclusive : (worker_holds s.worker && clear_holds s.clearing) ≡ false
  pub freed : s.is_freed ≡ is_past s.worker
  pub round : (not (in_round s.clearing) || s.in_set) ≡ true
  pub gone : (s.has_client || detached s.clearing || not s.in_set) ≡ true
  pub detach_done : (not (detached s.clearing) || not s.has_client) ≡ true
  pub left : (not (is_dropping s.worker) || not s.in_set) ≡ true
  pub listed : (is_dropping s.worker || not s.has_client || s.in_set) ≡ true
  pub served :
      (not (is_leaving s.worker) || s.has_client && s.in_set && not (detached s.clearing)) ≡ true
  pub saw : (not (saw_none s.worker) || not s.has_client) ≡ true

Step-Inv : {s t : Shared} → Step s t → Inv s → Inv t
unfolding try_lock unlock
Step-Inv (pop s e) i = ground arith
Step-Inv (test_client s e) i = ground arith
Step-Inv (lock s e h) i = ground arith
Step-Inv (test_again s e) i = ground arith
Step-Inv (delete_request s e h) i = ground arith
Step-Inv (drop_client s e) i = ground arith
Step-Inv (unlock_request s e) i = ground arith
Step-Inv (delete_it s e) i = ground arith
Step-Inv (begin_round s e h) i = ground arith
Step-Inv (try_it s e) i = ground arith
Step-Inv (detach s e) i = ground arith
Step-Inv (release s e) i = ground arith
Step-Inv (keep_it s e) i = ground arith
Step-Inv (take_out s e) i = ground arith

Reach-Inv : {s : Shared} → Reach queued s → Inv s
Reach-Inv here = ground arith
Reach-Inv (more r st) = Step-Inv st (Reach-Inv r)

-- In every interleaving of the thread that takes a request and the rounds of `clear`, while the thread
-- serves the request, up to `delete_request`, the request is not deleted, has its client, is in the
-- connection's set, and is not detached by `clear`.
pub served_request :
    {s : Shared}
    → Reach queued s
    → s.worker ≡ leaving_set
    → (s.is_freed ≡ false)
      × (s.has_client ≡ true)
      × (s.in_set ≡ true)
      × (detached s.clearing ≡ false)
served_request {s} r w =
    let i = Reach-Inv r in
    (
      ground (arith, i.freed),
      ground (arith, i.served),
      ground (arith, i.served),
      ground (arith, i.served),
    )

past_only : (w : WorkerAt) → is_past w ≡ true → saw_none w ≡ true
past_only w h = ground arith

-- In every such interleaving a request that was deleted is no longer in the connection's set, or a round
-- of `clear` has detached it and has not ended.
pub freed_request :
    {s : Shared}
    → Reach queued s
    → s.is_freed ≡ true
    → (s.in_set ≡ false) ⊎ (detached s.clearing ≡ true)
freed_request {s} r f =
    let i = Reach-Inv r in
    elim (Bool-cases (detached s.clearing)) [
      | inl d ↦ inr d
      | inr d ↦ inl (ground (arith, i.freed, i.gone, i.saw, past_only s.worker))
    ]

-- A thread that tests the client of a request when `clear` has detached the request, but not unlocked
-- it yet, deletes it before `clear` does so: `clear` then unlocks a request that is deleted.
pub unlocked_after_delete :
    {s : Shared}
    → Reach queued s
    → s.worker ≡ first_test
    → s.clearing ≡ releasing
    → (t : Shared) × Reach s t × (t.is_freed ≡ true) × (t.clearing ≡ releasing)
unlocked_after_delete {s} r w c =
    let i = Reach-Inv r in
    let none : s.has_client ≡ false = ground (arith, i.detach_done) in
    let tested : Shared = record s { worker = if s.has_client then locking else deleting } in
    (
      record tested { is_freed = true; worker = past },
      more (more here (test_client s w)) (delete_it tested (ground arith)),
      refl,
      c,
    )
