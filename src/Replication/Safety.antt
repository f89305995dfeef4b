-- ===== src/Replication/Safety.antt =====
-- src/replication.hpp: the methods of a client and the invariant of its session.
use leveldb_daemon.Prelude.{
  ℕ, suc, pred, ◌+◌, ◌≤◌, ◌<◌, ◌≡◌, refl, ap, sym, subst, Bool, true, inr, some, List, [], ◌∷◌,
  arith, length, length-append,
}
use leveldb_daemon.Prelude.Int.{pos, ◌-ℤ◌}
use leveldb_daemon.Prelude.Bytes.{Bytes}
use leveldb_daemon.Prelude.Exec.{ok, Exec, pure, ◌>>◌}
use leveldb_daemon.Db.{Leveldb}
use leveldb_daemon.Db.Above.{last_key}
use leveldb_daemon.Serializers.{Serializers}
use leveldb_daemon.Replication.{
  ClientState, not_ready, syncing, sync_finishing, running, Session, Method, Failure, enqueue, wake,
  sync_queue, push_queue_items, dequeued, on_confirm, set, pop_front, back, method_of,
  pipeline_size, portion,
}
use leveldb_daemon.Replication.Sending.{Known, Known-append}
use leveldb_daemon.Replication.Invariant.{
  Outstanding, Inv, InvAfter, push-Inv, Inv-copying, copying_next,
}
use leveldb_daemon.Replication.Steps.{
  confirm_copying, confirm_finishing, confirm_finished, confirm_running,
}

pub Known-pop : (x : Bytes × Bytes) (q : List (Bytes × Bytes)) → Known (x ∷ q) → Known q
Known-pop x q k = k.1

abbrev pub push : Exec Failure Session (Unit {0})
push = push_queue_items >> pure tt

-- A queue push that is run as a statement: no throw, and the invariant.
pub pushed-Inv :
    (k n : ℕ) (s : Session)
    → s.client.state ≡ running
    → s.client.queue_pipelined ≡ pos n
    → n ≤ length s.client.queue
    → n ≤ pipeline_size
    → length s.conn.sent ≡ k + n
    → Known s.client.queue
    → s.conn.open_status ≡ true
    → ((push s).0 ≡ ok tt) × InvAfter k (push s).1
pushed-Inv k n s r p f b c known o =
    let (_, e, v) = push-Inv k n s s.client.queue refl r p f b c known o in rw e (refl, v)

module _ (L : Leveldb) (J : Serializers) (d : L.Db) (k n : ℕ) (s : Session)
    (v : Inv k (suc n) s) where
  abbrev Confirmed : Type 0
  Confirmed = ((on_confirm L J d s).0 ≡ ok tt) × InvAfter (suc k) (on_confirm L J d s).1

  popped_length :
      (x : Bytes) (keys : List Bytes)
      → s.client.current_keys ≡ x ∷ keys
      → length (pop_front s.client.current_keys) ≡ length keys
  popped_length x keys c = ap (λ t. length (pop_front t)) c

  confirm-copying :
      (keys : List Bytes)
      → s.client.current_keys ≡ keys
      → s.client.state ≡ syncing
      → (length keys ≡ suc n) × (s.conn.scheduled ≡ 0)
      → Confirmed
  confirm-copying [] c e l = absurd (omega arith)
  confirm-copying (x ∷ keys) c e l = rw (confirm_copying L J d s x keys e c) (
    refl,
    (
      suc n,
      Inv-copying (suc k) (suc n) _ (copying_next _ _ e)
          (
            omega (
              arith,
              length-append (pop_front s.client.current_keys) (
                  last_key (back s.client.current_keys) (portion L d (back s.client.current_keys))
                  ∷ []),
              popped_length x keys c,
            ),
            omega arith,
            v.bounded,
            l.1,
          )
          (omega (
            arith,
            length-append s.conn.sent
                ((set, J.print_valmap2str (portion L d (back s.client.current_keys))) ∷ []),
            v.counted,
          ))
          v.known v.open_status,
    ),
  )

  confirm-finishing :
      (keys : List Bytes)
      → s.client.current_keys ≡ keys
      → s.client.state ≡ sync_finishing
      → (length keys ≡ suc n) × (s.conn.scheduled ≡ 0)
      → Confirmed
  confirm-finishing [] c e l = absurd (omega arith)
  confirm-finishing (x ∷ []) c e l = rw (confirm_finished L J d s x e c) (
      unfold sync_queue in
      pushed-Inv (suc k) 0 _ refl refl (omega arith) (omega arith) (omega (arith, v.counted))
        v.known v.open_status)
  confirm-finishing (x ∷ y ∷ keys) c e l = rw (confirm_finishing L J d s x y keys e c) (
    refl,
    (
      n,
      Inv-copying (suc k) n _ (inr e)
          (omega (arith, popped_length x (y ∷ keys) c), omega arith, omega (arith, v.bounded), l.1)
          (omega (arith, v.counted)) v.known v.open_status,
    ),
  )

  confirm-running :
      (q : List (Bytes × Bytes))
      → s.client.queue ≡ q
      → s.client.state ≡ running
      → (s.client.queue_pipelined ≡ pos (suc n)) × (suc n ≤ length s.client.queue)
      → Confirmed
  confirm-running [] c e l = absurd (omega (arith, ap length c))
  confirm-running (x ∷ q) c e l = rw (confirm_running L J d s x q e c) (
      pushed-Inv (suc k) n (dequeued s) e (unfold ◌-ℤ◌ in ground arith)
        (omega (arith, ap (λ t. length (pop_front t)) c, ap length c)) (omega (arith, v.bounded))
        (omega (arith, v.counted))
        (subst Known (sym (ap pop_front c)) (Known-pop x q (subst Known c v.known))) v.open_status)

  confirm_cases : (st : ClientState) → s.client.state ≡ st → Outstanding st s (suc n) → Confirmed
  confirm_cases not_ready e o = absurd o
  confirm_cases syncing e o = confirm-copying s.client.current_keys refl e (o.0, o.2)
  confirm_cases sync_finishing e o = confirm-finishing s.client.current_keys refl e (o.0, o.2)
  confirm_cases running e o = confirm-running s.client.queue refl e (o.0, o.1)

  -- A confirmation that was due raises nothing and keeps the invariant.
  pub confirm-Inv : Confirmed
  confirm-Inv = confirm_cases s.client.state refl v.outstanding

pub wake_open :
    (s : Session)
    → s.conn.open_status ≡ true
    → wake s
      ≡ push_queue_items (record s { conn = record s.conn { scheduled = pred s.conn.scheduled } })
unfolding wake
wake_open s e = ground arith

wake_cases :
    (k n : ℕ) (s : Session) (st : ClientState)
    → Inv k n s
    → 0 < s.conn.scheduled
    → s.client.state ≡ st
    → Outstanding st s n
    → (b : Bool) × ((wake s).0 ≡ ok b) × InvAfter k (wake s).1
wake_cases k n s not_ready v h e o = absurd o
wake_cases k n s syncing v h e o = absurd (omega (arith, o.2))
wake_cases k n s sync_finishing v h e o = absurd (omega (arith, o.2))
wake_cases k n s running v h e o = rw (wake_open s v.open_status) (
    push-Inv k n (record s { conn = record s.conn { scheduled = pred s.conn.scheduled } })
      s.client.queue refl e o.0 o.1 v.bounded v.counted v.known v.open_status)

-- A scheduled thread raises nothing when it wakes, and keeps the invariant.
pub wake-Inv :
    (k n : ℕ) (s : Session)
    → Inv k n s
    → 0 < s.conn.scheduled
    → (b : Bool) × ((wake s).0 ≡ ok b) × InvAfter k (wake s).1
wake-Inv k n s v h = wake_cases k n s s.client.state v h refl v.outstanding

enqueue_cases :
    (k n : ℕ) (s : Session) (x : Bytes × Bytes) (st : ClientState)
    → Outstanding st s n
    → Outstanding st (record s { client = enqueue x s.client }) n
unfolding enqueue
enqueue_cases k n s x not_ready o = o
enqueue_cases k n s x syncing o = o
enqueue_cases k n s x sync_finishing o = o
enqueue_cases k n s x running o =
    (o.0, omega (arith, o.1, length-append s.client.queue (x ∷ [])), o.2)

-- An update may be queued at any time.
pub enqueue-Inv :
    (k n : ℕ) (s : Session) (cmd params : Bytes) (m : Method)
    → Inv k n s
    → method_of cmd ≡ some m
    → Inv k n (record s { client = enqueue (cmd, params) s.client })
unfolding enqueue
enqueue-Inv k n s cmd params m v e = record {
  outstanding = enqueue_cases k n s (cmd, params) s.client.state v.outstanding;
  counted = v.counted;
  bounded = v.bounded;
  known = Known-append s.client.queue cmd params m v.known e;
  open_status = v.open_status;
}
