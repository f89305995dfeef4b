-- ===== src/Replication/Delivery.antt =====
-- src/replication.hpp: the order in which queued updates are sent.
use leveldb_daemon.Prelude.{
  ℕ, zero, suc, ◌-◌, ◌≤◌, ◌<◌, pred, ◌≡◌, refl, ap, ap₂, sym, ◌∙◌, subst, List, [], ◌∷◌, ◌++◌,
  arith, length, take, drop, drop-append, take-drop-append-drop,
}
use mathlib.Core.List.{append_assoc, append-nil}
use leveldb_daemon.Prelude.Int.{pos, pos_part, ◌-ℤ◌}
use leveldb_daemon.Prelude.Bytes.{Bytes}
use leveldb_daemon.Db.{Leveldb}
use leveldb_daemon.Serializers.{Serializers}
use leveldb_daemon.Replication.{
  running, Client, Session, Method, dequeued, enqueue, schedule_queue, wake, sync_queue, on_confirm,
  pop_front, method_of, pipeline_size, push_queue_items,
}
use leveldb_daemon.Replication.Sending.{
  Known, or_set, calls, push_queue_items_empty, push_queue_items_lem,
}
use leveldb_daemon.Replication.Invariant.{Outstanding, Inv, InvAfter}
use leveldb_daemon.Replication.Steps.{confirm_running}
use leveldb_daemon.Replication.Safety.{
  push, wake_open, Known-pop, confirm-Inv, wake-Inv, enqueue-Inv,
}
use leveldb_daemon.Replication.Protocol.{
  Link, Step, confirm, wakes, update, Reach, here, next, new_conn, resumed, resume, Start-Inv,
}

-- The calls that were sent, and then those that the rest of the queue will turn into.
abbrev pub pending : Session → List (Method × Bytes)
pending s = s.conn.sent ++ calls (drop (pos_part s.client.queue_pipelined) s.client.queue)

pub calls-append : (p q : List (Bytes × Bytes)) → calls (p ++ q) ≡ calls p ++ calls q
calls-append [] q = refl
calls-append ((cmd, params) ∷ p) q =
    ap (λ t. (or_set (method_of cmd), params) ∷ t) (calls-append p q)

push_pending :
    (s : Session) (n : ℕ) (q : List (Bytes × Bytes))
    → s.client.queue ≡ q
    → s.client.queue_pipelined ≡ pos n
    → n ≤ length s.client.queue
    → n ≤ pipeline_size
    → Known s.client.queue
    → (pending (push_queue_items s).1 ≡ pending s)
      × ((push_queue_items s).1.client.state ≡ s.client.state)
unfolding schedule_queue
push_pending s n [] e hp fits small known =
    rw (push_queue_items_empty s e (ground (arith, ap length e))) (refl, refl)
push_pending s n (x ∷ q) e hp fits small known =
    let (b, pushed) = push_queue_items_lem s n x q e hp small fits known in
    rw pushed (
      append_assoc s.conn.sent _ _
          ∙ ap (λ t. s.conn.sent ++ t)
              (sym (calls-append (take (pipeline_size - n) (drop n s.client.queue)) _)
                ∙ ap calls (take-drop-append-drop n (pipeline_size - n) s.client.queue))
          ∙ ap (λ t. s.conn.sent ++ calls (drop (pos_part t) s.client.queue)) (sym hp),
      refl,
    )

-- A running session, with the calls that it has sent and will send.
pub record Delivers (k : ℕ) (total : List (Method × Bytes)) (s : Session) : Type 0 where
  pub inv : InvAfter k s
  pub is_running : s.client.state ≡ running
  pub due : pending s ≡ total

-- What the invariant says of a running session.
running_facts :
    (k n : ℕ) (s : Session)
    → Inv k n s
    → s.client.state ≡ running
    → (s.client.queue_pipelined ≡ pos n) × (n ≤ length s.client.queue)
running_facts k n s v e =
    let o : Outstanding running s n = subst (λ t. Outstanding t s n) e v.outstanding in (o.0, o.1)

wake-Delivers :
    (k : ℕ) (total : List (Method × Bytes)) (s : Session)
    → Delivers k total s
    → InvAfter k (wake s).1
    → Delivers k total (wake s).1
wake-Delivers k total s v after =
    let (n, i) = v.inv in
    let (p, f) = running_facts k n s i v.is_running in
    let woken : Session = record s { conn = record s.conn { scheduled = pred s.conn.scheduled } } in
    let (due, st) = push_pending woken n s.client.queue refl p f i.bounded i.known in
    record {
      inv = after;
      is_running = rw (wake_open s i.open_status) (st ∙ v.is_running);
      due = rw (wake_open s i.open_status) (due ∙ v.due);
    }

push_state : (s : Session) → (push s).1 ≡ (push_queue_items s).1
push_state s = ground arith

pending-dequeued :
    (s : Session) (n : ℕ) (x : Bytes × Bytes) (q : List (Bytes × Bytes))
    → s.client.queue ≡ x ∷ q
    → s.client.queue_pipelined ≡ pos (suc n)
    → pending (dequeued s) ≡ pending s
unfolding ◌-ℤ◌
pending-dequeued s n x q e p =
    let one_less : s.client.queue_pipelined -ℤ pos 1 ≡ pos n = ground arith in
    ap₂ (λ t u. s.conn.sent ++ calls (drop (pos_part t) u)) one_less (ap pop_front e)
    ∙ sym (ap₂ (λ t u. s.conn.sent ++ calls (drop (pos_part t) u)) p e)

module _ (L : Leveldb) (J : Serializers) (d : L.Db) where
  confirm-Delivers :
      (k n : ℕ) (q : List (Bytes × Bytes)) (total : List (Method × Bytes)) (s : Session)
      → Delivers k total s
      → Inv k (suc n) s
      → s.client.queue ≡ q
      → InvAfter (suc k) (on_confirm L J d s).1
      → Delivers (suc k) total (on_confirm L J d s).1
  confirm-Delivers k n [] total s v i e after =
      absurd (omega (arith, (running_facts k (suc n) s i v.is_running).1, ap length e))
  confirm-Delivers k n (x ∷ q) total s v i e after =
      let (p, f) = running_facts k (suc n) s i v.is_running in
      let (due, st) =
        push_pending (dequeued s) n q (ap pop_front e) (unfold ◌-ℤ◌ in ground arith)
          (omega (arith, ap (λ t. length (pop_front t)) e, ap length e)) (omega (arith, i.bounded))
          (subst Known (sym (ap pop_front e)) (Known-pop x q (subst Known e i.known))) in
      record {
        inv = after;
        is_running =
            rw (confirm_running L J d s x q v.is_running e, push_state) (st ∙ v.is_running);
        due =
            rw (confirm_running L J d s x q v.is_running e, push_state)
              (due ∙ pending-dequeued s n x q e p ∙ v.due);
      }

-- The updates that a step queues.
abbrev pub update_of :
    {L : Leveldb} {J : Serializers} {l m : Link} → Step L J l m → List (Bytes × Bytes)
update_of (confirm d l h) = []
update_of (wakes l h) = []
update_of (update l m cmd params e) = (cmd, params) ∷ []

-- The updates that a history of steps queues, oldest first.
abbrev pub updates :
    {L : Leveldb} {J : Serializers} {s l : Link} → Reach L J s l → List (Bytes × Bytes)
updates here = []
updates (next r st) = updates r ++ update_of st

abbrev pub LinkDelivers : List (Bytes × Bytes) → Link → Type 0
LinkDelivers q l = Delivers l.confirmed (calls q) l.session

module _ (L : Leveldb) (J : Serializers) where
  confirm-LinkDelivers :
      (d : L.Db) (l : Link) (q : List (Bytes × Bytes)) (n : ℕ)
      → LinkDelivers q l
      → Inv l.confirmed n l.session
      → l.confirmed < length l.session.conn.sent
      → Delivers (suc l.confirmed) (calls q) (on_confirm L J d l.session).1
  confirm-LinkDelivers d l q zero v i h = absurd (omega (arith, i.counted))
  confirm-LinkDelivers d l q (suc n) v i h =
      confirm-Delivers L J d l.confirmed n l.session.client.queue (calls q) l.session v i refl
        (confirm-Inv L J d l.confirmed n l.session i).1

  pub Step-Delivers :
      {l m : Link} (q : List (Bytes × Bytes)) (st : Step L J l m)
      → LinkDelivers q l
      → LinkDelivers (q ++ update_of st) m
  Step-Delivers q (confirm d l h) v = rw append-nil (confirm-LinkDelivers d l q v.inv.0 v v.inv.1 h)
  Step-Delivers q (wakes l h) v = rw append-nil (
      wake-Delivers l.confirmed (calls q) l.session v
        (wake-Inv l.confirmed v.inv.0 l.session v.inv.1 h).2)
  Step-Delivers q (update l m cmd params e) v =
      let (n, i) = v.inv in
      let (p, fits) = running_facts l.confirmed n l.session i v.is_running in
      let old = l.session.client.queue in
      let added : List (Bytes × Bytes) = (cmd, params) ∷ [] in
      let fits' : pos_part l.session.client.queue_pipelined ≤ length old =
        rw (ap pos_part p) fits in
      record {
        inv = (n, enqueue-Inv l.confirmed n l.session cmd params m i e);
        is_running = unfold enqueue in v.is_running;
        due =
            unfold enqueue in
            ap (λ t. l.session.conn.sent ++ t)
              (ap calls (drop-append (pos_part l.session.client.queue_pipelined) old added fits')
                ∙ calls-append (drop (pos_part l.session.client.queue_pipelined) old) added)
            ∙ sym (append_assoc l.session.conn.sent _ _)
            ∙ ap (λ t. t ++ calls added) v.due
            ∙ sym (calls-append q added);
      }

  Reach-Delivers :
      {s l : Link} (q : List (Bytes × Bytes)) (r : Reach L J s l)
      → LinkDelivers q s
      → LinkDelivers (q ++ updates r) l
  Reach-Delivers q here v = rw append-nil v
  Reach-Delivers q (next r st) v =
      rw (← append_assoc q (updates r) (update_of st))
        (Step-Delivers (q ++ updates r) st (Reach-Delivers q r v))

  pub sync_queue-pending :
      (s : Session)
      → Known s.client.queue
      → (pending (sync_queue s).1 ≡ s.conn.sent ++ calls s.client.queue)
        × ((sync_queue s).1.client.state ≡ running)
  unfolding sync_queue
  sync_queue-pending s known =
      let s' : Session = record s {
        client = record s.client { state = running; queue_pipelined = pos 0 };
      } in
      let (due, st) =
        push_pending s' 0 s.client.queue refl refl (omega arith) (omega arith) known in
      (rw push_state due, rw push_state st)

  pub resumed-Delivers : (c : Client) → Known c.queue → LinkDelivers c.queue (resumed c)
  unfolding sync_queue
  resumed-Delivers c known =
      let s : Session = record {
        client = record c { state = running; queue_pipelined = pos 0 };
        conn = new_conn;
      } in
      let (due, st) = push_pending s 0 c.queue refl refl (omega arith) (omega arith) known in
      record {
        inv = Start-Inv {L = L} {J = J} (resume c known);
        is_running = rw push_state st;
        due = rw push_state due;
      }

  -- A slave that goes on where it was (its queue may hold updates from before) is sent each update in
  -- the order of queuing, once: what was sent, and then what the rest of the queue will turn into, are
  -- at every time the calls of the updates that its queue held at the start and of those queued since.
  pub fifo_delivery :
      (c : Client) (known : Known c.queue) {l : Link}
      → (r : Reach L J (resumed c) l) → pending l.session ≡ calls (c.queue ++ updates r)
  fifo_delivery c known r = (Reach-Delivers c.queue r (resumed-Delivers c known)).due
