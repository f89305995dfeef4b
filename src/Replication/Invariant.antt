-- ===== src/Replication/Invariant.antt =====
-- src/replication.hpp: the pipeline of a slave's session, as an invariant of the protocol.
use leveldb_daemon.Prelude.{
  ℕ, ◌+◌, ◌-◌, ◌≤◌, ◌<◌, min, ◌≡◌, refl, ap, ◌∙◌, sym, subst, Bool, true, false, inl, inr, List, [],
  ◌∷◌, ◌⊎◌, arith, length, take, drop, length-append, length-take, length-drop, if◌then◌else◌,
  is_empty,
}
use leveldb_daemon.Prelude.Int.{pos}
use leveldb_daemon.Prelude.Bytes.{Bytes}
use leveldb_daemon.Prelude.Exec.{ok}
use leveldb_daemon.Db.Entries.{Entry}
use leveldb_daemon.Replication.{
  ClientState, not_ready, syncing, sync_finishing, running, Session, push_queue_items,
  schedule_queue, pipeline_size,
}
use leveldb_daemon.Replication.Sending.{
  Known, calls, length-calls, push_queue_items_lem, push_queue_items_empty,
}

-- What a client's state says of the `n` calls that its slave has not confirmed. While it is running
-- and nothing is on its way, a check of the queue is scheduled; while it is copying, none is.
abbrev pub Outstanding : ClientState → Session → ℕ → Type 0
Outstanding not_ready s n = ⊥
Outstanding syncing s n = (length s.client.current_keys ≡ n) × (0 < n) × (s.conn.scheduled ≡ 0)
Outstanding sync_finishing s n =
    (length s.client.current_keys ≡ n) × (0 < n) × (s.conn.scheduled ≡ 0)
Outstanding running s n =
    (s.client.queue_pipelined ≡ pos n) × (n ≤ length s.client.queue) × (0 < n + s.conn.scheduled)

-- An open session after `confirmed` answers of the slave, with `n` calls on their way.
pub record Inv (confirmed n : ℕ) (s : Session) : Type 0 where
  pub outstanding : Outstanding s.client.state s n
  pub counted : length s.conn.sent ≡ confirmed + n
  pub bounded : n ≤ pipeline_size
  pub known : Known s.client.queue
  pub open_status : s.conn.open_status ≡ true

abbrev pub InvAfter : ℕ → Session → Type 0
InvAfter confirmed s = (n : ℕ) × Inv confirmed n s

pub Inv-running :
    (k n : ℕ) (s : Session)
    → s.client.state ≡ running
    → (s.client.queue_pipelined ≡ pos n) × (n ≤ length s.client.queue) × (0 < n + s.conn.scheduled)
    → (length s.conn.sent ≡ k + n) × (n ≤ pipeline_size)
    → Known s.client.queue
    → s.conn.open_status ≡ true
    → Inv k n s
Inv-running k n s r o c known is_open = record {
  outstanding = subst (λ t. Outstanding t s n) (sym r) o;
  counted = c.0;
  bounded = c.1;
  known = known;
  open_status = is_open;
}

-- A running session keeps the invariant when the queue is pushed.
pub push-Inv :
    (k n : ℕ) (s : Session) (q : List (Bytes × Bytes))
    → s.client.queue ≡ q
    → s.client.state ≡ running
    → s.client.queue_pipelined ≡ pos n
    → n ≤ length s.client.queue
    → n ≤ pipeline_size
    → length s.conn.sent ≡ k + n
    → Known s.client.queue
    → s.conn.open_status ≡ true
    → (b : Bool) × ((push_queue_items s).0 ≡ ok b) × InvAfter k (push_queue_items s).1
unfolding schedule_queue
push-Inv k n s [] e r hp fits small count known is_open =
    let none_sent : n ≡ 0 = omega (arith, ap length e) in
    rw (push_queue_items_empty s e (ground arith)) (
      false,
      refl,
      (
        0,
        Inv-running k 0 _ r (ground arith, omega arith, omega arith) (omega arith, omega arith)
            known is_open,
      ),
    )
push-Inv k n s (x ∷ q) e r hp fits small count known is_open =
    let (b, pushed) = push_queue_items_lem s n x q e hp small fits known in
    let more = take (pipeline_size - n) (drop n s.client.queue) in
    let more_lem : length more ≡ min (pipeline_size - n) (length s.client.queue - n) =
      length-take (pipeline_size - n) (drop n s.client.queue)
      ∙ ap (min (pipeline_size - n)) (length-drop n s.client.queue) in
    let nonempty : 0 < length s.client.queue = omega (arith, ap length e) in
    rw pushed (
      b,
      refl,
      (
        n + length more,
        Inv-running k (n + length more) _ r (refl, omega arith, omega arith)
            (omega (arith, length-append s.conn.sent (calls more), length-calls more), omega arith)
            known is_open,
      ),
    )

-- A waiting session: its state tells that it is copying, and its keys count the calls on their way.
pub Inv-copying :
    (k n : ℕ) (s : Session)
    → (s.client.state ≡ syncing) ⊎ (s.client.state ≡ sync_finishing)
    → (length s.client.current_keys ≡ n) × (0 < n) × (n ≤ pipeline_size) × (s.conn.scheduled ≡ 0)
    → length s.conn.sent ≡ k + n
    → Known s.client.queue
    → s.conn.open_status ≡ true
    → Inv k n s
Inv-copying k n s (inl e) l c known is_open = record {
  outstanding = subst (λ t. Outstanding t s n) (sym e) (l.0, l.1, l.3);
  counted = c;
  bounded = l.2;
  known = known;
  open_status = is_open;
}
Inv-copying k n s (inr e) l c known is_open = record {
  outstanding = subst (λ t. Outstanding t s n) (sym e) (l.0, l.1, l.3);
  counted = c;
  bounded = l.2;
  known = known;
  open_status = is_open;
}

pub copying_next :
    (st : ClientState) (found : List Entry)
    → st ≡ syncing
    → ((if is_empty found then sync_finishing else st) ≡ syncing)
      ⊎ ((if is_empty found then sync_finishing else st) ≡ sync_finishing)
copying_next st [] e = inr refl
copying_next st (x ∷ found) e = inl e
