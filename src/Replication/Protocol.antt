-- ===== src/Replication/Protocol.antt =====
-- src/replication.hpp: the protocol between a master and one slave as a step relation.
use leveldb_daemon.Prelude.{
  ℕ, zero, suc, ◌+◌, ◌≤◌, ◌<◌, ◌≡◌, refl, sym, subst, Bool, true, inl, inr, some, [], ◌∷◌, ◌⊎◌,
  arith, length, length-append,
}
use leveldb_daemon.Prelude.Int.{pos}
use leveldb_daemon.Prelude.Bytes.{Bytes}
use leveldb_daemon.Prelude.Exec.{ok}
use leveldb_daemon.Db.{Leveldb}
use leveldb_daemon.Db.Above.{last_key}
use leveldb_daemon.Serializers.{Serializers}
use leveldb_daemon.Replication.{
  ClientState, not_ready, syncing, sync_finishing, running, Client, new_client, Conn, Session,
  Method, set, enqueue, wake, sync_queue, push_portions, sync_initial, on_confirm, method_of,
  pipeline_size, portion,
}
use leveldb_daemon.Replication.Sending.{Known}
use leveldb_daemon.Replication.Invariant.{Outstanding, Inv, InvAfter, Inv-copying}
use leveldb_daemon.Replication.Steps.{after_portion, push_next_portion_lem}
use leveldb_daemon.Replication.Safety.{confirm-Inv, wake-Inv, enqueue-Inv, pushed-Inv}

-- A session and how many answers its slave has sent.
pub record Link : Type 0 where
  pub session : Session
  pub confirmed : ℕ

-- A connection that was just opened.
abbrev pub new_conn : Conn
new_conn = record { sent = []; scheduled = 0; open_status = true }

abbrev pub new_session : Bytes → Session
new_session id = record { client = new_client id; conn = new_conn }

-- `t` has `n` calls and remembered keys more than `s`, and the rest that counts is the same.
pub record Grown (n : ℕ) (s t : Session) : Type 0 where
  pub keys : length t.client.current_keys ≡ length s.client.current_keys + n
  pub calls : length t.conn.sent ≡ length s.conn.sent + n
  pub queue : t.client.queue ≡ s.client.queue
  pub scheduled : t.conn.scheduled ≡ s.conn.scheduled
  pub open_status : t.conn.open_status ≡ s.conn.open_status

module _ (L : Leveldb) (J : Serializers) (d : L.Db) where
  pub push_portions-Grown :
      (n : ℕ) (key : Bytes) (s : Session)
      → ((push_portions L J n d key s).0 ≡ ok tt) × Grown n s (push_portions L J n d key s).1
  unfolding push_portions
  push_portions-Grown zero key s = (
    refl,
    record {
      keys = omega arith;
      calls = omega arith;
      queue = refl;
      scheduled = refl;
      open_status = refl;
    },
  )
  push_portions-Grown (suc n) key s =
      let found = portion L d key in
      let s' : Session = after_portion J.print_valmap2str found key s in
      let (returned, grown) = push_portions-Grown n (last_key key found) s' in
      rw (push_next_portion_lem L J d key s) (
        returned,
        record {
          keys =
              omega
                (arith, grown.keys, length-append s.client.current_keys (last_key key found ∷ []));
          calls = omega (
            arith,
            grown.calls,
            length-append s.conn.sent ((set, J.print_valmap2str found) ∷ []),
          );
          queue = grown.queue;
          scheduled = grown.scheduled;
          open_status = grown.open_status;
        },
      )

  -- A session that starts to copy has the whole pipeline on its way.
  pub sync_initial-Inv :
      (id : Bytes)
      → ((sync_initial L J d (new_session id)).0 ≡ ok tt)
        × Inv 0 pipeline_size (sync_initial L J d (new_session id)).1
  unfolding sync_initial
  sync_initial-Inv id =
      let (returned, grown) = push_portions-Grown pipeline_size [] (new_session id) in
      rw returned (
        refl,
        Inv-copying 0 pipeline_size _ (inl refl)
            (grown.keys, omega arith, omega arith, grown.scheduled) grown.calls
            (subst Known (sym grown.queue) tt) grown.open_status,
      )

-- A slave connects again and goes on from the queue that the master kept for it.
abbrev pub resumed : Client → Link
resumed c = record {
  session = (sync_queue (record { client = c; conn = new_conn })).1;
  confirmed = 0;
}

-- The session of a slave that connects and is to be filled, or to go on where it was.
pub data Start (L : Leveldb) (J : Serializers) : Link → Type 0 where
  fill :
      (d : L.Db) (id : Bytes)
      → Start L J (record { session = (sync_initial L J d (new_session id)).1; confirmed = 0 })
  resume : (c : Client) → Known c.queue → Start L J (resumed c)

-- The slave confirms a call that it was sent, a scheduled thread wakes, or an update is queued. The
-- contents of the database may be others at each step.
pub data Step (L : Leveldb) (J : Serializers) : Link → Link → Type 0 where
  confirm :
      (d : L.Db) (l : Link)
      → l.confirmed < length l.session.conn.sent
      → Step L J l
          (record { session = (on_confirm L J d l.session).1; confirmed = suc l.confirmed })
  wakes :
      (l : Link)
      → 0 < l.session.conn.scheduled
      → Step L J l (record l { session = (wake l.session).1 })
  update :
      (l : Link) (m : Method) (cmd params : Bytes)
      → method_of cmd ≡ some m
      → Step L J l (record l {
        session = record l.session { client = enqueue (cmd, params) l.session.client };
      })

pub data Reach (L : Leveldb) (J : Serializers) (s : Link) : Link → Type 0 where
  here : Reach L J s s
  next : {t u : Link} → Reach L J s t → Step L J t u → Reach L J s u

abbrev pub LinkInv : Link → Type 0
LinkInv l = InvAfter l.confirmed l.session

pub Start-Inv : {L : Leveldb} {J : Serializers} {l : Link} → Start L J l → LinkInv l
Start-Inv {L} {J} (fill d id) = (pipeline_size, (sync_initial-Inv L J d id).1)
Start-Inv (resume c known) =
    unfold sync_queue in
    (pushed-Inv 0 0
      (record { client = record c { state = running; queue_pipelined = pos 0 }; conn = new_conn })
      refl refl (omega arith) (omega arith) refl known refl).1

module _ (L : Leveldb) (J : Serializers) where
  confirm-LinkInv :
      (d : L.Db) (l : Link)
      → LinkInv l
      → l.confirmed < length l.session.conn.sent
      → ((on_confirm L J d l.session).0 ≡ ok tt)
        × InvAfter (suc l.confirmed) (on_confirm L J d l.session).1
  confirm-LinkInv d l (zero, v) h = absurd (omega (arith, v.counted))
  confirm-LinkInv d l (suc n, v) h = confirm-Inv L J d l.confirmed n l.session v

  Step-Inv : {l m : Link} → Step L J l m → LinkInv l → LinkInv m
  Step-Inv (confirm d l h) v = (confirm-LinkInv d l v h).1
  Step-Inv (wakes l h) (n, v) = (wake-Inv l.confirmed n l.session v h).2
  Step-Inv (update l m cmd params e) (n, v) =
      (n, enqueue-Inv l.confirmed n l.session cmd params m v e)

  Reach-Inv : {l m : Link} → LinkInv l → Reach L J l m → LinkInv m
  Reach-Inv v here = v
  Reach-Inv v (next r st) = Step-Inv st (Reach-Inv v r)

module _ (L : Leveldb) (J : Serializers) {s l : Link} (start : Start L J s)
    (r : Reach L J s l) where
  -- In a session that the protocol reaches from a start, whatever the database holds then, the
  -- confirmation of a call that was sent and not yet confirmed throws nothing.
  pub confirm_never_throws :
      (d : L.Db) → l.confirmed < length l.session.conn.sent → (on_confirm L J d l.session).0 ≡ ok tt
  confirm_never_throws d h = (confirm-LinkInv L J d l (Reach-Inv L J (Start-Inv start) r) h).0

  -- In a session that the protocol reaches from a start, a scheduled thread that wakes throws nothing.
  wake_never_throws : 0 < l.session.conn.scheduled → (b : Bool) × ((wake l.session).0 ≡ ok b)
  wake_never_throws h =
      let (n, v) = Reach-Inv L J (Start-Inv start) r in
      let (b, e, _) = wake-Inv l.confirmed n l.session v h in (b, e)

  -- In a session that the protocol reaches from a start at most `pipeline_size` calls are sent and
  -- not confirmed, and there are no more confirmations than calls.
  pub pipeline_bounded :
      (l.confirmed ≤ length l.session.conn.sent)
      × (length l.session.conn.sent ≤ l.confirmed + pipeline_size)
  pipeline_bounded =
      let (n, v) = Reach-Inv L J (Start-Inv start) r in
      (omega (arith, v.counted), omega (arith, v.counted, v.bounded))

  -- A session that the protocol reaches from a start has not stalled: a call is on its way, or a check
  -- of the queue is scheduled.
  pub never_stalls : (l.confirmed < length l.session.conn.sent) ⊎ (0 < l.session.conn.scheduled)
  never_stalls =
      let (n, v) = Reach-Inv L J (Start-Inv start) r in
      alive l.session.client.state n v v.outstanding
    where
      alive :
          (st : ClientState) (n : ℕ)
          → Inv l.confirmed n l.session
          → Outstanding st l.session n
          → (l.confirmed < length l.session.conn.sent) ⊎ (0 < l.session.conn.scheduled)
      alive not_ready n v o = absurd o
      alive syncing n v o = inl (omega (arith, v.counted, o.1))
      alive sync_finishing n v o = inl (omega (arith, v.counted, o.1))
      alive running zero v o = inr (omega (arith, o.2))
      alive running (suc n) v o = inl (omega (arith, v.counted))
