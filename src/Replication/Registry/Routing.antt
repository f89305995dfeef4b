-- ===== src/Replication/Registry/Routing.antt =====
-- src/replication.hpp: which updates `_send_to_clients` puts into which slave's queue.
use leveldb_daemon.Prelude.{
  ℕ, ◌*◌, ◌≤◌, ◌≡◌, refl, ap, sym, subst, ◌∙◌, ◌⊎◌, ◌++◌, length, take, take-all, if◌then◌else◌,
  inl, inr, true, false, none, some, List, [], ◌∷◌, is_empty, arith, Bool-cases,
}
use leveldb_daemon.Prelude.Bytes.{Bytes, codes, beq, blt, blt_irrefl, blt_total, beq_iff, beq_refl}
use leveldb_daemon.Db.{Leveldb, Contract}
use leveldb_daemon.Db.Entries.{Entry, find, find-Above}
use leveldb_daemon.Db.Above.{above, find-above_key, length-above, Above-above, Above-take}
use leveldb_daemon.Serializers.{Serializers}
use leveldb_daemon.Replication.{
  ClientState, not_ready, syncing, sync_finishing, running, Client, current, enqueue, Session,
  on_confirm, portion_size, sync_queue, popped, pop_front,
}
use leveldb_daemon.Replication.Sending.{Known, calls}
use leveldb_daemon.Replication.Delivery.{pending, sync_queue-pending}
use leveldb_daemon.Replication.Copying.{portions, portions_from}
use leveldb_daemon.Handlers.Writes.{get-put}
use mathlib.Core.List.{flatten}
use leveldb_daemon.Replication.Registry.{send_to_client, below_key}

module _ {ℓ} {X : Type ℓ} (print : List X → Bytes) (cmd : Bytes) (items : List X)
    (callback : List X → Bytes → List X) where
  -- A client's queue grows by one update at most.
  pub send_to_client_step :
      (c : Client)
      → (send_to_client print cmd items callback c ≡ c)
        ⊎ ((params : Bytes) × (send_to_client print cmd items callback c ≡ enqueue (cmd, params) c))
  unfolding send_to_client
  send_to_client_step c = cases c.state refl
    where
      cases :
          (st : ClientState)
          → c.state ≡ st
          → (send_to_client print cmd items callback c ≡ c)
            ⊎ ((params : Bytes) × (send_to_client print cmd items callback c
                  ≡ enqueue (cmd, params) c))
      cases not_ready e = inl (ground arith)
      cases syncing e = elim (Bool-cases (is_empty (callback items (current c)))) [
        | inl nothing ↦ inl (ground arith)
        | inr partial ↦ inr (print (callback items (current c)), ground arith)
      ]
      cases sync_finishing e = inl (ground arith)
      cases running e = inr (print items, ground arith)

blt_nil : (k : Bytes) → blt k [] ≡ false
unfolding blt
blt_nil [] = refl
blt_nil (c ∷ k) = refl

-- The effect of one `Put` on a slave that is being copied to: the next portion is read from `current c` on,
-- the last key that was copied.
module _ (L : Leveldb) (C : Contract L) (J : Serializers) (d : L.Db) (j v : Bytes) (c : Client)
    (is_syncing : c.state ≡ syncing) (written : (L.put d j v).1 ≡ true)
    (unnamed : L.get d [] ≡ none) where
  abbrev after_put : Client
  after_put = send_to_client J.print_valmap2str (codes "set") ((j, v) ∷ []) below_key c

  get-after : (k : Bytes) → L.get (L.put d j v).0 k ≡ (if beq j k then some v else L.get d k)
  get-after k = get-put L C d j v k written

  -- While a slave is copied to, and the last key copied is still in the database, a `Put` that succeeds, of any
  -- other key, reaches it: it is queued if its key is below; if its key is above, nothing is queued, and the
  -- portions from the last key copied on have the key with its new value, where they are read from this
  -- database and are enough for all its entries. No entry has the empty key, and the database meets
  -- `Contract`.
  pub update_covered :
      (w : Bytes) (n : ℕ)
      → L.get d (current c) ≡ some w
      → beq j (current c) ≡ false
      → length (C.entries (L.put d j v).0) ≤ n * portion_size
      → (after_put ≡ enqueue (codes "set", J.print_valmap2str ((j, v) ∷ [])) c)
        ⊎ ((after_put ≡ c) × (find j (flatten (portions L n (L.put d j v).0 (current c))) ≡ some v))
  unfolding send_to_client
  update_covered w n still other enough = elim (Bool-cases (blt j (current c))) [
    | inl below ↦ inl (ground arith)
    | inr not_below ↦ elim (Bool-cases (blt (current c) j)) [
      | inl over ↦
          let e = L.put d j v in
          let ahead = above (current c) (C.entries e.0) in
          let named : beq j [] ≡ false =
            ground (arith, beq_iff j [], blt_nil (current c), ap (blt (current c))) in
          let copied : flatten (portions L n e.0 (current c)) ≡ ahead =
            portions_from L C n e.0 (current c) w (ground (arith, get-after [], unnamed))
              (ground (arith, get-after (current c), still))
            ∙ take-all (n * portion_size) ahead
                (omega (arith, enough, length-above (current c) (C.entries e.0))) in
          let has_it : find j (C.entries e.0) ≡ some v =
            sym (C.get_entries e.0 j) ∙ ground (arith, get-after j, beq_refl j) in
          inr (
            ground arith,
            ap (find j) copied
                ∙ ground (arith, find-above_key (current c) j (C.entries e.0), has_it),
          )
      | inr not_over ↦
          absurd
            (ground (arith, (beq_iff j (current c)).1 (blt_total j (current c) not_below not_over)))
    ]
  ]

  -- A `Put` that succeeds of the last key copied (not the empty one) is lost to a slave that is being copied
  -- to: nothing is queued, and the portions from this key on, however many are read from this database, do not
  -- have the key. No entry has the empty key, and the database meets `Contract`.
  pub update_at_cursor_lost :
      (n : ℕ)
      → j ≡ current c
      → is_empty j ≡ false
      → (after_put ≡ c) × (find j (flatten (portions L n (L.put d j v).0 (current c))) ≡ none)
  unfolding send_to_client
  update_at_cursor_lost n same named =
      let e = L.put d j v in
      let ahead = above (current c) (C.entries e.0) in
      let copied : flatten (portions L n e.0 (current c)) ≡ take (n * portion_size) ahead =
        portions_from L C n e.0 (current c) v (ground (arith, get-after [], unnamed, beq_iff j []))
          (ground (arith, get-after (current c), beq_iff j (current c))) in
      (
        ground (arith, blt_irrefl (current c), ap (λ t. blt t (current c)) same),
        ap (find j) copied
            ∙ ap (λ t. find t (take (n * portion_size) ahead)) same
            ∙ find-Above (current c) (take (n * portion_size) ahead) (
                Above-take (current c) (n * portion_size) ahead
                  (Above-above (current c) (C.entries e.0))),
      )

-- The confirmations of the last portions of a copy.
abbrev pub confirms : (L : Leveldb) → Serializers → List L.Db → Session → Session
confirms L J [] s = s
confirms L J (d ∷ ds) s = confirms L J ds (on_confirm L J d s).1

-- A slave in `sync_finishing` with n portions on their way: after n confirmations, whatever the database holds
-- at each, it is running, and is sent its queue.
finish :
    (L : Leveldb) (J : Serializers) (k : Bytes) (keys : List Bytes) (d : L.Db) (ds : List L.Db)
    (s : Session)
    → s.client.state ≡ sync_finishing
    → s.client.current_keys ≡ k ∷ keys
    → length ds ≡ length keys
    → Known s.client.queue
    → (pending (confirms L J (d ∷ ds) s) ≡ s.conn.sent ++ calls s.client.queue)
      × ((confirms L J (d ∷ ds) s).client.state ≡ running)
unfolding on_confirm
finish L J k [] d [] s h e l known =
    let step : (on_confirm L J d s).1 ≡ (sync_queue (popped s)).1 =
      ground (arith, ap pop_front e) in
    rw step (sync_queue-pending L J (popped s) known)
finish L J k [] d (d' ∷ ds) s h e l known = absurd (omega (arith, l))
finish L J k (x ∷ keys) d [] s h e l known = absurd (omega (arith, l))
finish L J k (x ∷ keys) d (d' ∷ ds) s h e l known =
    let step : (on_confirm L J d s).1 ≡ popped s = ground (arith, ap pop_front e) in
    subst
      (λ t.
        (pending (confirms L J (d' ∷ ds) t) ≡ s.conn.sent ++ calls s.client.queue)
        × ((confirms L J (d' ∷ ds) t).client.state ≡ running))
      (sym step) (finish L J x keys d' ds (popped s) h (ap pop_front e) (omega (arith, l)) known)

-- An update that comes while the last portions of a copy are on their way is lost: nothing is queued for
-- the slave; and once these portions are confirmed, whatever the database holds at each confirmation, the slave
-- is running, and all that it was sent or will be sent is what it was sent before and the queue as it was
-- before the update, if each queued update is of a known method.
pub update_while_finishing_lost :
    (L : Leveldb) (J : Serializers) (items : List Entry) (k : Bytes) (keys : List Bytes) (d : L.Db)
    (ds : List L.Db) (s : Session)
    → s.client.state ≡ sync_finishing
    → s.client.current_keys ≡ k ∷ keys
    → length ds ≡ length keys
    → Known s.client.queue
    → (send_to_client J.print_valmap2str (codes "set") items below_key s.client ≡ s.client)
      × (pending (confirms L J (d ∷ ds) s) ≡ s.conn.sent ++ calls s.client.queue)
      × ((confirms L J (d ∷ ds) s).client.state ≡ running)
unfolding send_to_client
update_while_finishing_lost L J items k keys d ds s h e l known =
    let (due, st) = finish L J k keys d ds s h e l known in (ground arith, due, st)
