-- ===== src/Handlers/Concurrent/Races.antt =====
-- src/fas_methods.hpp: what the locks of the keys do not prevent.
use leveldb_daemon.Prelude.{
  at_index, ℕ, ◌≡◌, refl, ap, ◌∙◌, true, false, Option, some, List, [], ◌∷◌, ◌++◌, ◌==◌, ==_iff,
  arith,
}
use leveldb_daemon.Prelude.Bytes.{Bytes, beq_refl}
use leveldb_daemon.Locks.{try_lock, unlock}
use leveldb_daemon.Db.{Leveldb, Contract}
use leveldb_daemon.Db.Entries.{Entry}
use leveldb_daemon.Db.Memory.{lock_of}
use leveldb_daemon.Handlers.Writes.{get-put}
use leveldb_daemon.Handlers.Concurrent.{
  Change, put, Item, locked_update, plain_put, between, locked, fetched, stored, finished,
  new_thread, acquire, fetch, store, release, assign, pushed, after_put, replicate, World, pick,
  Reach, here, next,
}

module _ (L : Leveldb) (C : Contract L) (writes : (d : L.Db) (k v : Bytes) → (L.put d k v).1 ≡ true)
    (hash : Bytes → ℕ) {start : World L hash} where
  -- A thread takes the lock of its next round and reads the value, while no other one moves.
  fetch_alone :
      (w : World L hash) (i : ℕ) (k : Bytes) (f : Option Bytes → Change) (items : List Item)
      (result : List Entry)
      → Reach L hash start w
      → w.threads i ≡ record { todo = locked_update k f ∷ items; result = result; at = between }
      → (w.memory.locks (lock_of hash k)).value ≡ false
      → (u : World L hash) × Reach L hash start u
        × (u.memory.db ≡ w.memory.db)
        × (u.memory.calls ≡ w.memory.calls)
        × (u.threads i ≡ record {
          todo = locked_update k f ∷ items;
          result = result;
          at = fetched (L.get w.memory.db k);
        })
        × ((j : ℕ) → (i == j) ≡ false → u.threads j ≡ w.threads j)
  unfolding try_lock
  fetch_alone w i k f items result r e free =
      let n = lock_of hash k in
      let self = ==_iff i i in
      let w₁ : World L hash = record {
        memory = record w.memory {
          locks = at_index w.memory.locks n (try_lock (w.memory.locks n)).1;
        };
        threads = at_index w.threads i (record (w.threads i) { at = locked });
      } in
      let w₂ : World L hash = record {
        memory = w₁.memory;
        threads =
            at_index w₁.threads i (record (w₁.threads i) { at = fetched (L.get w.memory.db k) });
      } in
      let r₁ : Reach L hash start w₁ =
        next r (pick w i (acquire _ _ k f items (ground arith) (ground arith) (ground arith))) in
      (
        w₂,
        next r₁ (pick w₁ i (fetch _ _ k f items (ground arith) (ground arith))),
        refl,
        refl,
        ground arith,
        λ j d. ground arith,
      )

  -- A thread does its next round while no other one moves.
  round_alone :
      (w : World L hash) (i : ℕ) (k v : Bytes) (f : Option Bytes → Change) (items : List Item)
      (result : List Entry)
      → Reach L hash start w
      → w.threads i ≡ record { todo = locked_update k f ∷ items; result = result; at = between }
      → (w.memory.locks (lock_of hash k)).value ≡ false
      → f (L.get w.memory.db k) ≡ put v
      → (u : World L hash) × Reach L hash start u
        × (u.memory.db ≡ (L.put w.memory.db k v).0)
        × ((u.memory.locks (lock_of hash k)).value ≡ false)
        × (u.memory.calls ≡ w.memory.calls)
        × (u.threads i ≡ record { todo = items; result = result ++ (k, v) ∷ []; at = between })
        × ((j : ℕ) → (i == j) ≡ false → u.threads j ≡ w.threads j)
  unfolding unlock
  round_alone w i k v f items result r e free h =
      let n = lock_of hash k in
      let self = ==_iff i i in
      let own = ==_iff n n in
      let (w₂, r₂, db₂, calls₂, own₂, other₂) = fetch_alone w i k f items result r e free in
      let w₃ : World L hash = record {
        memory = after_put L hash k v w₂.memory;
        threads = at_index w₂.threads i (record (w₂.threads i) {
          at = stored;
          result = pushed L hash k v w₂.memory (w₂.threads i).result;
        });
      } in
      let w₄ : World L hash = record {
        memory = record w₃.memory {
          locks = at_index w₃.memory.locks n (unlock (w₃.memory.locks n));
        };
        threads = at_index w₃.threads i (record (w₃.threads i) { at = between; todo = items });
      } in
      let r₃ : Reach L hash start w₃ =
        next r₂ (
          pick w₂ i
            (store _ _ k f items (L.get w.memory.db k) v (ground arith) (ground arith) h)) in
      (
        w₄,
        next r₃ (pick w₃ i (release _ _ k f items (ground arith) (ground arith))),
        ap (λ d. (L.put d k v).0) db₂,
        ground arith,
        calls₂,
        ground (arith, writes w₂.memory.db k v),
        λ j d. ground (arith, other₂ j d),
      )

  -- A thread with no rounds left replicates what it has written.
  replicate_alone :
      (w : World L hash) (i : ℕ) (result : List Entry)
      → Reach L hash start w
      → w.threads i ≡ record { todo = []; result = result; at = between }
      → (u : World L hash) × Reach L hash start u
        × (u.memory.db ≡ w.memory.db)
        × (u.memory.calls ≡ w.memory.calls ++ result ∷ [])
        × ((u.threads i).at ≡ finished)
        × ((j : ℕ) → (i == j) ≡ false → u.threads j ≡ w.threads j)
  replicate_alone w i result r e = (
    record {
      memory = record w.memory { calls = w.memory.calls ++ (w.threads i).result ∷ [] };
      threads = at_index w.threads i (record (w.threads i) { at = finished });
    },
    next r (pick w i (replicate _ _ (ground arith) (ground arith))),
    refl,
    ground arith,
    ground (arith, ==_iff i i),
    λ j d. ground arith,
  )

module _ (L : Leveldb) (C : Contract L) (writes : (d : L.Db) (k v : Bytes) → (L.put d k v).1 ≡ true)
    (hash : Bytes → ℕ) (w : World L hash) (i j : ℕ) (k v x : Bytes)
    (f g : Option Bytes → Change) where
  -- Two threads that update one key, and are both at their start, may both come to their end with the
  -- database holding what the second one wrote, and the replication called with it before what the first
  -- one wrote; where no write fails, and the lock of the key is free.
  pub updates_reordered :
      (i == j) ≡ false
      → w.threads i ≡ new_thread (locked_update k f ∷ [])
      → w.threads j ≡ new_thread (locked_update k g ∷ [])
      → (w.memory.locks (lock_of hash k)).value ≡ false
      → f (L.get w.memory.db k) ≡ put v
      → g (some v) ≡ put x
      → (u : World L hash) × Reach L hash w u
        × ((u.threads i).at ≡ finished)
        × ((u.threads j).at ≡ finished)
        × (L.get u.memory.db k ≡ some x)
        × (u.memory.calls ≡ w.memory.calls ++ ((k, x) ∷ []) ∷ [] ++ ((k, v) ∷ []) ∷ [])
  updates_reordered d a b free p q =
      let (w₁, r₁, db₁, free₁, calls₁, own₁, other₁) =
        round_alone L C writes hash w i k v f [] [] here a free p in
      let seen : L.get w₁.memory.db k ≡ some v =
        ground (arith, get-put L C w.memory.db k v k (writes w.memory.db k v), beq_refl k) in
      let (w₂, r₂, db₂, free₂, calls₂, own₂, other₂) =
        round_alone L C writes hash w₁ j k x g [] [] r₁ (other₁ j d ∙ b) free₁ (ap g seen ∙ q) in
      let d' : (j == i) ≡ false = ground (arith, ==_iff i j, ==_iff j i) in
      let (w₃, r₃, db₃, calls₃, own₃, other₃) =
        replicate_alone L C writes hash w₂ j ((k, x) ∷ []) r₂ own₂ in
      let (w₄, r₄, db₄, calls₄, own₄, other₄) =
        replicate_alone L C writes hash w₃ i ((k, v) ∷ []) r₃ (other₃ i d' ∙ other₂ i d' ∙ own₁) in
      (
        w₄,
        r₄,
        own₄,
        ap (λ t. t.at) (other₄ j d) ∙ own₃,
        ground (arith, get-put L C w₁.memory.db k x k (writes w₁.memory.db k x), beq_refl k),
        calls₄
            ∙ ap (λ c. c ++ ((k, v) ∷ []) ∷ [])
                (calls₃ ∙ ap (λ c. c ++ ((k, x) ∷ []) ∷ []) (calls₂ ∙ calls₁)),
      )

module _ (L : Leveldb) (C : Contract L) (writes : (d : L.Db) (k v : Bytes) → (L.put d k v).1 ≡ true)
    (hash : Bytes → ℕ) (w : World L hash) (i j : ℕ) (k v x : Bytes) (f : Option Bytes → Change)
    (items : List Item) where
  -- A `set` of a key that is done while another thread is between the `Get` and the `Put` of this key is
  -- lost: the key then holds what the other thread made of the value before the `set`; where no write
  -- fails, and the lock of the key is free.
  pub set_lost :
      (i == j) ≡ false
      → w.threads i ≡ new_thread (locked_update k f ∷ [])
      → w.threads j ≡ new_thread (plain_put k x ∷ items)
      → (w.memory.locks (lock_of hash k)).value ≡ false
      → f (L.get w.memory.db k) ≡ put v
      → (u : World L hash) × Reach L hash w u
        × (u.threads j ≡ record { todo = items; result = (k, x) ∷ []; at = between })
        × ((u.threads i).result ≡ (k, v) ∷ [])
        × (L.get u.memory.db k ≡ some v)
  set_lost d a b free p =
      let self = ==_iff i i in
      let self_j = ==_iff j j in
      let back = ==_iff i j in
      let turn = ==_iff j i in
      let (w₂, r₂, db₂, calls₂, own₂, other₂) =
        fetch_alone L C writes hash w i k f [] [] here a free in
      let still = other₂ j d in
      let w₃ : World L hash = record {
        memory = after_put L hash k x w₂.memory;
        threads =
            at_index w₂.threads j (record (w₂.threads j) {
              todo = items;
              result = (w₂.threads j).result ++ (k, x) ∷ [];
            });
      } in
      let w₄ : World L hash = record {
        memory = after_put L hash k v w₃.memory;
        threads = at_index w₃.threads i (record (w₃.threads i) {
          at = stored;
          result = pushed L hash k v w₃.memory (w₃.threads i).result;
        });
      } in
      let r₃ : Reach L hash w w₃ =
        next r₂ (pick w₂ j (assign _ _ k x items (ground arith) (ground arith))) in
      (
        w₄,
        next r₃
            (pick w₃ i (store _ _ k f [] (L.get w.memory.db k) v (ground arith) (ground arith) p)),
        ground arith,
        ground (arith, writes w₃.memory.db k v),
        ground (arith, get-put L C w₃.memory.db k v k (writes w₃.memory.db k v), beq_refl k),
      )
