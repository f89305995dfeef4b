-- ===== src/Handlers/Concurrent/Atomic.antt =====
-- src/fas_methods.hpp, src/db.hpp: what the locks of the keys give the handlers that take them.
use leveldb_daemon.Prelude.{
  at_index, ℕ, ◌≡◌, refl, ap, sym, ◌∙◌, Bool, true, false, Option, List, [], ◌∷◌, ◌++◌, ◌==◌,
  ==_iff, if◌then◌else◌, arith, Bool-cases, inl, inr, ◌⊎◌,
}
use mathlib.Core.List.{append_assoc, append-nil}
use leveldb_daemon.Prelude.Bytes.{beq, Bytes, beq_iff}
use leveldb_daemon.Locks.{try_lock, unlock}
use leveldb_daemon.Db.{Leveldb}
use leveldb_daemon.Handlers.Concurrent.{
  leave, put, fail, Item, locked_update, plain_put, between, locked, fetched, stored, aborting,
  finished, Thread, holds, key_of, number, Memory, Move, acquire, fetch, store, skip, abort,
  release, unwind, assign, replicate, World, pick, Reach, here, next,
}

abbrev pub only_locked : List Item → Bool
only_locked [] = true
only_locked (locked_update k f ∷ items) = only_locked items
only_locked (plain_put k v ∷ items) = false

module _ (L : Leveldb) where
  -- A round done at once: the value is read and written with nothing in between.
  unfoldable pub do_round : Item → L.Db → L.Db
  do_round (locked_update k f) d = elim (f (L.get d k)) [
    | put v ↦ (L.put d k v).0
    | leave ↦ d
    | fail ↦ d
  ]
  do_round (plain_put k v) d = (L.put d k v).0

  abbrev pub do_rounds : List Item → L.Db → L.Db
  do_rounds [] d = d
  do_rounds (x ∷ xs) d = do_rounds xs (do_round x d)

  do_rounds-append :
      (xs ys : List Item) (d : L.Db) → do_rounds (xs ++ ys) d ≡ do_rounds ys (do_rounds xs d)
  do_rounds-append [] ys d = refl
  do_rounds-append (x ∷ xs) ys d = do_rounds-append xs ys (do_round x d)

-- `others`: a `Put`, whether it succeeds or fails, changes no other key.
module _ (L : Leveldb)
    (others : (d : L.Db) (k v j : Bytes) → beq k j ≡ false → L.get (L.put d k v).0 j ≡ L.get d j)
    (hash : Bytes → ℕ) where
  -- Who holds a lock, and that what a holder has read is still stored.
  record Inv (m : Memory L hash) (ts : ℕ → Thread) : Type 0 where
    pub held : (i : ℕ) → holds (ts i).at ≡ true → (m.locks (number hash (ts i))).value ≡ true
    pub exclusive :
        (i j : ℕ)
        → holds (ts i).at ≡ true
        → holds (ts j).at ≡ true
        → number hash (ts i) ≡ number hash (ts j)
        → (i == j) ≡ true
    pub fresh :
        (i : ℕ) (r : Option Bytes) → (ts i).at ≡ fetched r → L.get m.db (key_of (ts i).todo) ≡ r
    pub covered : (i : ℕ) → only_locked (ts i).todo ≡ true

  -- A thread that holds a lock after its move has held it before, or it was free.
  Move-holds :
      {m m' : Memory L hash} {t t' : Thread}
      → Move L hash m t m' t'
      → holds t'.at ≡ true
      → (number hash t' ≡ number hash t)
        × ((holds t.at ≡ true) ⊎ ((m.locks (number hash t)).value ≡ false))
  unfolding try_lock
  Move-holds (acquire m t k f items a b c) h = ground arith
  Move-holds (fetch m t k f items a b) h = ground arith
  Move-holds (store m t k f items r x a b c) h = ground arith
  Move-holds (skip m t k f items r a b c) h = ground arith
  Move-holds (abort m t k f items r a b c) h = ground arith
  Move-holds (release m t k f items a b) h = ground arith
  Move-holds (unwind m t k f items a b) h = ground arith
  Move-holds (assign m t k x items a b) h = ground arith
  Move-holds (replicate m t a b) h = ground arith

  module _ (i : ℕ) (ts : ℕ → Thread) where
    Move-held :
        {m m' : Memory L hash} {t t' : Thread} (j : ℕ)
        → Inv m ts
        → ts i ≡ t
        → Move L hash m t m' t'
        → holds (at_index ts i t' j).at ≡ true
        → (m'.locks (number hash (at_index ts i t' j))).value ≡ true
    unfolding try_lock unlock
    Move-held j v e (acquire m t k f items a b c) h = ground (arith, v.held j)
    Move-held j v e (fetch m t k f items a b) h = ground (arith, v.held j, v.held i)
    Move-held j v e (store m t k f items r x a b c) h = ground (arith, v.held j, v.held i)
    Move-held j v e (skip m t k f items r a b c) h = ground (arith, v.held j, v.held i)
    Move-held j v e (abort m t k f items r a b c) h = ground (arith, v.held j, v.held i)
    Move-held j v e (release m t k f items a b) h = ground (arith, v.held j, v.exclusive i j)
    Move-held j v e (unwind m t k f items a b) h = ground (arith, v.held j, v.exclusive i j)
    Move-held j v e (assign m t k x items a b) h = ground (arith, v.held j)
    Move-held j v e (replicate m t a b) h = ground (arith, v.held j)

    Move-exclusive :
        {m m' : Memory L hash} {t t' : Thread} (j k : ℕ)
        → Inv m ts
        → ts i ≡ t
        → Move L hash m t m' t'
        → holds (at_index ts i t' j).at ≡ true
        → holds (at_index ts i t' k).at ≡ true
        → number hash (at_index ts i t' j) ≡ number hash (at_index ts i t' k)
        → (j == k) ≡ true
    Move-exclusive j k v e mv h l n = ground (
      arith,
      v.exclusive j k,
      v.exclusive i k,
      v.exclusive j i,
      v.held j,
      v.held k,
      ==_iff i j,
      ==_iff i k,
      ==_iff j k,
      Move-holds mv,
    )

    Move-covered :
        {m m' : Memory L hash} {t t' : Thread} (j : ℕ)
        → Inv m ts
        → ts i ≡ t
        → Move L hash m t m' t'
        → only_locked (at_index ts i t' j).todo ≡ true
    Move-covered j v e (acquire m t k f items a b c) = ground (arith, v.covered j, v.covered i)
    Move-covered j v e (fetch m t k f items a b) = ground (arith, v.covered j, v.covered i)
    Move-covered j v e (store m t k f items r x a b c) = ground (arith, v.covered j, v.covered i)
    Move-covered j v e (skip m t k f items r a b c) = ground (arith, v.covered j, v.covered i)
    Move-covered j v e (abort m t k f items r a b c) = ground (arith, v.covered j, v.covered i)
    Move-covered j v e (release m t k f items a b) = ground (arith, v.covered j, v.covered i)
    Move-covered j v e (unwind m t k f items a b) = ground (arith, v.covered j, v.covered i)
    Move-covered j v e (assign m t k x items a b) = ground (arith, v.covered j, v.covered i)
    Move-covered j v e (replicate m t a b) = ground (arith, v.covered j, v.covered i)

    Move-fresh :
        {m m' : Memory L hash} {t t' : Thread} (j : ℕ) (r : Option Bytes)
        → Inv m ts
        → ts i ≡ t
        → Move L hash m t m' t'
        → (at_index ts i t' j).at ≡ fetched r
        → L.get m'.db (key_of (at_index ts i t' j).todo) ≡ r
    Move-fresh j r v e (acquire m t k f items a b c) h = ground (arith, v.fresh j r)
    Move-fresh j r v e (fetch m t k f items a b) h = ground (arith, v.fresh j r)
    Move-fresh j r v e (store m t k f items o x a b c) h = ground (
      arith,
      v.fresh j r,
      v.exclusive i j,
      others m.db k x (key_of (ts j).todo),
      beq_iff k (key_of (ts j).todo),
    )
    Move-fresh j r v e (skip m t k f items o a b c) h = ground (arith, v.fresh j r)
    Move-fresh j r v e (abort m t k f items o a b c) h = ground (arith, v.fresh j r)
    Move-fresh j r v e (release m t k f items a b) h = ground (arith, v.fresh j r)
    Move-fresh j r v e (unwind m t k f items a b) h = ground (arith, v.fresh j r)
    Move-fresh j r v e (assign m t k x items a b) h = ground (arith, v.fresh j r, v.covered i)
    Move-fresh j r v e (replicate m t a b) h = ground (arith, v.fresh j r)

    Move-Inv :
        {m m' : Memory L hash} {t t' : Thread}
        → Inv m ts
        → ts i ≡ t
        → Move L hash m t m' t'
        → Inv m' (at_index ts i t')
    Move-Inv v e mv = record {
      held = λ j h. Move-held j v e mv h;
      exclusive = λ j k h l n. Move-exclusive j k v e mv h l n;
      fresh = λ j r h. Move-fresh j r v e mv h;
      covered = λ j. Move-covered j v e mv;
    }

  -- The round that a move completes: the `Put`, or that there is none.
  abbrev pub round_of : {m m' : Memory L hash} {t t' : Thread} → Move L hash m t m' t' → List Item
  round_of (acquire m t k f items a b c) = []
  round_of (fetch m t k f items a b) = []
  round_of (store m t k f items r v a b c) = locked_update k f ∷ []
  round_of (skip m t k f items r a b c) = locked_update k f ∷ []
  round_of (abort m t k f items r a b c) = locked_update k f ∷ []
  round_of (release m t k f items a b) = []
  round_of (unwind m t k f items a b) = []
  round_of (assign m t k v items a b) = plain_put k v ∷ []
  round_of (replicate m t a b) = []

  -- The rounds of a history in the order in which they were completed, and those of one thread.
  abbrev pub rounds : {w u : World L hash} → Reach L hash w u → List Item
  rounds here = []
  rounds (next r (pick w i mv)) = rounds r ++ round_of mv

  abbrev pub rounds_by : {w u : World L hash} → ℕ → Reach L hash w u → List Item
  rounds_by j here = []
  rounds_by j (next r (pick w i mv)) = rounds_by j r ++ (if i == j then round_of mv else [])

  -- The rounds that a thread has still to complete.
  abbrev rest_of : List Item → List Item
  rest_of [] = []
  rest_of (x ∷ xs) = xs

  abbrev pub remaining : Thread → List Item
  remaining t = elim t.at [
    | between ↦ t.todo
    | locked ↦ t.todo
    | fetched r ↦ t.todo
    | stored ↦ rest_of t.todo
    | aborting ↦ rest_of t.todo
    | finished ↦ t.todo
  ]

  -- All threads are before a round, and all their rounds take the lock of the key.
  pub record Starts (w : World L hash) : Type 0 where
    pub idle : (i : ℕ) → (w.threads i).at ≡ between
    pub covered : (i : ℕ) → only_locked (w.threads i).todo ≡ true

  Move-db :
      (i : ℕ) (ts : ℕ → Thread) {m m' : Memory L hash} {t t' : Thread}
      → Inv m ts
      → ts i ≡ t
      → (mv : Move L hash m t m' t') → m'.db ≡ do_rounds L (round_of mv) m.db
  unfolding do_round
  Move-db i ts v e (acquire m t k f items a b c) = refl
  Move-db i ts v e (fetch m t k f items a b) = refl
  Move-db i ts v e (store m t k f items r x a b c) = ground (arith, v.fresh i r)
  Move-db i ts v e (skip m t k f items r a b c) = ground (arith, v.fresh i r)
  Move-db i ts v e (abort m t k f items r a b c) = ground (arith, v.fresh i r)
  Move-db i ts v e (release m t k f items a b) = refl
  Move-db i ts v e (unwind m t k f items a b) = refl
  Move-db i ts v e (assign m t k x items a b) = refl
  Move-db i ts v e (replicate m t a b) = refl

  Move-remaining :
      {m m' : Memory L hash} {t t' : Thread} (mv : Move L hash m t m' t')
      → remaining t ≡ round_of mv ++ remaining t'
  Move-remaining (acquire m t k f items a b c) = ground arith
  Move-remaining (fetch m t k f items a b) = ground arith
  Move-remaining (store m t k f items r x a b c) = ground arith
  Move-remaining (skip m t k f items r a b c) = ground arith
  Move-remaining (abort m t k f items r a b c) = ground arith
  Move-remaining (release m t k f items a b) = ground arith
  Move-remaining (unwind m t k f items a b) = ground arith
  Move-remaining (assign m t k x items a b) = ground arith
  Move-remaining (replicate m t a b) = ground arith

  Reach-Inv : {w u : World L hash} → Starts w → Reach L hash w u → Inv u.memory u.threads
  Reach-Inv s here = record {
    held = λ i h. ground (arith, s.idle i);
    exclusive = λ i j h l n. ground (arith, s.idle i);
    fresh = λ i r h. ground (arith, s.idle i);
    covered = s.covered;
  }
  Reach-Inv s (next r (pick w i mv)) = Move-Inv i w.threads (Reach-Inv s r) refl mv

  -- However the threads are interleaved, if all of them take the lock of a key around its round, then at
  -- every time the database is the one that the completed rounds give when each of them is done at once,
  -- in the order in which they were completed; where a `Put`, whether it succeeds or fails, changes no
  -- other key, and at the start each thread is before a round.
  pub atomic_rounds :
      {w u : World L hash}
      → Starts w
      → (r : Reach L hash w u) → u.memory.db ≡ do_rounds L (rounds r) w.memory.db
  atomic_rounds s here = refl
  atomic_rounds {w} s (next r (pick v i mv)) =
      Move-db i v.threads (Reach-Inv s r) refl mv
      ∙ ap (do_rounds L (round_of mv)) (atomic_rounds s r)
      ∙ sym (do_rounds-append L (rounds r) (round_of mv) w.memory.db)

  -- At every time the rounds that a thread has completed, in their order, and those that it has still to
  -- complete, are the ones that it had at the start; where it was at its start then.
  rounds_in_order :
      {w : World L hash} (j : ℕ)
      → (w.threads j).at ≡ between
      → {u : World L hash} (r : Reach L hash w u)
      → (w.threads j).todo ≡ rounds_by j r ++ remaining (u.threads j)
  rounds_in_order j s here = ground arith
  rounds_in_order j s (next r (pick v i {m} {t} mv)) = elim (Bool-cases (i == j)) [
    | inl e ↦
        let same : i ≡ j = (==_iff i j).0 e in
        rw e (
          rounds_in_order j s r
          ∙ ap (λ x. rounds_by j r ++ remaining (v.threads x)) (sym same)
          ∙ ap (λ x. rounds_by j r ++ x) (Move-remaining mv)
          ∙ sym (append_assoc (rounds_by j r) (round_of mv) (remaining t)))
    | inr e ↦ rw (e, append-nil (rounds_by j r)) (rounds_in_order j s r)
  ]
