-- ===== src/Handlers/Concurrent/Progress.antt =====
-- src/fas_methods.hpp, src/db.hpp: the handlers in several threads do not block each other for ever.
use leveldb_daemon.Prelude.{
  at_index, ℕ, ◌≡◌, refl, true, false, Option, List, [], ◌∷◌, ◌==◌, ==_iff, arith, Bool-cases, inl,
  inr, ◌≢◌,
}
use leveldb_daemon.Prelude.Bytes.{Bytes}
use leveldb_daemon.Locks.{try_lock, unlock}
use leveldb_daemon.Db.{Leveldb}
use leveldb_daemon.Db.Memory.{lock_of}
use leveldb_daemon.Handlers.Concurrent.{
  Change, leave, put, fail, Item, locked_update, plain_put, At, between, locked, fetched, stored,
  aborting, finished, Thread, holds, number, Memory, Move, acquire, fetch, store, skip, abort,
  release, unwind, assign, replicate, World, Step, pick, Reach, here, next,
}

module _ (L : Leveldb) (hash : Bytes → ℕ) where
  -- A lock that is taken is held by a thread that is at a round with this lock.
  Owned : Memory L hash → (ℕ → Thread) → Type 0
  Owned m ts =
      (n : ℕ)
      → (m.locks n).value ≡ true
      → (j : ℕ) × (holds (ts j).at ≡ true) × (number hash (ts j) ≡ n)

  InRound : Thread → Type 0
  InRound t =
      holds t.at ≡ true
      → (k : Bytes) × (f : Option Bytes → Change) × (items : List Item) × (t.todo
          ≡ locked_update k f ∷ items)

  Move-InRound : {m m' : Memory L hash} {t t' : Thread} → Move L hash m t m' t' → InRound t'
  unfolding InRound
  Move-InRound (acquire m t k f items a b c) h = (k, f, items, b)
  Move-InRound (fetch m t k f items a b) h = (k, f, items, b)
  Move-InRound (store m t k f items r x a b c) h = (k, f, items, b)
  Move-InRound (skip m t k f items r a b c) h = (k, f, items, b)
  Move-InRound (abort m t k f items r a b c) h = (k, f, items, b)
  Move-InRound (release m t k f items a b) h = absurd (ground arith)
  Move-InRound (unwind m t k f items a b) h = absurd (ground arith)
  Move-InRound (assign m t k x items a b) h = absurd (ground arith)
  Move-InRound (replicate m t a b) h = absurd (ground arith)

  module _ (i : ℕ) (ts : ℕ → Thread) where
    Move-Owned :
        {m m' : Memory L hash} {t t' : Thread}
        → Owned m ts
        → ts i ≡ t
        → Move L hash m t m' t'
        → Owned m' (at_index ts i t')
    unfolding Owned try_lock unlock
    Move-Owned v e (acquire m t k f items a b c) n h = elim (Bool-cases (lock_of hash k == n)) [
      | inl p ↦
          (i, ground (arith, ==_iff i i), ground (arith, ==_iff i i, ==_iff (lock_of hash k) n))
      | inr p ↦ let (j, q, z) = v n (ground arith) in (j, ground arith, ground arith)
    ]
    Move-Owned v e (fetch m t k f items a b) n h =
        let (j, q, z) = v n h in (j, ground arith, ground arith)
    Move-Owned v e (store m t k f items r x a b c) n h =
        let (j, q, z) = v n h in (j, ground arith, ground arith)
    Move-Owned v e (skip m t k f items r a b c) n h =
        let (j, q, z) = v n h in (j, ground arith, ground arith)
    Move-Owned v e (abort m t k f items r a b c) n h =
        let (j, q, z) = v n h in (j, ground arith, ground arith)
    Move-Owned v e (release m t k f items a b) n h =
        let (j, q, z) = v n (ground arith) in
        (
          j,
          ground (arith, ==_iff n n, ==_iff (lock_of hash k) n),
          ground (arith, ==_iff (lock_of hash k) n),
        )
    Move-Owned v e (unwind m t k f items a b) n h =
        let (j, q, z) = v n (ground arith) in
        (j, ground (arith, ==_iff (lock_of hash k) n), ground (arith, ==_iff (lock_of hash k) n))
    Move-Owned v e (assign m t k x items a b) n h =
        let (j, q, z) = v n h in (j, ground arith, ground arith)
    Move-Owned v e (replicate m t a b) n h =
        let (j, q, z) = v n h in (j, ground arith, ground arith)

  Moves : Memory L hash → Thread → Type 0
  Moves m t = (m' : Memory L hash) × (t' : Thread) × Move L hash m t m' t'

  -- A thread that holds a lock can move.
  holder-Moves :
      (m : Memory L hash) (t : Thread) (a : At) → t.at ≡ a → holds a ≡ true → InRound t → Moves m t
  unfolding InRound Moves
  holder-Moves m t between e h r = absurd (ground arith)
  holder-Moves m t locked e h r =
      let (k, f, items, z) = r (ground arith) in (_, _, fetch m t k f items e z)
  holder-Moves m t (fetched o) e h r =
      let (k, f, items, z) = r (ground arith) in after_fetch k f items z (f o) refl
    where
      after_fetch :
          (k : Bytes) (f : Option Bytes → Change) (items : List Item)
          → t.todo ≡ locked_update k f ∷ items
          → (c : Change) → f o ≡ c
          → Moves m t
      after_fetch k f items z leave q = (_, _, skip m t k f items o e z q)
      after_fetch k f items z (put v) q = (_, _, store m t k f items o v e z q)
      after_fetch k f items z fail q = (_, _, abort m t k f items o e z q)
  holder-Moves m t stored e h r =
      let (k, f, items, z) = r (ground arith) in (_, _, release m t k f items e z)
  holder-Moves m t aborting e h r =
      let (k, f, items, z) = r (ground arith) in (_, _, unwind m t k f items e z)
  holder-Moves m t finished e h r = absurd (ground arith)

  some-Moves :
      (m : Memory L hash) (ts : ℕ → Thread) (i : ℕ)
      → Owned m ts
      → ((j : ℕ) → InRound (ts j))
      → (ts i).at ≢ finished
      → (j : ℕ) × Moves m (ts j)
  unfolding Owned Moves try_lock
  some-Moves m ts i v r n = by_place (ts i).at refl
    where
      by_round :
          (items : List Item) → (ts i).at ≡ between → (ts i).todo ≡ items → (j : ℕ) × Moves m (ts j)
      by_round [] e z = (i, (_, _, replicate m (ts i) e z))
      by_round (plain_put k x ∷ items) e z = (i, (_, _, assign m (ts i) k x items e z))
      by_round (locked_update k f ∷ items) e z =
          elim (Bool-cases (m.locks (lock_of hash k)).value) [
            | inl b ↦
                let (j, h, q) = v (lock_of hash k) b in
                (j, holder-Moves m (ts j) (ts j).at refl h (r j))
            | inr b ↦ (i, (_, _, acquire m (ts i) k f items e z (ground arith)))
          ]

      by_place : (a : At) → (ts i).at ≡ a → (j : ℕ) × Moves m (ts j)
      by_place between e = by_round (ts i).todo e refl
      by_place locked e = (i, holder-Moves m (ts i) locked e refl (r i))
      by_place (fetched o) e = (i, holder-Moves m (ts i) (fetched o) e refl (r i))
      by_place stored e = (i, holder-Moves m (ts i) stored e refl (r i))
      by_place aborting e = (i, holder-Moves m (ts i) aborting e refl (r i))
      by_place finished e = absurd (n e)

  module _ {w : World L hash} (idle : (i : ℕ) → (w.threads i).at ≡ between)
      (free : (n : ℕ) → (w.memory.locks n).value ≡ false) where
    Reach-Owned : {u : World L hash} → Reach L hash w u → Owned u.memory u.threads
    unfolding Owned
    Reach-Owned here n h = absurd (ground (arith, free n))
    Reach-Owned (next r (pick v i mv)) n h = Move-Owned i v.threads (Reach-Owned r) refl mv n h

    Reach-InRound : {u : World L hash} → Reach L hash w u → (j : ℕ) → InRound (u.threads j)
    unfolding InRound
    Reach-InRound here j h = absurd (ground (arith, idle j))
    Reach-InRound (next r (pick v i mv)) j h = elim (Bool-cases (i == j)) [
      | inl e ↦ rw e (Move-InRound mv (ground arith))
      | inr e ↦ rw e (Reach-InRound r j (ground arith))
    ]

    -- The handlers of several threads never block each other for ever: at every time, while some thread is
    -- not at its end, some thread can move; where at the start no lock is taken and no handler has begun.
    pub never_deadlocks :
        {u : World L hash} (i : ℕ)
        → Reach L hash w u
        → (u.threads i).at ≢ finished
        → (v : World L hash) × Step L hash u v
    unfolding Moves
    never_deadlocks {u} i r n =
        let (j, (m, t, mv)) = some-Moves u.memory u.threads i (Reach-Owned r) (Reach-InRound r) n in
        (_, pick u j mv)
