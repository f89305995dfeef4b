-- ===== src/Cluster/Replay.antt =====
-- src/fas_methods.hpp: what the calls of a master make of a slave's contents, and that taking the same calls
-- once more changes nothing.
use leveldb_daemon.Prelude.{
  ℕ, ◌+◌, take, drop, take-add, take-append-drop, drop-drop, ◌≡◌, refl, ap, sym, ◌∙◌, true, Option,
  none, some, List, [], ◌∷◌, arith, Bool-cases, ◌⊎◌, inl, inr, Option-cases,
}
use leveldb_daemon.Prelude.Bytes.{Bytes, beq}
use leveldb_daemon.Db.{Leveldb, Contract}
use leveldb_daemon.Db.Entries.{Entry, find, insert, remove, find-insert, find-remove}
use leveldb_daemon.Db.Same.{find_ext}
use leveldb_daemon.Serializers.{Serializers}
use leveldb_daemon.Replication.{Method, set, set_range, del}
use leveldb_daemon.Handlers.{Server, set_request, del_request}
use leveldb_daemon.Handlers.Converge.{insert_all, put_all-entries}
use leveldb_daemon.Cluster.{Parsers, take_call, take_calls}
use leveldb_daemon.Cluster.Updates.{take_calls-append, delete_all-entries, remove_all}

-- A change of the entries leaves the value of a key, or gives it one that does not depend on the entries.
abbrev Settled : (List Entry → List Entry) → Bytes → Type 0
Settled f k =
    ((a b : List Entry) → find k (f a) ≡ find k (f b))
    ⊎ ((a : List Entry) → find k (f a) ≡ find k a)

Settled-again :
    (f : List Entry → List Entry) (k : Bytes)
    → Settled f k
    → (a : List Entry) → find k (f (f a)) ≡ find k (f a)
Settled-again f k (inl h) a = h (f a) a
Settled-again f k (inr h) a = h (f a)

Settled-after :
    (f g : List Entry → List Entry) (k : Bytes)
    → Settled f k
    → Settled g k
    → Settled (λ a. g (f a)) k
Settled-after f g k h (inl e) = inl (λ a b. e (f a) (f b))
Settled-after f g k (inl h) (inr e) = inl (λ a b. e (f a) ∙ h a b ∙ sym (e (f b)))
Settled-after f g k (inr h) (inr e) = inr (λ a. e (f a) ∙ h a)

Settled-insert : (k j v : Bytes) → Settled (insert j v) k
Settled-insert k j v = elim (Bool-cases (beq j k)) [
  | inl e ↦ inl (λ a b. ground (arith, e, find-insert j k v a, find-insert j k v b))
  | inr e ↦ inr (λ a. ground (arith, e, find-insert j k v a))
]

Settled-remove : (k j : Bytes) → Settled (remove j) k
Settled-remove k j = elim (Bool-cases (beq j k)) [
  | inl e ↦ inl (λ a b. ground (arith, e, find-remove j k a, find-remove j k b))
  | inr e ↦ inr (λ a. ground (arith, e, find-remove j k a))
]

Settled-insert_all : (k : Bytes) (es : List Entry) → Settled (insert_all es) k
Settled-insert_all k [] = inr (λ a. refl)
Settled-insert_all k ((j, v) ∷ es) =
    Settled-after (insert j v) (insert_all es) k (Settled-insert k j v) (Settled-insert_all k es)

-- The change of a command, where there is one.
abbrev pub change_by :
    {A : Type 0} → (A → List Entry → List Entry) → Option A → List Entry → List Entry
change_by f none es = es
change_by f (some cmd) es = f cmd es

Settled-change_by :
    {A : Type 0} (f : A → List Entry → List Entry) (k : Bytes)
    → ((cmd : A) → Settled (f cmd) k)
    → (r : Option A) → Settled (change_by f r) k
Settled-change_by f k h none = inr (λ a. refl)
Settled-change_by f k h (some cmd) = h cmd

module _ (L : Leveldb) (C : Contract L) (writes : (d : L.Db) (k v : Bytes) → (L.put d k v).1 ≡ true)
    (deletes : (d : L.Db) (k : Bytes) → (L.delete d k).1 ≡ true) (J : Serializers)
    (P : Parsers) where
  Settled-remove_all : (k : Bytes) (ks : List Bytes) → Settled (remove_all L C deletes ks) k
  Settled-remove_all k [] = inr (λ a. refl)
  Settled-remove_all k (j ∷ ks) =
      Settled-after (remove j) (remove_all L C deletes ks) k (Settled-remove k j)
        (Settled-remove_all k ks)

  -- What a call makes of the entries.
  abbrev pub effect : Method × Bytes → List Entry → List Entry
  effect (set, params) = change_by insert_all (P.parse_valmap2str params)
  effect (set_range, params) = change_by insert_all (P.parse_valmap2str params)
  effect (del, params) = change_by (remove_all L C deletes) (P.parse_vallist params)

  abbrev pub effects : List (Method × Bytes) → List Entry → List Entry
  effects [] es = es
  effects (c ∷ cs) es = effects cs (effect c es)

  Settled-effect : (k : Bytes) (c : Method × Bytes) → Settled (effect c) k
  Settled-effect k (set, params) =
      Settled-change_by insert_all k (Settled-insert_all k) (P.parse_valmap2str params)
  Settled-effect k (set_range, params) =
      Settled-change_by insert_all k (Settled-insert_all k) (P.parse_valmap2str params)
  Settled-effect k (del, params) =
      Settled-change_by (remove_all L C deletes) k (Settled-remove_all k) (P.parse_vallist params)

  Settled-effects : (k : Bytes) (cs : List (Method × Bytes)) → Settled (effects cs) k
  Settled-effects k [] = inr (λ a. refl)
  Settled-effects k (c ∷ cs) =
      Settled-after (effect c) (effects cs) k (Settled-effect k c) (Settled-effects k cs)

  take_call-entries :
      (c : Method × Bytes) (s : Server L)
      → C.entries (take_call L J P c s).db ≡ effect c (C.entries s.db)
  unfolding take_call set_request del_request
  take_call-entries (set, params) s = elim (Option-cases (P.parse_valmap2str params)) [
    | inl e ↦ ground (arith, e)
    | inr (cmd, e) ↦ ground (arith, e, put_all-entries L C writes cmd true s.db)
  ]
  take_call-entries (set_range, params) s = elim (Option-cases (P.parse_valmap2str params)) [
    | inl e ↦ ground (arith, e)
    | inr (cmd, e) ↦ ground (arith, e, put_all-entries L C writes cmd true s.db)
  ]
  take_call-entries (del, params) s = elim (Option-cases (P.parse_vallist params)) [
    | inl e ↦ ground (arith, e)
    | inr (cmd, e) ↦ ground (arith, e, delete_all-entries L C deletes cmd s.db)
  ]

  pub take_calls-entries :
      (cs : List (Method × Bytes)) (s : Server L)
      → C.entries (take_calls L J P cs s).db ≡ effects cs (C.entries s.db)
  take_calls-entries [] s = refl
  take_calls-entries (c ∷ cs) s =
      take_calls-entries cs (take_call L J P c s) ∙ ap (effects cs) (take_call-entries c s)

  -- A slave that takes some calls twice has the contents that it has after taking them once.
  pub taken_twice :
      (cs : List (Method × Bytes)) (s : Server L)
      → C.entries (take_calls L J P cs (take_calls L J P cs s)).db
        ≡ C.entries (take_calls L J P cs s).db
  taken_twice cs s =
      let once = take_calls L J P cs s in
      let twice = take_calls L J P cs once in
      let es = C.entries s.db in
      let e₁ : C.entries once.db ≡ effects cs es = take_calls-entries cs s in
      let e₂ : C.entries twice.db ≡ effects cs (effects cs es) =
        take_calls-entries cs once ∙ ap (effects cs) e₁ in
      find_ext (C.entries twice.db) (C.entries once.db) (C.entries_sorted twice.db)
        (C.entries_sorted once.db)
        (λ k.
          ap (find k) e₂
          ∙ Settled-again (effects cs) k (Settled-effects k cs) es
          ∙ sym (ap (find k) e₁))

  -- The calls that are sent again, of which the slave has taken some, and those after them.
  pub sent_again :
      (cs : List (Method × Bytes)) (n m : ℕ) (base slave : Server L)
      → slave ≡ take_calls L J P (take (n + m) cs) base
      → C.entries (take_calls L J P (drop n cs) slave).db
        ≡ C.entries (take_calls L J P (drop (n + m) cs) slave).db
  sent_again cs n m base slave e =
      let kept = take m (drop n cs) in
      let rest = drop m (drop n cs) in
      let before = take_calls L J P (take n cs) base in
      let split_slave : slave ≡ take_calls L J P kept before =
        e
        ∙ ap (λ t. take_calls L J P t base) (take-add n m cs)
        ∙ take_calls-append L J P (take n cs) kept base in
      let twice : C.entries (take_calls L J P kept slave).db ≡ C.entries slave.db =
        ap (λ t. C.entries (take_calls L J P kept t).db) split_slave
        ∙ taken_twice kept before
        ∙ ap (λ t. C.entries t.db) (sym split_slave) in
      ap (λ t. C.entries (take_calls L J P t slave).db) (sym (take-append-drop m (drop n cs)))
      ∙ ap (λ t. C.entries t.db) (take_calls-append L J P kept rest slave)
      ∙ take_calls-entries rest (take_calls L J P kept slave)
      ∙ ap (effects rest) twice
      ∙ sym (take_calls-entries rest slave)
      ∙ ap (λ t. C.entries (take_calls L J P t slave).db) (sym (drop-drop n m cs))
