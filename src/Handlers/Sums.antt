-- ===== src/Handlers/Sums.antt =====
-- src/fas_methods.hpp: what `inc_add` leaves in the database.
use leveldb_daemon.Prelude.{
  ◌≡◌, ap, ◌∙◌, Bool, true, false, some, List, [], ◌∷◌, arith, if◌then◌else◌, Bool-cases, inl, inr,
}
use leveldb_daemon.Prelude.Int.{
  ℤ, pos, ◌+ℤ◌, add_i64, wrap, i64_half, InRange, InRange-wrap_i64, wrap-add_i64, +ℤ_assoc, +ℤ_zero,
}
use leveldb_daemon.Prelude.Bytes.{Bytes, beq, beq_iff}
use leveldb_daemon.Db.{Leveldb, Contract}
use leveldb_daemon.Serializers.{Serializers}
use leveldb_daemon.Handlers.{Server, inc_add_all, inc_add_request, base_value}
use leveldb_daemon.Handlers.Writes.{get-put}

-- The sum of a command's increments of `k`, and whether it has one.
abbrev pub sum_of : Bytes → List (Bytes × ℤ) → ℤ
sum_of k [] = pos 0
sum_of k ((j, n) ∷ items) = if beq j k then n +ℤ sum_of k items else sum_of k items

abbrev pub names : Bytes → List (Bytes × ℤ) → Bool
names k [] = false
names k ((j, n) ∷ items) = if beq j k then true else names k items

module _ (L : Leveldb) (C : Contract L) (J : Serializers)
    (writes : (d : L.Db) (k v : Bytes) → (L.put d k v).1 ≡ true)
    (reads_back : (u z : ℤ) → InRange i64_half z → J.parse_i64 u (J.print_i64 z) ≡ (z, true))
    (unset : ℤ) (def : List (Bytes × ℤ)) (k : Bytes) where
  base_stored :
      (d : L.Db) (x : ℤ)
      → L.get d k ≡ some (J.print_i64 (wrap i64_half x))
      → base_value L J unset def k d ≡ wrap i64_half x
  unfolding base_value
  base_stored d x h = ground (arith, reads_back unset (wrap i64_half x) (InRange-wrap_i64 x))

  -- What the first increment of a command writes, and the database after it.
  abbrev printed : L.Db → Bytes → ℤ → Bytes
  printed d j n = J.print_i64 (add_i64 (base_value L J unset def j d) n)

  abbrev after_one : L.Db → Bytes → ℤ → L.Db
  after_one d j n = (L.put d j (printed d j n)).0

  get-after_one :
      (d : L.Db) (j : Bytes) (n x : ℤ)
      → beq j k ≡ true
      → base_value L J unset def k d ≡ wrap i64_half x
      → L.get (after_one d j n) k ≡ some (J.print_i64 (wrap i64_half (x +ℤ n)))
  unfolding add_i64
  get-after_one d j n x same base =
      get-put L C d j (printed d j n) k (writes d j (printed d j n))
      ∙ ap (λ t. if t then some (printed d j n) else L.get d k) same
      ∙ ap (λ t. some (J.print_i64 (wrap i64_half (base_value L J unset def t d +ℤ n))))
          ((beq_iff j k).0 same)
      ∙ ap (λ t. some (J.print_i64 (wrap i64_half (t +ℤ n)))) base
      ∙ ap (λ t. some (J.print_i64 t)) (wrap-add_i64 x n)

  get-after_one_ne :
      (d : L.Db) (j : Bytes) (n : ℤ) → beq j k ≡ false → L.get (after_one d j n) k ≡ L.get d k
  get-after_one_ne d j n other =
      get-put L C d j (printed d j n) k (writes d j (printed d j n))
      ∙ ap (λ t. if t then some (printed d j n) else L.get d k) other

  inc_add_stored :
      (items : List (Bytes × ℤ)) (d : L.Db) (x : ℤ)
      → L.get d k ≡ some (J.print_i64 (wrap i64_half x))
      → L.get (inc_add_all L J unset def items d).1 k
        ≡ some (J.print_i64 (wrap i64_half (x +ℤ sum_of k items)))
  unfolding inc_add_all
  inc_add_stored [] d x h = rw +ℤ_zero h
  inc_add_stored ((j, n) ∷ items) d x h = elim (Bool-cases (beq j k)) [
    | inl same ↦
        rw (same, ← +ℤ_assoc x n (sum_of k items))
          (inc_add_stored items (after_one d j n) (x +ℤ n)
            (get-after_one d j n x same (base_stored d x h)))
    | inr other ↦
        rw other (inc_add_stored items (after_one d j n) x (get-after_one_ne d j n other ∙ h))
  ]

  base_same :
      (d e : L.Db)
      → L.get d k ≡ L.get e k
      → base_value L J unset def k d ≡ base_value L J unset def k e
  unfolding base_value
  base_same d e h = ground arith

  -- Where `k` has not been incremented yet, `x` is what `wrap` takes to its base value.
  inc_add_from :
      (items : List (Bytes × ℤ)) (d : L.Db) (x : ℤ)
      → names k items ≡ true
      → base_value L J unset def k d ≡ wrap i64_half x
      → L.get (inc_add_all L J unset def items d).1 k
        ≡ some (J.print_i64 (wrap i64_half (x +ℤ sum_of k items)))
  unfolding inc_add_all
  inc_add_from [] d x named base = cc
  inc_add_from ((j, n) ∷ items) d x named base = elim (Bool-cases (beq j k)) [
    | inl same ↦
        rw (same, ← +ℤ_assoc x n (sum_of k items))
          (inc_add_stored items (after_one d j n) (x +ℤ n) (get-after_one d j n x same base))
    | inr other ↦ rw other (
        inc_add_from items (after_one d j n) x (rw other at named)
          (base_same (after_one d j n) d (get-after_one_ne d j n other) ∙ base))
  ]

  -- After an `inc_add` the database holds, for a key that the command names, the text of its value before
  -- (or its default, or 0) plus all increments that the command has for it, in 64-bit arithmetic,
  -- whatever the order and the repetition of the keys; where the database meets `Contract`, no write
  -- fails, and the parser reads back what the printer writes. The value before is given as `x`, which
  -- may be any integer that wraps around to it.
  pub get-inc_add :
      (cmd : List (Bytes × ℤ)) (s : Server L) (x : ℤ)
      → names k cmd ≡ true
      → base_value L J unset def k s.db ≡ wrap i64_half x
      → L.get (inc_add_request L J unset (record { inc = cmd; def = def }) s).1.db k
        ≡ some (J.print_i64 (wrap i64_half (x +ℤ sum_of k cmd)))
  unfolding inc_add_request
  get-inc_add cmd s x named base = inc_add_from cmd s.db x named base
