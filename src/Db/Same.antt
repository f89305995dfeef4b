-- ===== src/Db/Same.antt =====
-- Sorted lists of entries are the same where each key has the same value in both.
use leveldb_daemon.Prelude.{
  ◌≡◌, refl, true, none, some, List, [], ◌∷◌, arith, if◌then◌else◌, Bool-cases, inl, inr,
}
use leveldb_daemon.Prelude.Bytes.{Bytes, beq, blt, beq_iff, beq_refl, blt_total}
use leveldb_daemon.Db.Entries.{Entry, find, Above, IsSorted, Above-trans, find-Above}

find-head : (k v : Bytes) (es : List Entry) → find k ((k, v) ∷ es) ≡ some v
unfolding find
find-head k v es = ground (arith, beq_refl k)

find-below :
    (k j w : Bytes) (es : List Entry) → blt k j ≡ true → Above j es → find k ((j, w) ∷ es) ≡ none
find-below k j w es h a = find-Above k ((j, w) ∷ es) (h, Above-trans k j es h a)

find-tail :
    (k v x : Bytes) (es : List Entry)
    → Above k es
    → find x es ≡ (if beq k x then none else find x ((k, v) ∷ es))
unfolding find
find-tail k v x es a = ground (arith, beq_iff k x, find-Above k es a)

pub find_ext :
    (a b : List Entry) → IsSorted a → IsSorted b → ((k : Bytes) → find k a ≡ find k b) → a ≡ b
unfolding find
find_ext [] [] s t h = refl
find_ext [] ((j, w) ∷ b) s t h = absurd (ground (arith, h j, find-head j w b))
find_ext ((k, v) ∷ a) [] s t h = absurd (ground (arith, h k, find-head k v a))
find_ext ((k, v) ∷ a) ((j, w) ∷ b) s t h = elim (Bool-cases (blt k j)) [
  | inl e ↦ absurd (ground (arith, h k, find-head k v a, find-below k j w b e t.0))
  | inr e ↦ elim (Bool-cases (blt j k)) [
    | inl f ↦ absurd (ground (arith, h j, find-head j w b, find-below j k v a f s.0))
    | inr f ↦
        let same : k ≡ j = blt_total k j e f in
        let tails : a ≡ b =
          find_ext a b s.1 t.1
            (λ x. ground (arith, same, h x, find-tail k v x a s.0, find-tail j w x b t.0)) in
        ground (arith, same, tails, h k, find-head k v a, find-head j w b)
  ]
]
