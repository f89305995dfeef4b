-- ===== src/Db/Entries.antt =====
-- A sorted list of key and value pairs: what LevelDB promises that its contents are.
use leveldb_daemon.Prelude.{
  ◌≡◌, refl, true, Option, none, some, List, [], ◌∷◌, arith, if◌then◌else◌,
}
use leveldb_daemon.Prelude.Bytes.{Bytes, beq, blt, beq_iff, blt_irrefl, blt_trans, blt_total}

abbrev pub Entry : Type 0
Entry = Bytes × Bytes

unfoldable pub find : Bytes → List Entry → Option Bytes
find k [] = none
find k ((j, v) ∷ es) = if beq j k then some v else find k es

-- The list with the value of `k` set.
unfoldable pub insert : Bytes → Bytes → List Entry → List Entry
insert k v [] = (k, v) ∷ []
insert k v ((j, w) ∷ es) =
    let rest = insert k v es in
    if blt k j then (k, v) ∷ (j, w) ∷ es else if beq j k then (k, v) ∷ es else (j, w) ∷ rest

-- The list without the key `k`.
unfoldable pub remove : Bytes → List Entry → List Entry
remove k [] = []
remove k ((j, v) ∷ es) = let rest = remove k es in if beq j k then rest else (j, v) ∷ rest

-- The entries whose keys are `k` or above, of a sorted list.
unfoldable pub from_key : Bytes → List Entry → List Entry
from_key k [] = []
from_key k ((j, v) ∷ es) = let rest = from_key k es in if blt j k then rest else (j, v) ∷ es

-- Every key lies above `k`.
abbrev pub Above : Bytes → List Entry → Type 0
Above k [] = Unit {0}
Above k ((j, v) ∷ es) = (blt k j ≡ true) × Above k es

abbrev pub IsSorted : List Entry → Type 0
IsSorted [] = Unit {0}
IsSorted ((k, v) ∷ es) = Above k es × IsSorted es

pub Above-trans : (j k : Bytes) (es : List Entry) → blt j k ≡ true → Above k es → Above j es
Above-trans j k [] h a = tt
Above-trans j k ((i, v) ∷ es) h a = (blt_trans j k i h a.0, Above-trans j k es h a.1)

pub insert-Above :
    (j k v : Bytes) (es : List Entry) → blt j k ≡ true → Above j es → Above j (insert k v es)
unfolding insert
insert-Above j k v [] h a = (h, tt)
insert-Above j k v ((i, w) ∷ es) h a = ground (arith, insert-Above j k v es h a.1)

pub insert-IsSorted : (k v : Bytes) (es : List Entry) → IsSorted es → IsSorted (insert k v es)
unfolding insert
insert-IsSorted k v [] s = (tt, tt)
insert-IsSorted k v ((j, w) ∷ es) s = ground (
  arith,
  insert-IsSorted k v es s.1,
  insert-Above j k v es,
  Above-trans k j es,
  blt_total k j,
  beq_iff j k,
)

pub remove-Above : (j k : Bytes) (es : List Entry) → Above j es → Above j (remove k es)
unfolding remove
remove-Above j k [] a = tt
remove-Above j k ((i, v) ∷ es) a = ground (arith, remove-Above j k es a.1)

pub remove-IsSorted : (k : Bytes) (es : List Entry) → IsSorted es → IsSorted (remove k es)
unfolding remove
remove-IsSorted k [] s = tt
remove-IsSorted k ((j, v) ∷ es) s =
    ground (arith, remove-IsSorted k es s.1, remove-Above j k es s.0)

pub find-Above : (k : Bytes) (es : List Entry) → Above k es → find k es ≡ none
unfolding find
find-Above k [] a = refl
find-Above k ((j, v) ∷ es) a = ground (arith, find-Above k es a.1, beq_iff j k, blt_irrefl k)

pub find-insert :
    (k j v : Bytes) (es : List Entry)
    → find j (insert k v es) ≡ (if beq k j then some v else find j es)
unfolding find insert
find-insert k j v [] = refl
find-insert k j v ((i, w) ∷ es) =
    ground (arith, find-insert k j v es, beq_iff k j, beq_iff i k, beq_iff i j)

pub find-remove :
    (k j : Bytes) (es : List Entry) → find j (remove k es) ≡ (if beq k j then none else find j es)
unfolding find remove
find-remove k j [] = ground arith
find-remove k j ((i, w) ∷ es) =
    ground (arith, find-remove k j es, beq_iff k j, beq_iff i k, beq_iff i j)

pub from_key-Above : (j k : Bytes) (es : List Entry) → Above j es → Above j (from_key k es)
unfolding from_key
from_key-Above j k [] a = tt
from_key-Above j k ((i, v) ∷ es) a = ground (arith, from_key-Above j k es a.1)

pub from_key-IsSorted : (k : Bytes) (es : List Entry) → IsSorted es → IsSorted (from_key k es)
unfolding from_key
from_key-IsSorted k [] s = tt
from_key-IsSorted k ((j, v) ∷ es) s = ground (arith, from_key-IsSorted k es s.1)
