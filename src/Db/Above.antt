-- ===== src/Db/Above.antt =====
-- The part of a sorted list above a key.
use leveldb_daemon.Prelude.{
  ◌≡◌, refl, ap, subst, inl, inr, Bool-cases, true, none, some, List, [], ◌∷◌, ◌++◌, ◌⊎◌, arith,
  if◌then◌else◌, ℕ, zero, suc, drop, take, length, ◌≤◌,
}
use leveldb_daemon.Prelude.Bytes.{
  Bytes, beq, blt, beq_iff, beq_refl, blt_irrefl, blt_trans, blt_total, blt_asymm, beq-false_of_blt,
}
use leveldb_daemon.Db.Entries.{Entry, find, from_key, Above, IsSorted, find-Above, Above-trans}

-- The entries whose keys lie above `k`.
unfoldable pub above : Bytes → List Entry → List Entry
above k [] = []
above k ((j, v) ∷ es) = let rest = above k es in if blt k j then (j, v) ∷ rest else rest

pub from_key-Above_self : (k : Bytes) (es : List Entry) → Above k es → from_key k es ≡ es
unfolding from_key
from_key-Above_self k [] a = refl
from_key-Above_self k ((j, v) ∷ es) a = ground (arith, blt_asymm k j a.0)

pub above-Above : (k : Bytes) (es : List Entry) → Above k es → above k es ≡ es
unfolding above
above-Above k [] a = refl
above-Above k ((j, v) ∷ es) a = ground (arith, above-Above k es a.1)

-- Seeking a key that is there stops at it.
pub from_key_found :
    (k v : Bytes) (es : List Entry)
    → IsSorted es
    → find k es ≡ some v
    → from_key k es ≡ (k, v) ∷ above k es
unfolding find from_key above
from_key_found k v [] s f = cc
from_key_found k v ((j, w) ∷ es) s f = elim (Bool-cases (beq j k)) [
  | inl same ↦
      let e : j ≡ k = (beq_iff j k).0 same in
      let a : Above k es = subst (λ t. Above t es) e s.0 in
      ground (arith, e, same, blt_irrefl k, above-Above k es a)
  | inr other ↦ elim (Bool-cases (blt j k)) [
    | inl below ↦ ground (arith, from_key_found k v es s.1, blt_asymm j k below)
    | inr not_below ↦ elim (Bool-cases (blt k j)) [
      | inl over ↦ ground (arith, find-Above k es (Above-trans k j es over s.0))
      | inr not_over ↦ ground (arith, (beq_iff j k).1 (blt_total j k not_below not_over))
    ]
  ]
]

-- Below every key of an append lies below every key of its parts.
pub Above-append : (k : Bytes) (xs ys : List Entry) → Above k (xs ++ ys) → Above k xs × Above k ys
Above-append k [] ys a = (tt, a)
Above-append k ((j, v) ∷ xs) ys a = let (l, r) = Above-append k xs ys a.1 in ((a.0, l), r)

pub IsSorted-drop : (n : ℕ) (es : List Entry) → IsSorted es → IsSorted (drop n es)
IsSorted-drop zero es s = s
IsSorted-drop (suc n) [] s = tt
IsSorted-drop (suc n) ((k, v) ∷ es) s = IsSorted-drop n es s.1

-- data.back().first, of what is not empty
abbrev pub last_key : Bytes → List Entry → Bytes
last_key k [] = k
last_key k ((j, v) ∷ es) = last_key j es

pub last_key-append :
    (k : Bytes) (xs ys : List Entry) → last_key k (xs ++ ys) ≡ last_key (last_key k xs) ys
last_key-append k [] ys = refl
last_key-append k ((j, v) ∷ xs) ys = last_key-append j xs ys

-- The last key of a first part that is not empty is found, and above it lies the second part.
pub last_key_found :
    (j v : Bytes) (pre post : List Entry)
    → IsSorted ((j, v) ∷ pre ++ post)
    → (w : Bytes) × (find (last_key j pre) ((j, v) ∷ pre ++ post) ≡ some w)
      × (above (last_key j pre) ((j, v) ∷ pre ++ post) ≡ post)
      × ((j ≡ last_key j pre) ⊎ (blt j (last_key j pre) ≡ true))
unfolding find above
last_key_found j v [] post s =
    (v, ground (arith, beq_refl j), ground (arith, blt_irrefl j, above-Above j post s.0), inl refl)
last_key_found j v ((i, u) ∷ pre) post s =
    let (w, f, a, o) = last_key_found i u pre post s.1 in
    let lower : blt j (last_key i pre) ≡ true =
      ground (arith, o, s.0.0, blt_trans j i (last_key i pre)) in
    (
      w,
      ground (arith, f, beq-false_of_blt j (last_key i pre) lower),
      ground (arith, a, blt_asymm j (last_key i pre) lower),
      inr lower,
    )

-- Where a seek for a key that is not there stops.
pub from_key_stops :
    (k : Bytes) (es : List Entry) (x : Entry) (rest : List Entry)
    → IsSorted es
    → find k es ≡ none
    → from_key k es ≡ x ∷ rest
    → (blt k x.0 ≡ true) × (find x.0 es ≡ some x.1)
unfolding find from_key
from_key_stops k [] x rest s f e = absurd (ground arith)
from_key_stops k ((j, v) ∷ es) x rest s f e = elim (Bool-cases (blt j k)) [
  | inl lower ↦
      let e' : from_key k es ≡ x ∷ rest = ground arith in
      let f' : find k es ≡ none = ground arith in
      let (o, g) = from_key_stops k es x rest s.1 f' e' in
      (o, ground (arith, beq-false_of_blt j x.0 (blt_trans j k x.0 lower o)))
  | inr stop ↦
      let key : j ≡ x.0 = ground arith in
      let value : v ≡ x.1 = ground arith in
      let over : blt k j ≡ true = elim (Bool-cases (blt k j)) [
        | inl o ↦ o
        | inr no_o ↦ ground (arith, (beq_iff j k).1 (blt_total j k stop no_o))
      ] in
      (ground (arith, key, over), ground (arith, key, value, beq_refl j, ap (λ t. beq j t) key))
]

pub find-above_key :
    (k j : Bytes) (es : List Entry) → find j (above k es) ≡ (if blt k j then find j es else none)
unfolding find above
find-above_key k j [] = ground arith
find-above_key k j ((i, v) ∷ es) = ground (arith, find-above_key k j es, beq_iff i j)

-- What lies above a key is above it, in any first part too.
pub Above-above : (k : Bytes) (es : List Entry) → Above k (above k es)
unfolding above
Above-above k [] = tt
Above-above k ((j, v) ∷ es) = ground (arith, Above-above k es)

pub Above-take : (k : Bytes) (n : ℕ) (es : List Entry) → Above k es → Above k (take n es)
Above-take k zero es a = tt
Above-take k (suc n) [] a = tt
Above-take k (suc n) ((j, v) ∷ es) a = (a.0, Above-take k n es a.1)

pub length-above : (k : Bytes) (es : List Entry) → length (above k es) ≤ length es
unfolding above
length-above k [] = omega arith
length-above k ((j, v) ∷ es) = ground (arith, length-above k es)

-- A sorted list falls into the entries up to a key that it has, and those above.
pub split_at :
    (k v : Bytes) (es : List Entry)
    → IsSorted es
    → find k es ≡ some v
    → (pre : List Entry) × (es ≡ pre ++ above k es) × ((b : Bytes) → last_key b pre ≡ k)
unfolding find above
split_at k v [] s f = cc
split_at k v ((j, w) ∷ es) s f = elim (Bool-cases (beq j k)) [
  | inl same ↦
      let e : j ≡ k = (beq_iff j k).0 same in
      let a : Above k es = subst (λ t. Above t es) e s.0 in
      ((j, w) ∷ [], ground (arith, e, blt_irrefl k, above-Above k es a), λ b. e)
  | inr other ↦ elim (Bool-cases (blt k j)) [
    | inl over ↦ absurd (ground (arith, find-Above k es (Above-trans k j es over s.0)))
    | inr not_over ↦
        let f' : find k es ≡ some v = ground arith in
        let (pre, e, l) = split_at k v es s.1 f' in ((j, w) ∷ pre, ground (arith, e), λ b. l j)
  ]
]
