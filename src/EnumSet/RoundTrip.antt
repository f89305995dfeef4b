-- ===== src/EnumSet/RoundTrip.antt =====
-- common/json_set.hpp: reading a set that was written.
use Prim.Native.Nat.{bit_and, bit_or}
use leveldb_daemon.Prelude.{
  ℕ, zero, suc, ◌+◌, ◌≤◌, ◌<◌, ◌≡◌, refl, ap, subst, ◌∙◌, Bool, true, false, not, ◌&&◌, some, List,
  [], ◌∷◌, ◌++◌, ◌==◌, length, arith, keep, Bool-cases, inl, inr, length-append,
}
use mathlib.Core.List.{append_assoc}
use leveldb_daemon.Prelude.Bytes.{Bytes, beq, beq_comm}
use leveldb_daemon.Prelude.Exec.{ok}
use leveldb_daemon.EnumSet.{
  Enumerator, members, print_set, strip, one_of, deserialize_one, until_quote, array_loop,
  skip_space, open_array, parse_set, quote, comma,
}

-- A name without quotes and commas.
abbrev pub plain_name : Bytes → Bool
plain_name [] = true
plain_name (c ∷ s) = not (c == quote) && not (c == comma) && plain_name s

abbrev pub unused_name : Bytes → List Enumerator → Bool
unused_name n [] = true
unused_name n (e ∷ es) = not (beq e.name n) && unused_name n es

-- A list of enumerators with such names, all different.
abbrev pub is_list : List Enumerator → Bool
is_list [] = true
is_list (e ∷ es) = plain_name e.name && unused_name e.name es && is_list es

-- The enumerators that share a bit with a set, and the set of their bits.
abbrev pub selected : ℕ → List Enumerator → List Enumerator
selected v es = keep (λ e. not (bit_and e.value v == 0)) es

abbrev pub union : ℕ → List Enumerator → ℕ
union v [] = v
union v (e ∷ es) = union (bit_or v e.value) es

strip_self : (n : Bytes) → strip n n ≡ ([], [])
unfolding strip
strip_self [] = refl
strip_self (c ∷ n) = ground (arith, strip_self n)

-- On the text of another name `deserialize_one` goes on to the next enumerator.
one_of-strip :
    (v value : ℕ) (m n : Bytes) (other : ℕ × Bytes)
    → beq m n ≡ false
    → plain_name n ≡ true
    → one_of v value (strip m n) other ≡ other
unfolding strip beq
one_of-strip v value [] [] other h p = absurd (ground arith)
one_of-strip v value [] (c ∷ n) other h p = ground arith
one_of-strip v value (c ∷ m) [] other h p = refl
one_of-strip v value (c ∷ m) (d ∷ n) other h p = ground (arith, one_of-strip v value m n other)

deserialize_own :
    (v : ℕ) (n : Bytes) (value : ℕ) (pre post : List Enumerator)
    → plain_name n ≡ true
    → unused_name n pre ≡ true
    → deserialize_one v (pre ++ record { value = value; name = n } ∷ post) n ≡ (bit_or v value, [])
unfolding deserialize_one
deserialize_own v n value [] post p u =
    ap (λ r. one_of v value r (deserialize_one v post n)) (strip_self n)
deserialize_own v n value (e ∷ pre) post p u =
    one_of-strip v e.value e.name n
      (deserialize_one v (pre ++ record { value = value; name = n } ∷ post) n) (ground arith) p
    ∙ deserialize_own v n value pre post p (ground arith)

until_quote-name : (n t : Bytes) → plain_name n ≡ true → until_quote (n ++ quote ∷ t) ≡ some (n, t)
unfolding until_quote
until_quote-name [] t p = refl
until_quote-name (c ∷ n) t p = ground (arith, until_quote-name n t)

-- What is written for a list of enumerators, the first one apart.
abbrev more_text : List Enumerator → Bytes
more_text [] = []
more_text (e ∷ es) = comma ∷ quote ∷ e.name ++ quote ∷ more_text es

-- `all` finds each enumerator of a list by its name.
Finds : List Enumerator → List Enumerator → Type 0
Finds all [] = Unit {0}
Finds all (e ∷ es) =
    (plain_name e.name ≡ true)
    × ((v : ℕ) → deserialize_one v all e.name ≡ (bit_or v e.value, []))
    × Finds all es

unused-append :
    (n : Bytes) (pre post : List Enumerator)
    → unused_name n (pre ++ post) ≡ (unused_name n pre && unused_name n post)
unused-append n [] post = refl
unused-append n (e ∷ pre) post = ground (arith, unused-append n pre post)

is_list-own :
    (pre post : List Enumerator) (e : Enumerator)
    → is_list (pre ++ e ∷ post) ≡ true
    → (plain_name e.name ≡ true) × (unused_name e.name pre ≡ true)
is_list-own [] post e h = (ground arith, refl)
is_list-own (d ∷ pre) post e h =
    let own = is_list-own pre post e (ground arith) in
    (own.0, ground (arith, own.1, unused-append d.name pre (e ∷ post), beq_comm d.name e.name))

selected-Finds :
    (v : ℕ) (pre es : List Enumerator)
    → is_list (pre ++ es) ≡ true
    → Finds (pre ++ es) (selected v es)
unfolding Finds
selected-Finds v pre [] h = tt
selected-Finds v pre (e ∷ es) h =
    let moved : (pre ++ e ∷ []) ++ es ≡ pre ++ e ∷ es = append_assoc pre (e ∷ []) es in
    let rest : Finds (pre ++ e ∷ es) (selected v es) =
      subst (λ all. Finds all (selected v es)) moved
        (selected-Finds v (pre ++ e ∷ []) es (ap is_list moved ∙ h)) in
    let own = is_list-own pre es e h in
    elim (Bool-cases (bit_and e.value v == 0)) [
      | inl absent ↦ rw absent rest
      | inr present ↦
          rw present (own.0, (λ u. deserialize_own u e.name e.value pre es own.0 own.1), rest)
    ]

array_loop_lem :
    (f : ℕ) (all : List Enumerator) (last v : ℕ) (e : Enumerator) (es : List Enumerator) (t : Bytes)
    → Finds all (e ∷ es)
    → length es + 1 < f
    → array_loop f all last v (quote ∷ (e.name ++ quote ∷ (more_text es ++ b']' ∷ t)))
      ≡ (ok (union v (e ∷ es)), b']' ∷ t)
unfolding array_loop Finds
array_loop_lem zero all last v e es t k h = absurd (omega arith)
array_loop_lem (suc zero) all last v e es t k h = absurd (omega arith)
array_loop_lem (suc (suc f)) all last v e [] t k h =
    ground (arith, until_quote-name e.name (b']' ∷ t) k.0, k.1 v)
array_loop_lem (suc (suc f)) all last v e (d ∷ es) t k h =
    let next = array_loop_lem (suc f) all comma (bit_or v e.value) d es t k.2 (omega (arith, h)) in
    let text = quote ∷ (d.name ++ quote ∷ (more_text es ++ b']' ∷ t)) in
    let moved : more_text (d ∷ es) ++ b']' ∷ t ≡ comma ∷ text =
      ap (λ u. comma ∷ quote ∷ u) (append_assoc d.name (quote ∷ more_text es) (b']' ∷ t)) in
    ground (arith, moved, until_quote-name e.name (comma ∷ text) k.0, k.1 v, next)

abbrev first_text : List Enumerator → Bytes
first_text [] = []
first_text (e ∷ es) = quote ∷ (e.name ++ quote ∷ more_text es)

members-more_text : (v : ℕ) (es : List Enumerator) → members v es false ≡ more_text (selected v es)
unfolding members
members-more_text v [] = refl
members-more_text v (e ∷ es) =
    ground (arith, members-more_text v es, append_assoc e.name (quote ∷ []) (members v es false))

members-first_text : (v : ℕ) (es : List Enumerator) → members v es true ≡ first_text (selected v es)
unfolding members
members-first_text v [] = refl
members-first_text v (e ∷ es) = ground (
  arith,
  members-first_text v es,
  members-more_text v es,
  append_assoc e.name (quote ∷ []) (members v es false),
)

length-more_text : (sel : List Enumerator) → length sel ≤ length (more_text sel)
length-more_text [] = omega arith
length-more_text (e ∷ sel) =
    omega (arith, length-more_text sel, length-append e.name (quote ∷ more_text sel))

open_array-first_text :
    (all sel : List Enumerator) (t : Bytes)
    → Finds all sel
    → open_array all (first_text sel ++ b']' ∷ t) ≡ (ok (union 0 sel), t)
open_array-first_text all [] t k = unfold array_loop in refl
open_array-first_text all (e ∷ sel) t k =
    let text = e.name ++ quote ∷ (more_text sel ++ b']' ∷ t) in
    let moved : first_text (e ∷ sel) ++ b']' ∷ t ≡ quote ∷ text =
      ap (λ u. quote ∷ u) (append_assoc e.name (quote ∷ more_text sel) (b']' ∷ t)) in
    let loop = array_loop_lem (suc (suc (length text))) all 32 0 e sel t k (
      omega (
        arith,
        length-append e.name (quote ∷ (more_text sel ++ b']' ∷ t)),
        length-append (more_text sel) (b']' ∷ t),
        length-more_text sel,
      )) in
    rw moved (ground (arith, loop))

-- A set that was written for a list of enumerators, whose names are all different and hold no quote and
-- no comma, is read back as the union of the enumerators that share a bit with it, whatever text follows.
pub parse_set-print_set :
    (es : List Enumerator) (v : ℕ) (t : Bytes)
    → is_list es ≡ true
    → parse_set es (print_set es v ++ t) ≡ (ok (union 0 (selected v es)), t)
unfolding parse_set skip_space print_set
parse_set-print_set es v t h =
    let read = open_array-first_text es (selected v es) t (selected-Finds v [] es h) in
    let written = members-first_text v es in rw (written, append_assoc) read
