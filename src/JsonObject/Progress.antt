-- ===== src/JsonObject/Progress.antt =====
-- common/aj_type_list_inst.hpp: the rounds that the loop over the members is given are enough.
use leveldb_daemon.Prelude.{
  ℕ, zero, suc, ◌<◌, ◌≤◌, ◌≡◌, refl, ap, sym, subst, ◌∙◌, ◌⊎◌, true, false, ◌&&◌, Option, none,
  some, List, [], ◌∷◌, ◌==◌, if◌then◌else◌, length, drop, is_empty, arith, Bool-cases, inl, inr,
}
use leveldb_daemon.Prelude.Bytes.{Bytes, beq, codes}
use leveldb_daemon.Prelude.Exec.{ok, pure, ◌>>=◌, ◌>>◌, Result-cases}
use leveldb_daemon.StringValue.{Parser, quote}
use leveldb_daemon.StringValue.Progress.{ran_out, Leaves, Leaves-bind}
use leveldb_daemon.JsonObject.{
  Field, JsonParser, not_at_end, expect, strip_name, behind_name, name_found,
  unserialize_member_name, find_member, set_at, parse_at, next_member, unserialize_members,
  object_body, parse_object,
}

-- The parsers of the library leave no more than they were given.
pub record Consuming (P : JsonParser) : Type 0 where
  pub parse_null-Leaves : (s : Bytes) → Leaves (length s) (P.parse_null s)
  pub parse_space-Leaves : (s : Bytes) → Leaves (length s) (P.parse_space s)
  pub parse_member-Leaves : (s : Bytes) → Leaves (length s) (P.parse_member s)

-- So do those of the members.
abbrev pub AllConsuming : {V : Type 0} → List (Field V × V) → Type 0
AllConsuming [] = Unit {0}
AllConsuming {V} ((f, v) ∷ ms) =
    ((w : V) (s : Bytes) → Leaves (length s) (f.parse w s)) × AllConsuming ms

-- A sequence leaves no more than was given if its parts do so, the second one on what the first one gave.
Leaves-bind_ok {ℓ κ} :
    {A : Type ℓ} {B : Type κ} (m : Parser A) (f : A → Parser B) (s : Bytes)
    → Leaves (length s) (m s)
    → ((a : A) → (m s).0 ≡ ok a → Leaves (length (m s).1) (f a (m s).1))
    → Leaves (length s) ((m >>= f) s)
Leaves-bind_ok m f s h g = elim (Result-cases (m s).0) [
  | inl (a, e) ↦ let (x, y) = g a e in (rw e x, rw e (omega (arith, y, h.1)))
  | inr (x, e) ↦ (rw e (ap ran_out (sym e) ∙ h.0), rw e (h.1))
]

not_at_end-Leaves : (s : Bytes) → Leaves (length s) (not_at_end s)
not_at_end-Leaves [] = (refl, omega arith)
not_at_end-Leaves (c ∷ s) = (refl, omega arith)

expect-Leaves : (c : ℕ) (s : Bytes) → Leaves (length s) (expect c s)
expect-Leaves c [] = (refl, omega arith)
expect-Leaves c (d ∷ s) = (ground arith, ground arith)

strip_name-length : (n s : Bytes) → length (strip_name n s).1 ≤ length s
unfolding strip_name
strip_name-length [] s = omega arith
strip_name-length (c ∷ n) [] = omega arith
strip_name-length (c ∷ n) (d ∷ s) = ground (arith, strip_name-length n s)

-- Two parts with nothing handed over.
Leaves-then {ℓ κ} :
    {A : Type ℓ} {B : Type κ} (m : Parser A) (n : Parser B) (s : Bytes)
    → Leaves (length s) (m s)
    → Leaves (length (m s).1) (n (m s).1)
    → Leaves (length s) ((m >> n) s)
Leaves-then m n s h k = Leaves-bind_ok m (λ a. n) s h (λ a e. k)

module _ (P : JsonParser) (C : Consuming P) where
  behind_name-Leaves : (s : Bytes) → Leaves (length s) (behind_name P s)
  behind_name-Leaves s =
      Leaves-bind (P.parse_space >> not_at_end >> expect b':' >> P.parse_space >> not_at_end)
        (λ u. pure true) s
        (Leaves-bind (P.parse_space >> not_at_end >> expect b':' >> P.parse_space) (λ u. not_at_end)
          s
          (Leaves-bind (P.parse_space >> not_at_end >> expect b':') (λ u. P.parse_space) s
            (Leaves-bind (P.parse_space >> not_at_end) (λ u. expect b':') s
              (Leaves-bind P.parse_space (λ u. not_at_end) s (C.parse_space-Leaves s)
                (λ u. not_at_end-Leaves))
              (λ u. expect-Leaves b':'))
            (λ u. C.parse_space-Leaves))
          (λ u. not_at_end-Leaves))
        (λ u t. (refl, omega arith))

  name_found-Leaves :
      (start n s : Bytes)
      → length s ≤ length start
      → Leaves (length start) (name_found P start (n, s))
  name_found-Leaves start n [] h = (refl, omega arith)
  name_found-Leaves start n (d ∷ s) h = elim (Bool-cases (d == quote && is_empty n)) [
    | inl e ↦ (ground (arith, e, behind_name-Leaves s), ground (arith, e, behind_name-Leaves s))
    | inr e ↦ (ground (arith, e), ground (arith, e))
  ]

  unserialize_member_name-Leaves :
      (name s : Bytes) → Leaves (length s) (unserialize_member_name P name s)
  unfolding unserialize_member_name
  unserialize_member_name-Leaves name [] = (refl, omega arith)
  unserialize_member_name-Leaves name (c ∷ s) =
      let found =
        name_found-Leaves (c ∷ s) (strip_name name s).0 (strip_name name s).1
          (omega (arith, strip_name-length name s)) in
      elim (Bool-cases (P.is_string (c ∷ s))) [
        | inl e ↦ (ground (arith, e, found), ground (arith, e, found))
        | inr e ↦ (ground (arith, e), ground (arith, e))
      ]

module _ (P : JsonParser) (C : Consuming P) {V : Type 0} where
  find_member-Leaves :
      (ms : List (Field V × V)) (i : ℕ) (s : Bytes) → Leaves (length s) (find_member P ms i s)
  unfolding find_member
  find_member-Leaves [] i s = (refl, omega arith)
  find_member-Leaves ((f, v) ∷ ms) i s =
      Leaves-bind (unserialize_member_name P f.name)
        (λ found. if found then pure (some i) else find_member P ms (suc i)) s
        (unserialize_member_name-Leaves P C f.name s)
        (λ found t. (
          ground (arith, find_member-Leaves ms (suc i) t),
          ground (arith, find_member-Leaves ms (suc i) t),
        ))

  drop-AllConsuming : (i : ℕ) (ms : List (Field V × V)) → AllConsuming ms → AllConsuming (drop i ms)
  drop-AllConsuming zero ms h = h
  drop-AllConsuming (suc i) [] h = h
  drop-AllConsuming (suc i) ((f, v) ∷ ms) h = drop-AllConsuming i ms h.1

  set_at-AllConsuming :
      (i : ℕ) (w : V) (ms : List (Field V × V)) → AllConsuming ms → AllConsuming (set_at i w ms)
  set_at-AllConsuming i w [] h = h
  set_at-AllConsuming zero w ((f, v) ∷ ms) h = h
  set_at-AllConsuming (suc i) w ((f, v) ∷ ms) h = (h.0, set_at-AllConsuming i w ms h.1)

  List-cases :
      (ms : List (Field V × V))
      → (ms ≡ []) ⊎ ((f : Field V) × (v : V) × (rest : List (Field V × V)) × (ms ≡ (f, v) ∷ rest))
  List-cases [] = inl refl
  List-cases ((f, v) ∷ rest) = inr (f, v, rest, refl)

  parse_at-Leaves :
      (i : ℕ) (ms : List (Field V × V)) (s : Bytes)
      → AllConsuming ms
      → Leaves (length s) (parse_at P i ms s)
  unfolding parse_at
  parse_at-Leaves i ms s h = elim (List-cases (drop i ms)) [
    | inl e ↦ rw (e, parse_at) (refl, omega arith)
    | inr (f, v, rest, e) ↦
        let quiet : AllConsuming ((f, v) ∷ rest) =
          subst AllConsuming e (drop-AllConsuming i ms h) in
        rw (e, parse_at)
          (Leaves-bind (f.parse v) (λ w. pure (set_at i w ms)) s (quiet.0 v s)
            (λ w t. (refl, omega arith)))
  ]

  parse_at-AllConsuming :
      (i : ℕ) (ms ms' : List (Field V × V)) (s : Bytes)
      → AllConsuming ms
      → (parse_at P i ms s).0 ≡ ok ms'
      → AllConsuming ms'
  unfolding parse_at
  parse_at-AllConsuming i ms ms' s h e = elim (List-cases (drop i ms)) [
    | inl d ↦ subst AllConsuming (ground (arith, d)) h
    | inr (f, v, rest, d) ↦ elim (Result-cases (f.parse v s).0) [
      | inl (w, p) ↦ subst AllConsuming (ground (arith, d, p)) (set_at-AllConsuming i w ms h)
      | inr (x, p) ↦ absurd (ground (arith, d, p))
    ]
  ]

  -- `next_member` consumes a comma before the rest.
  next_member-Leaves :
      (ms : List (Field V × V)) (rest : Parser (List (Field V × V))) (s : Bytes)
      → ((t : Bytes) → length t < length s → Leaves (length t) (rest t))
      → Leaves (length s) (next_member P ms rest s)
  next_member-Leaves ms rest [] h = (refl, omega arith)
  next_member-Leaves ms rest (c ∷ s) h =
      let more = h s (omega arith) in (ground (arith, more), ground (arith, more))

  -- What follows the search, where the loop's next rounds end.
  module _ (fuel : ℕ)
      (ih : (k : ℕ) (ms : List (Field V × V)) (s : Bytes)
        → AllConsuming ms
        → length s < fuel
        → Leaves (length s) (unserialize_members P fuel k ms s)) where
    known-Leaves :
        (i : ℕ) (ms : List (Field V × V)) (s : Bytes)
        → AllConsuming ms
        → length s ≤ fuel
        → Leaves (length s) (
            (parse_at P i ms >>= λ ms'. next_member P ms' (unserialize_members P fuel (suc i) ms'))
              s)
    known-Leaves i ms s h l =
        let parsed = parse_at-Leaves i ms s h in
        Leaves-bind_ok (parse_at P i ms) _ s parsed (λ ms' e.
          next_member-Leaves ms' (unserialize_members P fuel (suc i) ms') (parse_at P i ms s).1
            (λ t shorter.
              ih (suc i) ms' t (parse_at-AllConsuming i ms ms' s h e)
                (omega (arith, shorter, parsed.1, l))))

    unknown-Leaves :
        (k : ℕ) (ms : List (Field V × V)) (s : Bytes)
        → AllConsuming ms
        → length s ≤ fuel
        → Leaves (length s) (
            (P.parse_member
                >> P.parse_space
                >> next_member P ms (P.parse_space >> unserialize_members P fuel k ms))
              s)
    unknown-Leaves k ms s h l =
        let skipped =
          Leaves-bind P.parse_member (λ u. P.parse_space) s (C.parse_member-Leaves s)
            (λ u. C.parse_space-Leaves) in
        Leaves-bind_ok (P.parse_member >> P.parse_space) _ s skipped (λ u e.
          next_member-Leaves ms (P.parse_space >> unserialize_members P fuel k ms)
            ((P.parse_member >> P.parse_space) s).1
            (λ t shorter.
              Leaves-then P.parse_space (unserialize_members P fuel k ms) t (C.parse_space-Leaves t)
                (ih k ms (P.parse_space t).1 h
                  (omega (arith, (C.parse_space-Leaves t).1, shorter, skipped.1, l)))))

    found-Leaves :
        (k : ℕ) (ms : List (Field V × V)) (found : Option ℕ) (s : Bytes)
        → AllConsuming ms
        → length s ≤ fuel
        → Leaves (length s) (
            (elim found as (λ o. Parser (List (Field V × V))) [
              | some i ↦ parse_at P i ms >>= λ ms'.
                  next_member P ms' (unserialize_members P fuel (suc i) ms')
              | none ↦
                  P.parse_member
                  >> P.parse_space
                  >> next_member P ms (P.parse_space >> unserialize_members P fuel k ms)
            ])
              s)
    found-Leaves k ms none s h l = unknown-Leaves k ms s h l
    found-Leaves k ms (some i) s h l = known-Leaves i ms s h l

  second-Leaves :
      (ms : List (Field V × V)) (here : Option ℕ) (s : Bytes)
      → Leaves (length s) (
          (elim here as (λ o. Parser (Option ℕ)) [
            | some i ↦ pure (some i)
            | none ↦ find_member P ms 0
          ])
            s)
  second-Leaves ms none s = find_member-Leaves ms 0 s
  second-Leaves ms (some i) s = (refl, omega arith)

  unserialize_members-Leaves :
      (fuel k : ℕ) (ms : List (Field V × V)) (s : Bytes)
      → AllConsuming ms
      → length s < fuel
      → Leaves (length s) (unserialize_members P fuel k ms s)
  unfolding unserialize_members
  unserialize_members-Leaves zero k ms s h l = absurd (omega arith)
  unserialize_members-Leaves (suc fuel) k ms s h l =
      let first = find_member-Leaves (drop k ms) k s in
      Leaves-bind_ok (find_member P (drop k ms) k) _ s first (λ here e.
        let t = (find_member P (drop k ms) k s).1 in
        let second = second-Leaves ms here t in
        Leaves-bind_ok
          (elim here as (λ o. Parser (Option ℕ)) [
            | some i ↦ pure (some i)
            | none ↦ find_member P ms 0
          ])
          _ t second
          (λ found d.
            found-Leaves fuel (unserialize_members-Leaves fuel) k ms found _ h
              (omega (arith, first.1, second.1, l))))

  close_object-Leaves :
      (ms : List (Field V × V)) (s : Bytes)
      → Leaves (length s) ((not_at_end >> P.parse_space >> not_at_end >> expect b'}' >> pure ms) s)
  close_object-Leaves ms s =
      Leaves-bind (not_at_end >> P.parse_space >> not_at_end >> expect b'}') (λ u. pure ms) s
        (Leaves-bind (not_at_end >> P.parse_space >> not_at_end) (λ u. expect b'}') s
          (Leaves-bind (not_at_end >> P.parse_space) (λ u. not_at_end) s
            (Leaves-bind not_at_end (λ u. P.parse_space) s (not_at_end-Leaves s)
              (λ u. C.parse_space-Leaves))
            (λ u. not_at_end-Leaves))
          (λ u. expect-Leaves b'}'))
        (λ u t. (refl, omega arith))

  object_body-Leaves :
      (fuel : ℕ) (ms : List (Field V × V)) (s : Bytes)
      → AllConsuming ms
      → length s < fuel
      → Leaves (length s) (object_body P fuel ms s)
  object_body-Leaves fuel ms [] h l = (refl, omega arith)
  object_body-Leaves fuel ms (c ∷ s) h l =
      let members =
        Leaves-bind (unserialize_members P fuel 0 ms)
          (λ ms'. not_at_end >> P.parse_space >> not_at_end >> expect b'}' >> pure ms') (c ∷ s)
          (unserialize_members-Leaves fuel 0 ms (c ∷ s) h l) close_object-Leaves in
      elim (Bool-cases (c == b'}')) [
        | inl e ↦ (ground (arith, e), ground (arith, e))
        | inr e ↦ (ground (arith, e, members), ground (arith, e, members))
      ]

  -- The parser of an object ends on every text: it returns or throws one of its exceptions, and leaves at
  -- most the text it was given; where the parsers of the members and of the library do so.
  pub parse_object_ends :
      (ms : List (Field V × V)) (s : Bytes)
      → AllConsuming ms
      → (ran_out (parse_object P ms s).0 ≡ false) × (length (parse_object P ms s).1 ≤ length s)
  unfolding parse_object
  parse_object_ends ms s h =
      let null =
        Leaves-bind P.parse_null (λ u. pure ms) s (C.parse_null-Leaves s)
          (λ u t. (refl, omega arith)) in
      let opened =
        Leaves-bind (expect b'{') (λ u. P.parse_space) s (expect-Leaves b'{' s)
          (λ u. C.parse_space-Leaves) in
      let body =
        Leaves-bind_ok (expect b'{' >> P.parse_space) (λ u. object_body P (suc (length s)) ms) s
          opened
          (λ u e.
            object_body-Leaves (suc (length s)) ms ((expect b'{' >> P.parse_space) s).1 h
              (omega (arith, opened.1))) in
      elim (Bool-cases (P.is_null s)) [
        | inl e ↦ (rw (e, parse_object) null.0, rw (e, parse_object) null.1)
        | inr e ↦ elim (Bool-cases (beq s (codes "[]"))) [
          | inl b ↦ (rw (e, b, parse_object) refl, rw (e, b, parse_object) (omega arith))
          | inr b ↦ (rw (e, b, parse_object) body.0, rw (e, b, parse_object) body.1)
        ]
      ]
