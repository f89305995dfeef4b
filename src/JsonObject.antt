-- ===== src/JsonObject.antt =====
-- common/aj_type_list_inst.hpp: the JSON serializer of an object with a list of members,
-- `serializerTT<L>`. `V` is the sum of the members' types; a member's own serializer, and the parser of
-- the library fas (`fas::json::parser`), are parameters.
pub mod RoundTrip
pub mod Progress
use leveldb_daemon.Prelude.{
  ℕ, zero, suc, ◌+◌, Bool, true, false, not, ◌&&◌, Option, none, some, List, [], ◌∷◌, ◌++◌, ◌==◌,
  if◌then◌else◌, drop, length, is_empty,
}
use leveldb_daemon.Prelude.Bytes.{Bytes, beq, codes}
use leveldb_daemon.Prelude.Exec.{Result, ok, throw, Exec, pure, raise, ◌>>=◌, ◌>>◌}
use leveldb_daemon.StringValue.{
  StringError, unexpected_end_fragment, expected_of, out_of_fuel, Parser, quote,
}

-- A member: its name, and `json_type::serializer`.
pub record Field (V : Type 0) : Type 0 where
  pub name : Bytes
  pub print : V → Bytes
  pub parse : V → Parser V

-- What the file calls of `fas::json::parser`.
pub record JsonParser : Type 0 where
  pub is_null : Bytes → Bool
  pub parse_null : Parser (Unit {0})
  pub parse_space : Parser (Unit {0})
  pub is_string : Bytes → Bool
  pub parse_member : Parser (Unit {0})

-- if (beg==end) throw unexpected_end_fragment();
abbrev pub not_at_end : Parser (Unit {0})
not_at_end [] = raise unexpected_end_fragment []
not_at_end (c ∷ s) = pure tt (c ∷ s)

-- if (*(beg++) != c) throw expected_of(...);
abbrev pub expect : ℕ → Parser (Unit {0})
expect c [] = raise unexpected_end_fragment []
expect c (d ∷ s) = if d == c then pure tt s else raise expected_of (d ∷ s)

-- The loop of `unserialize_member_name`: what is left of the name and of the text.
unfoldable pub strip_name : Bytes → Bytes → Bytes × Bytes
strip_name [] s = ([], s)
strip_name (c ∷ n) [] = (c ∷ n, [])
strip_name (c ∷ n) (d ∷ s) =
    let rest = strip_name n s in if c == d && not (d == quote) then rest else (c ∷ n, d ∷ s)

module _ {V : Type 0} where
  -- serialize_member
  unfoldable pub serialize_member : Field V × V → Bytes
  serialize_member (f, v) = (quote ∷ f.name ++ quote ∷ b':' ∷ []) ++ f.print v

  -- serialize_members
  unfoldable pub serialize_members : List (Field V × V) → Bool → Bytes
  unfolding serialize_member
  serialize_members [] first = []
  serialize_members (m ∷ ms) first =
      (if first then [] else b',' ∷ []) ++ serialize_member m ++ serialize_members ms false

  -- operator() (const L&, P)
  unfoldable pub print_object : List (Field V × V) → Bytes
  unfolding serialize_members
  print_object ms = b'{' ∷ serialize_members ms true ++ b'}' ∷ []

  -- The assignment to the member at a place.
  abbrev pub set_at : ℕ → V → List (Field V × V) → List (Field V × V)
  set_at i v [] = []
  set_at zero v ((f, w) ∷ ms) = (f, v) ∷ ms
  set_at (suc i) v (m ∷ ms) = m ∷ set_at i v ms

module _ (P : JsonParser) where
  -- The end of `unserialize_member_name`, behind the name.
  abbrev pub behind_name : Parser Bool
  behind_name =
      P.parse_space >> not_at_end >> expect b':' >> P.parse_space >> not_at_end >> pure true

  -- Whether the name was the text's, `start` being where the name began.
  abbrev pub name_found : Bytes → Bytes × Bytes → Result StringError Bool × Bytes
  name_found start (n, []) = raise unexpected_end_fragment []
  name_found start (n, d ∷ s) = if d == quote && is_empty n then behind_name s else pure false start

  -- unserialize_member_name
  unfoldable pub unserialize_member_name : Bytes → Parser Bool
  unfolding strip_name
  unserialize_member_name name [] = raise expected_of []
  unserialize_member_name name (c ∷ s) =
      if P.is_string (c ∷ s)
      then name_found (c ∷ s) (strip_name name s)
      else raise expected_of (c ∷ s)

module _ (P : JsonParser) {V : Type 0} where
  -- The search of `unserialize_member` through the members from the one at `i` on.
  unfoldable pub find_member : List (Field V × V) → ℕ → Parser (Option ℕ)
  unfolding unserialize_member_name
  find_member [] i = pure none
  find_member ((f, v) ∷ ms) i =
      let rest = find_member ms (suc i) in
      unserialize_member_name P f.name >>= λ found. if found then pure (some i) else rest

  -- serializer(current.value, beg, end), for the member at `i`
  unfoldable pub parse_at : ℕ → List (Field V × V) → Parser (List (Field V × V))
  parse_at i ms s = elim (drop i ms) [
    | [] ↦ pure ms s
    | (f, v) ∷ rest ↦ (f.parse v >>= λ w. pure (set_at i w ms)) s
  ]

  -- The tests behind a member: the end of the object, or a comma and what follows it.
  abbrev pub next_member :
      List (Field V × V) → Parser (List (Field V × V)) → Parser (List (Field V × V))
  next_member ms rest [] = raise unexpected_end_fragment []
  next_member ms rest (c ∷ s) =
      if c == b'}' then pure ms (c ∷ s) else if c == b',' then rest s else raise expected_of (c ∷ s)

  -- unserialize_members and unserialize_member; `k` is the place of `current` in `full`. The rounds are
  -- those of the calls of each other.
  unfoldable pub unserialize_members : ℕ → ℕ → List (Field V × V) → Parser (List (Field V × V))
  unfolding find_member parse_at
  unserialize_members zero k ms = raise out_of_fuel
  unserialize_members (suc fuel) k ms = find_member (drop k ms) k >>= λ here.
      (elim here as (λ o. Parser (Option ℕ)) [ some i ↦ pure (some i) | none ↦ find_member ms 0 ])
      >>= λ found. elim found as (λ o. Parser (List (Field V × V))) [
        | some i ↦ parse_at i ms >>= λ ms'. next_member ms' (unserialize_members fuel (suc i) ms')
        | none ↦
            P.parse_member
            >> P.parse_space
            >> next_member ms (P.parse_space >> unserialize_members fuel k ms)
      ]

  -- The body of the object, and the brace that closes it.
  abbrev pub object_body : ℕ → List (Field V × V) → Parser (List (Field V × V))
  object_body fuel ms [] = raise unexpected_end_fragment []
  object_body fuel ms (c ∷ s) =
      if c == b'}'
      then pure ms s
      else (unserialize_members fuel 0 ms >>= λ ms'.
            not_at_end >> P.parse_space >> not_at_end >> expect b'}' >> pure ms')
          (c ∷ s)

  -- operator() (L&, P, P); the text of an empty array is taken for an empty object
  unfoldable pub parse_object : List (Field V × V) → Parser (List (Field V × V))
  unfolding unserialize_members
  parse_object ms s =
      if P.is_null s
      then (P.parse_null >> pure ms) s
      else if beq s (codes "[]")
      then pure ms []
      else (expect b'{' >> P.parse_space >> object_body (suc (length s)) ms) s
