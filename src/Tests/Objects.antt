-- ===== src/Tests/Objects.antt =====
-- Sets of flags and objects with members.
use leveldb_daemon.Prelude.{length, ◌≤◌, ◌≡◌, refl, Bool, false, List, [], ◌∷◌, ◌++◌, ◌==◌, arith}
use leveldb_daemon.Prelude.Bytes.{Bytes, codes, beq}
use leveldb_daemon.Prelude.Exec.{ok, throw}
use leveldb_daemon.EnumSet.{Enumerator, parse_set, print_set}
use leveldb_daemon.EnumSet.RoundTrip.{union, selected, parse_set-print_set}
use leveldb_daemon.StringValue.{Parser, expected_of, quote, serialize, parse_value, body, escaped}
use leveldb_daemon.StringValue.RoundTrip.{IsEncoded, one, nothing, parse_value-serialize}
use leveldb_daemon.JsonObject.{Field, JsonParser, parse_object, print_object}
use leveldb_daemon.StringValue.Progress.{ran_out, Leaves}
use leveldb_daemon.JsonObject.Progress.{Consuming, parse_object_ends}
use leveldb_daemon.JsonObject.RoundTrip.{Documented, Readable, parse_object-print_object}
use leveldb_daemon.Tests.Strings.{begins_null, skip_null}

abbrev flags : List Enumerator
flags =
    record { value = 1; name = codes "read" }
    ∷ record { value = 2; name = codes "write" }
    ∷ record { value = 4; name = codes "erase" }
    ∷ []

parse_set-print_set_example :
    parse_set flags (print_set flags 5 ++ codes "!") ≡ (ok (union 0 (selected 5 flags)), codes "!")
unfolding beq
parse_set-print_set_example = parse_set-print_set flags 5 (codes "!") refl

abbrev begins_string : Bytes → Bool
begins_string [] = false
begins_string (c ∷ s) = c == quote

-- A parser that is given texts without spaces.
abbrev dense : JsonParser
dense = record {
  is_null = begins_null;
  parse_null = skip_null;
  parse_space = λ s. (ok tt, s);
  is_string = begins_string;
  parse_member = λ s. (throw expected_of, s);
}

abbrev dense-Documented : Documented dense
dense-Documented = record {
  is_null_brace = λ s. refl;
  is_string_quote = λ s. refl;
  parse_space_token = λ c s h. refl;
}

abbrev member_a : Field Bytes
member_a = record {
  name = codes "a";
  print = serialize;
  parse = λ w. parse_value begins_null skip_null;
}

abbrev letter : Bytes
letter = 120 ∷ []

letter-IsEncoded : IsEncoded letter
letter-IsEncoded = one 120 [] (omega arith) (omega arith) nothing

letter-Readable : Readable member_a letter
unfolding serialize body escaped
letter-Readable = record {
  name_plain = refl;
  first = quote;
  others = letter ++ quote ∷ [];
  print_first = refl;
  first_token = refl;
  parse_print = λ w c t h.
      parse_value-serialize begins_null skip_null letter (c ∷ t) (λ u. refl) letter-IsEncoded
        (omega arith);
}

parse_object-print_object_example :
    parse_object dense ((member_a, []) ∷ []) (print_object ((member_a, letter) ∷ []) ++ codes "!")
    ≡ (ok ((member_a, letter) ∷ []), codes "!")
parse_object-print_object_example =
    parse_object-print_object dense dense-Documented ((member_a, letter, []) ∷ []) (codes "!")
      (letter-Readable, tt)

abbrev next_byte : Parser Bytes
next_byte [] = (throw expected_of, [])
next_byte (c ∷ s) = (ok (c ∷ []), s)

abbrev member_b : Field Bytes
member_b = record { name = codes "b"; print = serialize; parse = λ w. next_byte }

next_byte-Leaves : (w s : Bytes) → Leaves (length s) (next_byte s)
next_byte-Leaves w [] = (refl, omega arith)
next_byte-Leaves w (c ∷ s) = (refl, omega arith)

skip_null-Leaves : (s : Bytes) → Leaves (length s) (skip_null s)
skip_null-Leaves s = (refl, omega arith)

untouched-Leaves : (s : Bytes) → Leaves (length s) (dense.parse_space s)
untouched-Leaves s = (refl, omega arith)

refused-Leaves : (s : Bytes) → Leaves (length s) (dense.parse_member s)
refused-Leaves s = (refl, omega arith)

dense-Consuming : Consuming dense
dense-Consuming = record {
  parse_null-Leaves = skip_null-Leaves;
  parse_space-Leaves = untouched-Leaves;
  parse_member-Leaves = refused-Leaves;
}

parse_object_ends_example :
    (ran_out (parse_object dense ((member_b, []) ∷ []) (codes "{\"b\":x,\"c\":y}")).0 ≡ false)
    × (length (parse_object dense ((member_b, []) ∷ []) (codes "{\"b\":x,\"c\":y}")).1 ≤ 13)
parse_object_ends_example =
    parse_object_ends dense dense-Consuming ((member_b, []) ∷ []) (codes "{\"b\":x,\"c\":y}")
      (next_byte-Leaves, tt)
