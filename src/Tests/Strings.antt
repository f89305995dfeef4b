-- ===== src/Tests/Strings.antt =====
-- The serializer of the values on concrete texts.
use leveldb_daemon.Prelude.{◌≡◌, refl, ◌==◌, Bool, false, [], ◌∷◌, arith}
use leveldb_daemon.Prelude.Int.{negsuc}
use leveldb_daemon.Prelude.Bytes.{Bytes, codes}
use leveldb_daemon.Prelude.Exec.{ok}
use leveldb_daemon.StringValue.{Parser, escaped, body, serialize, unserialize, parse_value}
use leveldb_daemon.StringValue.RoundTrip.{IsEncoded, one, two, nothing, parse_value-serialize}
use leveldb_daemon.StringValue.Progress.{ran_out, unserialize_ends}

-- A text that begins with `n` is taken for `null`.
abbrev pub begins_null : Bytes → Bool
begins_null [] = false
begins_null (c ∷ s) = c == 110

abbrev pub skip_null : Parser (Unit {0})
skip_null s = (ok tt, [])

-- `a"é`
abbrev text : Bytes
text = 97 ∷ 34 ∷ 195 ∷ 169 ∷ []

text-IsEncoded : IsEncoded text
text-IsEncoded =
    one 97 _ (omega arith) (omega arith)
      (one 34 _ (omega arith) (omega arith) (two 195 169 [] refl (omega arith) nothing))

parse_value-serialize_example :
    parse_value begins_null skip_null (34 ∷ 97 ∷ 92 ∷ 34 ∷ 195 ∷ 169 ∷ 34 ∷ 44 ∷ [])
    ≡ (ok text, 44 ∷ [])
unfolding serialize body escaped
parse_value-serialize_example =
    parse_value-serialize begins_null skip_null text (44 ∷ []) (λ u. refl) text-IsEncoded
      (omega arith)

unserialize_ends_example : ran_out (unserialize (negsuc 0) (codes "abc")).0 ≡ false
unserialize_ends_example = unserialize_ends (negsuc 0) (codes "abc")
