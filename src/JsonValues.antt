-- ===== src/JsonValues.antt =====
-- common/aj_int_quoted.hpp (`serializerQuoted<T>`: a value between quotes, for the keys of a map) and
-- src/aj_pairvector.hpp (`paired_array_serializer`: pairs as an object, where an empty array is taken too,
-- and `push_pair`). The serializer of the value, and that of the object, are parameters.
use leveldb_daemon.Prelude.{◌≡◌, Bool, false, List, [], ◌∷◌, ◌++◌, ◌==◌, if◌then◌else◌, arith}
use mathlib.Core.List.{append_assoc}
use leveldb_daemon.Prelude.Bytes.{Bytes}
use leveldb_daemon.Prelude.Exec.{ok, pure, raise, ◌>>=◌, ◌>>◌}
use leveldb_daemon.StringValue.{unexpected_end_fragment, Parser, quote}

-- if (beg==end) throw ...; if (*(beg++)!='"') throw ...;
abbrev pub take_quote : Parser (Unit {0})
take_quote [] = raise unexpected_end_fragment []
take_quote (c ∷ s) = if c == quote then pure tt s else raise unexpected_end_fragment s

-- push_pair
abbrev pub push_pair {ℓ κ} : {A : Type ℓ} {B : Type κ} → List (A × B) → A → B → List (A × B)
push_pair target k v = target ++ (k, v) ∷ []

module _ {V : Type 0} (print : V → Bytes) where
  -- serializerQuoted::operator() (const T&, P)
  unfoldable pub print_quoted : V → Bytes
  print_quoted v = quote ∷ (print v ++ quote ∷ [])

module _ {V : Type 0} (is_null : Bytes → Bool) (parse_null : Parser (Unit {0}))
    (parse : V → Parser V) where
  -- serializerQuoted::operator() (T&, P, P); `v` is what the variable holds
  unfoldable pub parse_quoted : V → Parser V
  parse_quoted v s =
      if is_null s
      then (parse_null >> pure v) s
      else (take_quote >> parse v >>= λ w. take_quote >> pure w) s

module _ {K V : Type 0} (parent : Parser (List (K × V))) where
  -- paired_array_serializer::operator() (target_container&, P, P); behind the text stands a NUL
  unfoldable pub parse_paired : Parser (List (K × V))
  parse_paired [] = parent []
  parse_paired (c ∷ []) = parent (c ∷ [])
  parse_paired (c ∷ d ∷ s) =
      if c == b'['
      then (if d == b']' then pure [] s else parent (c ∷ d ∷ s))
      else parent (c ∷ d ∷ s)

-- A quoted value that was written is read back, whatever text follows, if the value is read back up to a
-- quote, and the library does not take a text with a quote before it for `null`.
pub parse_quoted-print_quoted :
    {V : Type 0} (print : V → Bytes) (parse : V → Parser V) (is_null : Bytes → Bool)
    (parse_null : Parser (Unit {0})) (v w : V) (t : Bytes)
    → ((u : Bytes) → is_null (quote ∷ u) ≡ false)
    → ((u : Bytes) → parse w (print v ++ quote ∷ u) ≡ (ok v, quote ∷ u))
    → parse_quoted is_null parse_null parse w (print_quoted print v ++ t) ≡ (ok v, t)
unfolding parse_quoted print_quoted
parse_quoted-print_quoted print parse is_null parse_null v w t quoted reads =
    rw (quoted ((print v ++ quote ∷ []) ++ t), append_assoc (print v) (quote ∷ []) t)
      (ground (arith, reads t))
