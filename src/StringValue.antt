-- ===== src/StringValue.antt =====
-- src/strvalue.hpp: the JSON serializer of the values, `serializerT< strvalue<std::string> >`. A byte is
-- a number below 256, and the bits that a `char` is tested for are its leading ones. The iterator over
-- the text is the text that is left; what is written through `back_inserter` is the result.
pub mod RoundTrip
pub mod Progress
pub mod Escapes
use leveldb_daemon.Prelude.{
  ℕ, zero, suc, ◌+◌, ◌-◌, ◌*◌, ◌/◌, ◌%◌, Bool, true, false, ◌||◌, ◌&&◌, List, [], ◌∷◌, ◌++◌, leb,
  ◌==◌, if◌then◌else◌, length,
}
use leveldb_daemon.Prelude.Int.{ℤ, pos, negsuc, ◌-ℤ◌, wrap, i32_half}
use leveldb_daemon.Prelude.Bytes.{Bytes}
use leveldb_daemon.Prelude.Exec.{Result, ok, throw, Exec, pure, raise, ◌>>=◌, ◌>>◌}

-- The exceptions of the file, without the distance to the end that they may carry, and the loop's fuel.
pub data StringError : Type 0 where
  unexpected_end_fragment expected_of invalid_json_string out_of_fuel : StringError

abbrev pub Parser {ℓ} : Type ℓ → Type ℓ
Parser A = Exec StringError Bytes A

abbrev pub quote : ℕ
quote = 34

abbrev pub backslash : ℕ
backslash = 92

abbrev pub slash : ℕ
slash = 47

-- What `serialize` writes for one byte.
unfoldable pub escaped : ℕ → Bytes
escaped c =
    if c == quote || c == backslash || c == slash
    then backslash ∷ c ∷ []
    else if c == 9
    then backslash ∷ 116 ∷ []
    else if c == 8
    then backslash ∷ 98 ∷ []
    else if c == 13
    then backslash ∷ 114 ∷ []
    else if c == 10
    then backslash ∷ 110 ∷ []
    else if c == 12
    then backslash ∷ 102 ∷ []
    else c ∷ []

-- The loop of `serialize`: it ends at a NUL byte.
unfoldable pub body : Bytes → Bytes
unfolding escaped
body [] = []
body (c ∷ s) = let rest = body s in if c == 0 then [] else escaped c ++ rest

-- serialize
unfoldable pub serialize : Bytes → Bytes
unfolding body
serialize s = quote ∷ body s ++ quote ∷ []

-- `--n`, and `n == 0`
unfoldable pub less_one : ℤ → ℤ
less_one n = wrap i32_half (n -ℤ pos 1)

abbrev pub is_zero : ℤ → Bool
is_zero (pos n) = n == 0
is_zero (negsuc n) = false

-- *(beg++), with the test for the end before it
abbrev pub take_byte : Parser ℕ
take_byte [] = raise unexpected_end_fragment []
take_byte (c ∷ s) = pure c s

-- _toUShort
unfoldable pub to_ushort : ℕ → Parser ℕ
to_ushort c =
    if leb 48 c && leb c 57
    then pure (c - 48)
    else if leb 97 c && leb c 102
    then pure (c - 97 + 10)
    else if leb 65 c && leb c 70
    then pure (c - 65 + 10)
    else raise invalid_json_string

-- The end of `_unserialize_uhex`: the code point in UTF-8.
unfoldable pub put_code : ℤ → ℕ → Parser Bytes
put_code n hex =
    if leb hex 127
    then pure (hex ∷ [])
    else if leb hex 2047
    then (if is_zero (less_one n)
        then raise invalid_json_string
        else pure ((192 + hex / 64) ∷ (128 + hex % 64) ∷ []))
    else if is_zero (less_one n)
    then raise invalid_json_string
    else if is_zero (less_one (less_one n))
    then raise invalid_json_string
    else pure ((224 + hex / 4096) ∷ (128 + hex / 64 % 64) ∷ (128 + hex % 64) ∷ [])

-- _unserialize_uhex
unfoldable pub unserialize_uhex : ℤ → Parser Bytes
unfolding to_ushort put_code
unserialize_uhex n = do
  c₃ ← take_byte
  d₃ ← to_ushort c₃
  c₂ ← take_byte
  d₂ ← to_ushort c₂
  c₁ ← take_byte
  d₁ ← to_ushort c₁
  c₀ ← take_byte
  d₀ ← to_ushort c₀
  put_code n (d₃ * 4096 + d₂ * 256 + d₁ * 16 + d₀)

-- The loop of `_symbol_copy<N>`
unfoldable pub symbol_copy : ℕ → ℤ → Parser Bytes
symbol_copy zero n s = pure [] s
symbol_copy (suc i) n [] = if is_zero n then pure [] [] else raise unexpected_end_fragment []
symbol_copy (suc i) n (c ∷ s) =
    let (r, s') = symbol_copy i (less_one n) s in
    if is_zero n
    then pure [] (c ∷ s)
    else elim r [ ok out ↦ pure (c ∷ out) s' | throw x ↦ raise x s' ]

-- _unserialize_symbol
unfoldable pub unserialize_symbol : ℤ → Parser Bytes
unserialize_symbol n [] = raise unexpected_end_fragment []
unserialize_symbol n (c ∷ s) =
    if c / 128 == 0
    then pure (c ∷ []) s
    else if c / 32 == 6
    then symbol_copy 2 n (c ∷ s)
    else if c / 16 == 14
    then symbol_copy 3 n (c ∷ s)
    else if c / 8 == 30
    then symbol_copy 4 n (c ∷ s)
    else raise invalid_json_string (c ∷ s)

-- The `switch` behind a backslash: what is written, and `n` then.
unfoldable pub unescape : ℤ → Parser (Bytes × ℤ)
unescape n [] = raise unexpected_end_fragment []
unescape n (c ∷ s) =
    if c == quote || c == backslash || c == slash
    then pure (c ∷ [], less_one n) s
    else if c == 116
    then pure (9 ∷ [], less_one n) s
    else if c == 98
    then pure (8 ∷ [], less_one n) s
    else if c == 114
    then pure (13 ∷ [], less_one n) s
    else if c == 110
    then pure (10 ∷ [], less_one n) s
    else if c == 102
    then pure (12 ∷ [], less_one n) s
    else if c == 117
    then (unserialize_uhex n >>= λ out. pure (out, n)) s
    else raise invalid_json_string (c ∷ s)

-- The body of the loop between quotes.
unfoldable pub quoted_item : ℤ → Parser (Bytes × ℤ)
quoted_item n [] = raise unexpected_end_fragment []
quoted_item n (c ∷ s) =
    if c == backslash then unescape n s else (unserialize_symbol n >>= λ out. pure (out, n)) (c ∷ s)

unfoldable pub quoted_loop : ℕ → ℤ → Parser Bytes
quoted_loop zero n s = raise out_of_fuel s
quoted_loop (suc fuel) n [] = pure [] []
quoted_loop (suc fuel) n (c ∷ s) =
    if c == quote || is_zero n
    then pure [] (c ∷ s)
    else (quoted_item n >>= λ (out, n'). quoted_loop fuel n' >>= λ rest. pure (out ++ rest)) (c ∷ s)

-- The bytes that end a text without quotes: `}`, a space, `]` and a comma.
abbrev pub ends_plain : ℕ → Bool
ends_plain c = c == 125 || c == 32 || c == 93 || c == 44

unfoldable pub plain_loop : ℕ → ℤ → Parser Bytes
plain_loop zero n s = raise out_of_fuel s
plain_loop (suc fuel) n [] = pure [] []
plain_loop (suc fuel) n (c ∷ s) =
    if ends_plain c || is_zero n
    then pure [] (c ∷ s)
    else (unserialize_symbol n >>= λ out. plain_loop fuel n >>= λ rest. pure (out ++ rest)) (c ∷ s)

-- The tests behind the two loops.
abbrev pub close_quote : Bytes → Parser Bytes
close_quote out [] = raise unexpected_end_fragment []
close_quote out (c ∷ s) = if c == quote then pure out s else raise expected_of s

abbrev pub close_plain : Bytes → Parser Bytes
close_plain out [] = raise unexpected_end_fragment []
close_plain out (c ∷ s) = pure out (c ∷ s)

-- unserialize
unfoldable pub unserialize : ℤ → Parser Bytes
unfolding quoted_loop plain_loop
unserialize n [] = raise unexpected_end_fragment []
unserialize n (c ∷ s) =
    if c == quote
    then (quoted_loop (suc (length s)) n >>= close_quote) s
    else (plain_loop (suc (suc (length s))) n >>= close_plain) (c ∷ s)

-- The serializer that parses; `is_null` and `parse_null` are the library's.
module _ (is_null : Bytes → Bool) (parse_null : Parser (Unit {0})) where
  unfoldable pub parse_value : Parser Bytes
  unfolding unserialize
  parse_value s = if is_null s then (parse_null >> pure []) s else unserialize (negsuc 0) s
