-- ===== src/EnumSet.antt =====
-- common/json_set.hpp: the JSON serializer of a set of flags, `serializerT< set_enumerator<T, L> >`, for a
-- list of enumerators with their values and names. A set is a number whose bits are the flags.
pub mod RoundTrip
pub mod Progress
use Prim.Native.Nat.{bit_and, bit_or}
use leveldb_daemon.Prelude.{
  ℕ, zero, suc, Bool, true, false, ◌||◌, Option, none, some, List, [], ◌∷◌, ◌++◌, leb, ◌==◌,
  if◌then◌else◌, length,
}
use leveldb_daemon.Prelude.Bytes.{Bytes}
use leveldb_daemon.Prelude.Exec.{Result, ok, throw, Exec, pure, raise, ◌>>=◌}

-- One type of the list `L`: its `value`, and the text that its call operator returns.
pub record Enumerator : Type 0 where
  pub value : ℕ
  pub name : Bytes

-- The exceptions of the file; that it reads behind the end of the text; and the loops' fuel.
pub data SetError : Type 0 where
  unexpected_end_fragment expected_of read_past_end out_of_fuel : SetError

abbrev pub Parser {ℓ} : Type ℓ → Type ℓ
Parser A = Exec SetError Bytes A

abbrev pub quote : ℕ
quote = 34

abbrev pub comma : ℕ
comma = 44

-- serialize
unfoldable pub members : ℕ → List Enumerator → Bool → Bytes
members v [] first = []
members v (e ∷ es) first =
    let absent = members v es first in
    let rest = members v es false in
    if bit_and e.value v == 0
    then absent
    else (if first then [] else comma ∷ []) ++ (quote ∷ e.name ++ quote ∷ []) ++ rest

-- operator() (const T&, P)
unfoldable pub print_set : List Enumerator → ℕ → Bytes
unfolding members
print_set es v = b'[' ∷ members v es true ++ b']' ∷ []

-- The loop of `deserialize_one`: what is left of the name and of the text behind what they share.
unfoldable pub strip : Bytes → Bytes → Bytes × Bytes
strip [] text = ([], text)
strip (c ∷ name) [] = (c ∷ name, [])
strip (c ∷ name) (d ∷ text) =
    let rest = strip name text in if c == d then rest else (c ∷ name, d ∷ text)

abbrev pub one_of : ℕ → ℕ → Bytes × Bytes → ℕ × Bytes → ℕ × Bytes
one_of v value ([], []) other = (bit_or v value, [])
one_of v value ([], c ∷ text) other = if c == comma then (bit_or v value, text) else other
one_of v value (d ∷ name, text) other = other

-- deserialize_one, on the text of one name or of names with commas; behind its end is a quote
unfoldable pub deserialize_one : ℕ → List Enumerator → Bytes → ℕ × Bytes
unfolding strip
deserialize_one v [] text = (v, text)
deserialize_one v (e ∷ es) text = one_of v e.value (strip e.name text) (deserialize_one v es text)

-- The loop of `deserialize`, which ends when nothing is taken from the text any more.
unfoldable pub deserialize_names : ℕ → List Enumerator → ℕ → Bytes → ℕ
deserialize_names zero es v text = v
deserialize_names (suc fuel) es v [] = v
deserialize_names (suc fuel) es v (c ∷ text) =
    let (v', left) = deserialize_one v es (c ∷ text) in
    let rest = deserialize_names fuel es v' left in
    if length left == suc (length text) then v' else rest

-- deserialize
unfoldable pub deserialize : List Enumerator → Bytes → ℕ
unfolding deserialize_names
deserialize es text = deserialize_names (suc (length text)) es 0 text

-- The search for the closing quote: the text before it, and what is behind it.
unfoldable pub until_quote : Bytes → Option (Bytes × Bytes)
until_quote [] = none
until_quote (c ∷ s) =
    let rest = until_quote s in
    if c == quote then some ([], s) else elim rest as (λ r. Option (Bytes × Bytes)) [
      | none ↦ none
      | some (name, behind) ↦ some (c ∷ name, behind)
    ]

-- The loop of `deserialize_arr`, with `lastChar`.
unfoldable pub array_loop : ℕ → List Enumerator → ℕ → ℕ → Parser ℕ
unfolding until_quote deserialize_one
array_loop zero es last v s = raise out_of_fuel s
array_loop (suc fuel) es last v [] = raise read_past_end []
array_loop (suc fuel) es last v (c ∷ s) =
    if c == quote
    then elim (until_quote s) as (λ r. Result SetError ℕ × Bytes) [
      | none ↦ raise unexpected_end_fragment []
      | some (name, []) ↦ raise read_past_end []
      | some (name, d ∷ behind) ↦
          array_loop fuel es d (deserialize_one v es name).0
            (if d == comma then behind else d ∷ behind)
    ]
    else if last == comma
    then raise unexpected_end_fragment (c ∷ s)
    else pure v (c ∷ s)

-- The loop over the white space: every `char` up to a space, the negative ones too.
unfoldable pub skip_space : Bytes → Bytes
skip_space [] = []
skip_space (c ∷ s) = let rest = skip_space s in if leb c 32 || leb 128 c then rest else c ∷ s

-- The test behind an array.
abbrev pub close_array : ℕ → Parser ℕ
close_array v [] = raise unexpected_end_fragment []
close_array v (c ∷ s) = if c == b']' then pure v s else raise expected_of (c ∷ s)

abbrev pub quoted_names :
    List Enumerator → Bytes → Option (Bytes × Bytes) → Result SetError ℕ × Bytes
quoted_names es s none = raise unexpected_end_fragment []
quoted_names es s (some (text, behind)) = pure (deserialize es text) behind

abbrev pub open_array : List Enumerator → Parser ℕ
open_array es [] = raise unexpected_end_fragment []
open_array es (c ∷ s) = (array_loop (suc (suc (length s))) es 32 0 >>= close_array) (c ∷ s)

abbrev pub parse_trimmed : List Enumerator → Parser ℕ
parse_trimmed es [] = raise unexpected_end_fragment []
parse_trimmed es (c ∷ s) =
    if c == quote
    then quoted_names es s (until_quote s)
    else if c == b'['
    then open_array es s
    else raise expected_of (c ∷ s)

-- operator() (T&, P, P)
unfoldable pub parse_set : List Enumerator → Parser ℕ
unfolding skip_space array_loop
parse_set es s = parse_trimmed es (skip_space s)
