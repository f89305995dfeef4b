-- ===== src/EnumSet/Progress.antt =====
-- common/json_set.hpp: the rounds that the loops are given are enough, on every text.
use leveldb_daemon.Prelude.{
  ℕ, zero, suc, ◌<◌, ◌≤◌, ◌≡◌, refl, ap, sym, ◌∙◌, Bool, true, false, Option, none, some, List, [],
  ◌∷◌, length, arith, Option-cases, inl, inr,
}
use leveldb_daemon.Prelude.Bytes.{Bytes}
use leveldb_daemon.Prelude.Exec.{Result, ok, throw, ◌>>=◌, Result-cases}
use leveldb_daemon.EnumSet.{
  Enumerator, SetError, unexpected_end_fragment, expected_of, read_past_end, out_of_fuel, strip,
  one_of, deserialize_one, deserialize_names, until_quote, array_loop, skip_space, close_array,
  open_array, quoted_names, parse_trimmed, parse_set, Parser,
}

abbrev pub is_out_of_fuel : Result SetError ℕ → Bool
is_out_of_fuel (throw out_of_fuel) = true
is_out_of_fuel (throw unexpected_end_fragment) = false
is_out_of_fuel (throw expected_of) = false
is_out_of_fuel (throw read_past_end) = false
is_out_of_fuel (ok v) = false

until_quote-length :
    (s name behind : Bytes) → until_quote s ≡ some (name, behind) → length behind < length s
unfolding until_quote
until_quote-length [] name behind h = absurd (ground arith)
until_quote-length (c ∷ s) name behind h = elim (Option-cases (until_quote s)) [
  | inl e ↦ ground (arith, e)
  | inr ((n, b), e) ↦ ground (arith, e, until_quote-length s n b e)
]

array_loop_ends :
    (fuel : ℕ) (es : List Enumerator) (last v : ℕ) (s : Bytes)
    → length s < fuel
    → is_out_of_fuel (array_loop fuel es last v s).0 ≡ false
unfolding array_loop
array_loop_ends zero es last v s h = absurd (omega arith)
array_loop_ends (suc fuel) es last v [] h = refl
array_loop_ends (suc fuel) es last v (c ∷ s) h = elim (Option-cases (until_quote s)) [
  | inl e ↦ ground (arith, e)
  | inr ((name, []), e) ↦ ground (arith, e)
  | inr ((name, d ∷ behind), e) ↦ ground (
    arith,
    e,
    until_quote-length s name (d ∷ behind) e,
    array_loop_ends fuel es d (deserialize_one v es name).0 behind,
    array_loop_ends fuel es d (deserialize_one v es name).0 (d ∷ behind),
  )
]

strip-length : (name text : Bytes) → length (strip name text).1 ≤ length text
unfolding strip
strip-length [] text = omega arith
strip-length (c ∷ name) [] = omega arith
strip-length (c ∷ name) (d ∷ text) = ground (arith, strip-length name text)

one_of-length :
    (v value : ℕ) (p : Bytes × Bytes) (other : ℕ × Bytes) (n : ℕ)
    → length p.1 ≤ n
    → length other.1 ≤ n
    → length (one_of v value p other).1 ≤ n
one_of-length v value ([], []) other n h k = omega arith
one_of-length v value ([], c ∷ text) other n h k = ground arith
one_of-length v value (d ∷ name, text) other n h k = k

deserialize_one-length :
    (v : ℕ) (es : List Enumerator) (text : Bytes)
    → length (deserialize_one v es text).1 ≤ length text
unfolding deserialize_one
deserialize_one-length v [] text = omega arith
deserialize_one-length v (e ∷ es) text =
    one_of-length v e.value (strip e.name text) (deserialize_one v es text) (length text)
      (strip-length e.name text) (deserialize_one-length v es text)

-- One round more changes nothing: the loop over names ends by itself.
deserialize_names_ends :
    (fuel : ℕ) (es : List Enumerator) (v : ℕ) (text : Bytes)
    → length text < fuel
    → deserialize_names fuel es v text ≡ deserialize_names (suc fuel) es v text
unfolding deserialize_names
deserialize_names_ends zero es v text h = absurd (omega arith)
deserialize_names_ends (suc fuel) es v [] h = refl
deserialize_names_ends (suc fuel) es v (c ∷ text) h =
    let r = deserialize_one v es (c ∷ text) in
    ground (arith, deserialize_one-length v es (c ∷ text), deserialize_names_ends fuel es r.0 r.1)

close_array_ends : (v : ℕ) (s : Bytes) → is_out_of_fuel (close_array v s).0 ≡ false
close_array_ends v [] = refl
close_array_ends v (c ∷ s) = ground arith

bind_ends :
    (m : Parser ℕ) (s : Bytes)
    → is_out_of_fuel (m s).0 ≡ false
    → is_out_of_fuel ((m >>= close_array) s).0 ≡ false
bind_ends m s h = elim (Result-cases (m s).0) [
  | inl (v, e) ↦ rw e (close_array_ends v (m s).1)
  | inr (x, e) ↦ rw e (ap is_out_of_fuel (sym e) ∙ h)
]

open_array_ends : (es : List Enumerator) (s : Bytes) → is_out_of_fuel (open_array es s).0 ≡ false
open_array_ends es [] = refl
open_array_ends es (c ∷ s) =
    bind_ends (array_loop (suc (suc (length s))) es 32 0) (c ∷ s)
      (array_loop_ends (suc (suc (length s))) es 32 0 (c ∷ s) (omega arith))

quoted_names_ends :
    (es : List Enumerator) (s : Bytes) (r : Option (Bytes × Bytes))
    → is_out_of_fuel (quoted_names es s r).0 ≡ false
quoted_names_ends es s none = refl
quoted_names_ends es s (some r) = refl

parse_trimmed_ends :
    (es : List Enumerator) (s : Bytes) → is_out_of_fuel (parse_trimmed es s).0 ≡ false
parse_trimmed_ends es [] = refl
parse_trimmed_ends es (c ∷ s) =
    ground (arith, quoted_names_ends es s (until_quote s), open_array_ends es s)

-- The parser of a set ends on every text: it returns, throws one of its exceptions, or reads behind the end
-- of the text.
parse_set_ends : (es : List Enumerator) (s : Bytes) → is_out_of_fuel (parse_set es s).0 ≡ false
unfolding parse_set
parse_set_ends es s = parse_trimmed_ends es (skip_space s)
