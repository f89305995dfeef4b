-- ===== src/StringValue/Progress.antt =====
-- src/strvalue.hpp: the loops of `unserialize` and their fuel.
use leveldb_daemon.Prelude.{
  ℕ, zero, suc, ◌+◌, ◌≤◌, ◌<◌, ◌≡◌, refl, Bool, true, false, [], ◌∷◌, ◌==◌, ◌*◌, length, arith, inl,
  inr, Bool-cases,
}
use leveldb_daemon.Prelude.Int.{ℤ}
use leveldb_daemon.Prelude.Bytes.{Bytes}
use leveldb_daemon.Prelude.Exec.{Result, ok, throw, Result-cases, pure, continue, ◌>>=◌}
use leveldb_daemon.StringValue.{
  StringError, unexpected_end_fragment, expected_of, invalid_json_string, out_of_fuel, Parser,
  is_zero, to_ushort, put_code, unserialize_uhex, symbol_copy, unserialize_symbol, unescape,
  quoted_item, quoted_loop, plain_loop, unserialize, close_quote, close_plain, quote, take_byte,
  less_one,
}

-- The loop's fuel ran out.
abbrev pub ran_out {ℓ} : {A : Type ℓ} → Result StringError A → Bool
ran_out (ok a) = false
ran_out (throw out_of_fuel) = true
ran_out (throw unexpected_end_fragment) = false
ran_out (throw expected_of) = false
ran_out (throw invalid_json_string) = false

-- A run that has not run out of fuel and has at most `n` bytes left.
abbrev pub Leaves {ℓ} : {A : Type ℓ} → ℕ → Result StringError A × Bytes → Type 0
Leaves n r = (ran_out r.0 ≡ false) × (length r.1 ≤ n)

pub Leaves-bind {ℓ κ} :
    {A : Type ℓ} {B : Type κ} (m : Parser A) (f : A → Parser B) (s : Bytes)
    → Leaves (length s) (m s)
    → ((a : A) (t : Bytes) → Leaves (length t) (f a t))
    → Leaves (length s) ((m >>= f) s)
Leaves-bind m f s h g = elim (Result-cases (m s).0) [
  | inl (a, e) ↦ (ground (arith, e, g a (m s).1), ground (arith, e, h, g a (m s).1))
  | inr (x, e) ↦ (ground (arith, e, h), ground (arith, e, h))
]

take_byte-Leaves : (s : Bytes) → Leaves (length s) (take_byte s)
take_byte-Leaves [] = (refl, omega arith)
take_byte-Leaves (c ∷ s) = (refl, omega arith)

to_ushort-Leaves : (c : ℕ) (s : Bytes) → Leaves (length s) (to_ushort c s)
unfolding to_ushort
to_ushort-Leaves c s = (ground arith, ground arith)

digit-Leaves {ℓ} :
    {B : Type ℓ} (f : ℕ → Parser B) (s : Bytes)
    → ((d : ℕ) (t : Bytes) → Leaves (length t) (f d t))
    → Leaves (length s) ((take_byte >>= λ c. to_ushort c >>= f) s)
digit-Leaves f s h =
    Leaves-bind take_byte _ s (take_byte-Leaves s)
      λ c t. Leaves-bind (to_ushort c) f t (to_ushort-Leaves c t) h

put_code-Leaves : (n : ℤ) (hex : ℕ) (s : Bytes) → Leaves (length s) (put_code n hex s)
unfolding put_code
put_code-Leaves n hex s = (ground arith, ground arith)

unserialize_uhex-Leaves : (n : ℤ) (s : Bytes) → Leaves (length s) (unserialize_uhex n s)
unfolding unserialize_uhex
unserialize_uhex-Leaves n s = digit-Leaves _ s λ d₃ s. digit-Leaves _ s λ d₂ s.
    digit-Leaves _ s
      λ d₁ s. digit-Leaves _ s λ d₀ s. put_code-Leaves n (d₃ * 4096 + d₂ * 256 + d₁ * 16 + d₀) s

symbol_copy-Leaves : (i : ℕ) (n : ℤ) (s : Bytes) → Leaves (length s) (symbol_copy i n s)
unfolding symbol_copy
symbol_copy-Leaves zero n s = (refl, omega arith)
symbol_copy-Leaves (suc i) n [] = (ground arith, ground arith)
symbol_copy-Leaves (suc i) n (c ∷ s) =
    let left = symbol_copy-Leaves i (less_one n) s in
    elim (Result-cases (symbol_copy i (less_one n) s).0) [
      | inl (out, e) ↦ (ground (arith, e), ground (arith, e, left))
      | inr (x, e) ↦ (ground (arith, e, left), ground (arith, e, left))
    ]

-- A round that has not run out of fuel and, if it returns, has at most `n` bytes left.
abbrev Shortens {ℓ} : {A : Type ℓ} → ℕ → Result StringError A × Bytes → Type ℓ
Shortens {A} n r = (ran_out r.0 ≡ false) × ((a : A) → r.0 ≡ ok a → length r.1 ≤ n)

symbol_copy-Shortens :
    (i : ℕ) (n : ℤ) (c : ℕ) (s : Bytes)
    → is_zero n ≡ false
    → Shortens (length s) (symbol_copy (suc i) n (c ∷ s))
unfolding symbol_copy
symbol_copy-Shortens i n c s h =
    let left = symbol_copy-Leaves i (less_one n) s in
    elim (Result-cases (symbol_copy i (less_one n) s).0) [
      | inl (out, e) ↦ (ground (arith, e), λ a r. ground (arith, e, left))
      | inr (x, e) ↦ (ground (arith, e, left), λ a r. ground (arith, e, left))
    ]

unserialize_symbol-Shortens :
    (n : ℤ) (c : ℕ) (s : Bytes)
    → is_zero n ≡ false
    → Shortens (length s) (unserialize_symbol n (c ∷ s))
unfolding unserialize_symbol
unserialize_symbol-Shortens n c s h =
    let two = symbol_copy-Shortens 1 n c s h in
    let three = symbol_copy-Shortens 2 n c s h in
    let four = symbol_copy-Shortens 3 n c s h in
    (ground (arith, two.0, three.0, four.0), λ a r. ground (arith, two.1 a, three.1 a, four.1 a))

unescape-Leaves : (n : ℤ) (s : Bytes) → Leaves (length s) (unescape n s)
unfolding unescape
unescape-Leaves n [] = (refl, omega arith)
unescape-Leaves n (c ∷ s) =
    let hex =
      Leaves-bind {B = Bytes × ℤ} (unserialize_uhex n) (λ out. pure (out, n)) s
        (unserialize_uhex-Leaves n s) λ a t. (refl, omega arith) in
    (ground (arith, hex), ground (arith, hex))

quoted_item-Shortens :
    (n : ℤ) (c : ℕ) (s : Bytes) → is_zero n ≡ false → Shortens (length s) (quoted_item n (c ∷ s))
unfolding quoted_item
quoted_item-Shortens n c s h =
    let escape = unescape-Leaves n s in
    let symbol = unserialize_symbol-Shortens n c s h in
    elim (Result-cases (unserialize_symbol n (c ∷ s)).0) [
      | inl (out, e) ↦
          (ground (arith, e, escape.0), λ a r. ground (arith, e, escape.1, symbol.1 out e))
      | inr (x, e) ↦ (ground (arith, e, escape.0, symbol.0), λ a r. ground (arith, e, escape.1))
    ]

quoted_loop_runs :
    (f : ℕ) (n : ℤ) (s : Bytes) → length s < f → ran_out (quoted_loop f n s).0 ≡ false
unfolding quoted_loop
quoted_loop_runs zero n s h = absurd (omega (arith, h))
quoted_loop_runs (suc f) n [] h = refl
quoted_loop_runs (suc f) n (c ∷ s) h = elim (Bool-cases (is_zero n)) [
  | inl e ↦ ground (arith, e)
  | inr e ↦
      let item = quoted_item-Shortens n c s e in
      elim (Result-cases (quoted_item n (c ∷ s)).0) [
        | inl ((out, m), r) ↦
            let left = (quoted_item n (c ∷ s)).1 in
            let rest = quoted_loop_runs f m left (omega (arith, h, item.1 (out, m) r)) in
            elim (Result-cases (quoted_loop f m left).0) [
              | inl (more, q) ↦ ground (arith, e, r, q)
              | inr (x, q) ↦ ground (arith, e, r, q, rest)
            ]
        | inr (x, r) ↦ ground (arith, e, r, item.0)
      ]
]

plain_loop_runs : (f : ℕ) (n : ℤ) (s : Bytes) → length s < f → ran_out (plain_loop f n s).0 ≡ false
unfolding plain_loop
plain_loop_runs zero n s h = absurd (omega (arith, h))
plain_loop_runs (suc f) n [] h = refl
plain_loop_runs (suc f) n (c ∷ s) h = elim (Bool-cases (is_zero n)) [
  | inl e ↦ ground (arith, e)
  | inr e ↦
      let symbol = unserialize_symbol-Shortens n c s e in
      elim (Result-cases (unserialize_symbol n (c ∷ s)).0) [
        | inl (out, r) ↦
            let left = (unserialize_symbol n (c ∷ s)).1 in
            let rest = plain_loop_runs f n left (omega (arith, h, symbol.1 out r)) in
            elim (Result-cases (plain_loop f n left).0) [
              | inl (more, q) ↦ ground (arith, e, r, q)
              | inr (x, q) ↦ ground (arith, e, r, q, rest)
            ]
        | inr (x, r) ↦ ground (arith, e, r, symbol.0)
      ]
]

close_quote_runs : (out s : Bytes) → ran_out (close_quote out s).0 ≡ false
close_quote_runs out [] = refl
close_quote_runs out (c ∷ s) = ground arith

close_plain_runs : (out s : Bytes) → ran_out (close_plain out s).0 ≡ false
close_plain_runs out [] = refl
close_plain_runs out (c ∷ s) = refl

closed_runs :
    (m : Result StringError Bytes × Bytes) (f : Bytes → Parser Bytes)
    → ran_out m.0 ≡ false
    → ((out s : Bytes) → ran_out (f out s).0 ≡ false)
    → ran_out (continue m.0 m.1 f).0 ≡ false
closed_runs (ok out, s) f h g = g out s
closed_runs (throw x, s) f h g = ground (arith, h)

-- `unserialize` ends on every text: its loops never run out of the fuel that the length of the text
-- gives them, so that it returns or throws one of its exceptions.
pub unserialize_ends : (n : ℤ) (s : Bytes) → ran_out (unserialize n s).0 ≡ false
unfolding unserialize
unserialize_ends n [] = refl
unserialize_ends n (c ∷ s) = elim (Bool-cases (c == quote)) [
  | inl e ↦ rw e (
      closed_runs (quoted_loop (suc (length s)) n s) close_quote
        (quoted_loop_runs (suc (length s)) n s (omega arith)) close_quote_runs)
  | inr e ↦ rw e (
      closed_runs (plain_loop (suc (suc (length s))) n (c ∷ s)) close_plain
        (plain_loop_runs (suc (suc (length s))) n (c ∷ s) (omega arith)) close_plain_runs)
]
