-- ===== src/StringValue/RoundTrip.antt =====
-- src/strvalue.hpp: reading what was written.
use leveldb_daemon.Prelude.{
  ℕ, zero, suc, ◌+◌, ◌/◌, ◌≤◌, ◌<◌, ◌≡◌, refl, ap, ◌∙◌, Bool, true, false, [], ◌∷◌, ◌++◌, ◌==◌,
  length, arith, ◌||◌, inl, inr, Bool-cases, length-append, drop,
}
use mathlib.Core.List.{append_assoc}
use leveldb_daemon.Prelude.Int.{negsuc, ◌-ℤ◌, wrap, i32_half}
use leveldb_daemon.Prelude.Bytes.{Bytes}
use leveldb_daemon.Prelude.Exec.{ok}
use leveldb_daemon.StringValue.{
  Parser, escaped, body, serialize, less_one, quoted_item, quoted_loop, unserialize,
  unserialize_symbol, unescape, symbol_copy, parse_value, quote, backslash, slash,
}

pub less_one_negsuc : (m : ℕ) → m + 1 < i32_half → less_one (negsuc m) ≡ negsuc (suc m)
unfolding less_one wrap ◌-ℤ◌
less_one_negsuc m h = ground arith

-- The bytes that are written with a backslash.
abbrev is_escaped : ℕ → Bool
is_escaped c =
    c == quote || c == backslash || c == slash || c == 9 || c == 8 || c == 13 || c == 10 || c == 12

-- One byte of ASCII.
item_escaped :
    (c m : ℕ) (s : Bytes)
    → is_escaped c ≡ true
    → m + 1 < i32_half
    → quoted_item (negsuc m) (escaped c ++ s) ≡ (ok (c ∷ [], negsuc (suc m)), s)
unfolding quoted_item escaped unescape
item_escaped c m s e b = ground (arith, less_one_negsuc m b)

item_plain :
    (c m : ℕ) (s : Bytes)
    → is_escaped c ≡ false
    → c < 128
    → quoted_item (negsuc m) (escaped c ++ s) ≡ (ok (c ∷ [], negsuc m), s)
unfolding quoted_item escaped unserialize_symbol
item_plain c m s e b = ground arith

-- Texts of UTF-8 without NUL: what `unserialize` copies as one symbol, that is a byte of ASCII, or a
-- leading byte and as many bytes above ASCII as it announces.
pub data IsEncoded : Bytes → Type 0 where
  nothing : IsEncoded []
  one : (c : ℕ) (s : Bytes) → 0 < c → c < 128 → IsEncoded s → IsEncoded (c ∷ s)
  two : (c₁ c₂ : ℕ) (s : Bytes) → c₁ / 32 ≡ 6 → 128 ≤ c₂ → IsEncoded s → IsEncoded (c₁ ∷ c₂ ∷ s)
  three :
      (c₁ c₂ c₃ : ℕ) (s : Bytes)
      → c₁ / 16 ≡ 14
      → 128 ≤ c₂
      → 128 ≤ c₃
      → IsEncoded s
      → IsEncoded (c₁ ∷ c₂ ∷ c₃ ∷ s)
  four :
      (c₁ c₂ c₃ c₄ : ℕ) (s : Bytes)
      → c₁ / 8 ≡ 30
      → 128 ≤ c₂
      → 128 ≤ c₃
      → 128 ≤ c₄
      → IsEncoded s
      → IsEncoded (c₁ ∷ c₂ ∷ c₃ ∷ c₄ ∷ s)

body_high : (c : ℕ) (s : Bytes) → 128 ≤ c → body (c ∷ s) ≡ c ∷ body s
unfolding body escaped
body_high c s h = ground arith

body_two : (c₁ c₂ : ℕ) (s : Bytes) → 128 ≤ c₁ → 128 ≤ c₂ → body (c₁ ∷ c₂ ∷ s) ≡ c₁ ∷ c₂ ∷ body s
body_two c₁ c₂ s h₁ h₂ = body_high c₁ (c₂ ∷ s) h₁ ∙ ap (λ u. c₁ ∷ u) (body_high c₂ s h₂)

body_three :
    (c₁ c₂ c₃ : ℕ) (s : Bytes)
    → 128 ≤ c₁
    → 128 ≤ c₂
    → 128 ≤ c₃
    → body (c₁ ∷ c₂ ∷ c₃ ∷ s) ≡ c₁ ∷ c₂ ∷ c₃ ∷ body s
body_three c₁ c₂ c₃ s h₁ h₂ h₃ =
    body_high c₁ (c₂ ∷ c₃ ∷ s) h₁ ∙ ap (λ u. c₁ ∷ u) (body_two c₂ c₃ s h₂ h₃)

body_low : (c : ℕ) (s : Bytes) → 0 < c → body (c ∷ s) ≡ escaped c ++ body s
unfolding body
body_low c s h = ground arith

item_two :
    (m c₁ c₂ : ℕ) (s : Bytes)
    → c₁ / 32 ≡ 6
    → m + 4 < i32_half
    → quoted_item (negsuc m) (c₁ ∷ c₂ ∷ s) ≡ (ok (c₁ ∷ c₂ ∷ [], negsuc m), s)
unfolding quoted_item unserialize_symbol symbol_copy
item_two m c₁ c₂ s e h = ground (arith, less_one_negsuc m (omega arith))

item_three :
    (m c₁ c₂ c₃ : ℕ) (s : Bytes)
    → c₁ / 16 ≡ 14
    → m + 4 < i32_half
    → quoted_item (negsuc m) (c₁ ∷ c₂ ∷ c₃ ∷ s) ≡ (ok (c₁ ∷ c₂ ∷ c₃ ∷ [], negsuc m), s)
unfolding quoted_item unserialize_symbol symbol_copy
item_three m c₁ c₂ c₃ s e h =
    ground (arith, less_one_negsuc m (omega arith), less_one_negsuc (suc m) (omega arith))

item_four :
    (m c₁ c₂ c₃ c₄ : ℕ) (s : Bytes)
    → c₁ / 8 ≡ 30
    → m + 4 < i32_half
    → quoted_item (negsuc m) (c₁ ∷ c₂ ∷ c₃ ∷ c₄ ∷ s) ≡ (ok (c₁ ∷ c₂ ∷ c₃ ∷ c₄ ∷ [], negsuc m), s)
unfolding quoted_item unserialize_symbol symbol_copy
item_four m c₁ c₂ c₃ c₄ s e h = ground (
  arith,
  less_one_negsuc m (omega arith),
  less_one_negsuc (suc m) (omega arith),
  less_one_negsuc (suc (suc m)) (omega arith),
)

-- One round of the loop.
loop_step :
    (f m k c : ℕ) (s s' t out rest : Bytes)
    → (c == quote) ≡ false
    → quoted_item (negsuc m) (c ∷ s) ≡ (ok (out, negsuc k), s')
    → quoted_loop f (negsuc k) s' ≡ (ok rest, t)
    → quoted_loop (suc f) (negsuc m) (c ∷ s) ≡ (ok (out ++ rest), t)
unfolding quoted_loop
loop_step f m k c s s' t out rest e i l = ground (arith, i, l)

-- What is written for a byte does not begin with a quote.
escaped_first : (c : ℕ) → (b : ℕ) × (u : Bytes) × (escaped c ≡ b ∷ u) × ((b == quote) ≡ false)
unfolding escaped
escaped_first c = elim (Bool-cases (is_escaped c)) [
  | inl e ↦ (backslash, drop 1 (escaped c), ground arith, refl)
  | inr e ↦ (c, [], ground arith, ground arith)
]

escaped_step :
    (f m k c : ℕ) (s t out rest : Bytes)
    → quoted_item (negsuc m) (escaped c ++ s) ≡ (ok (out, negsuc k), s)
    → quoted_loop f (negsuc k) s ≡ (ok rest, t)
    → quoted_loop (suc f) (negsuc m) (escaped c ++ s) ≡ (ok (out ++ rest), t)
escaped_step f m k c s t out rest i l =
    let (b, u, e, ne) = escaped_first c in
    rw e (loop_step f m k b (u ++ s) s t out rest ne (rw e at i) l)

length-escaped : (c : ℕ) → 1 ≤ length (escaped c)
unfolding escaped
length-escaped c = ground arith

-- The loop reads what was written, up to the closing quote.
loop_body :
    {s : Bytes} (f m : ℕ) (t : Bytes)
    → IsEncoded s
    → length (body s) < f
    → m + length s + 4 < i32_half
    → quoted_loop f (negsuc m) (body s ++ quote ∷ t) ≡ (ok s, quote ∷ t)
loop_body zero m t enc h b = absurd (omega (arith, h))
loop_body (suc f) m t nothing h b = unfold body quoted_loop in refl
loop_body (suc f) m t (one c s lo hi enc) h b =
    let shorter : length (body s) < f = omega (
      arith,
      h,
      ap length (body_low c s lo),
      length-append (escaped c) (body s),
      length-escaped c,
    ) in
    rw (body_low c s lo, append_assoc)
      (elim (Bool-cases (is_escaped c)) [
        | inl e ↦
            escaped_step f m (suc m) c _ _ (c ∷ []) s (item_escaped c m _ e (omega arith))
              (loop_body f (suc m) t enc shorter (omega (arith, b)))
        | inr e ↦
            escaped_step f m m c _ _ (c ∷ []) s (item_plain c m _ e hi)
              (loop_body f m t enc shorter (omega (arith, b)))
      ])
loop_body (suc f) m t (two c₁ c₂ s e h₂ enc) h b =
    let written = body_two c₁ c₂ s (omega (arith, e)) h₂ in
    rw written (
      loop_step f m m c₁ _ _ _ (c₁ ∷ c₂ ∷ []) s (ground arith) (item_two m c₁ c₂ _ e (omega arith))
        (loop_body f m t enc (omega (arith, h, ap length written)) (omega (arith, b))))
loop_body (suc f) m t (three c₁ c₂ c₃ s e h₂ h₃ enc) h b =
    let written = body_three c₁ c₂ c₃ s (omega (arith, e)) h₂ h₃ in
    rw written (
      loop_step f m m c₁ _ _ _ (c₁ ∷ c₂ ∷ c₃ ∷ []) s (ground arith)
        (item_three m c₁ c₂ c₃ _ e (omega arith))
        (loop_body f m t enc (omega (arith, h, ap length written)) (omega (arith, b))))
loop_body (suc f) m t (four c₁ c₂ c₃ c₄ s e h₂ h₃ h₄ enc) h b =
    let written =
      body_high c₁ (c₂ ∷ c₃ ∷ c₄ ∷ s) (omega (arith, e))
      ∙ ap (λ u. c₁ ∷ u) (body_three c₂ c₃ c₄ s h₂ h₃ h₄) in
    rw written (
      loop_step f m m c₁ _ _ _ (c₁ ∷ c₂ ∷ c₃ ∷ c₄ ∷ []) s (ground arith)
        (item_four m c₁ c₂ c₃ c₄ _ e (omega arith))
        (loop_body f m t enc (omega (arith, h, ap length written)) (omega (arith, b))))

-- A value of UTF-8 without NUL that is shorter than 2^31 - 4 bytes and that was written is read back,
-- whatever text follows it; where the library does not take a text with a quote before it for `null`.
pub parse_value-serialize :
    (is_null : Bytes → Bool) (parse_null : Parser (Unit {0})) (s t : Bytes)
    → ((u : Bytes) → is_null (quote ∷ u) ≡ false)
    → IsEncoded s
    → length s + 4 < i32_half
    → parse_value is_null parse_null (serialize s ++ t) ≡ (ok s, t)
unfolding parse_value unserialize serialize
parse_value-serialize is_null parse_null s t quoted enc b =
    let loop =
      loop_body (suc (length ((body s ++ quote ∷ []) ++ t))) 0 t enc
        (omega (arith, length-append (body s) (quote ∷ []), length-append (body s ++ quote ∷ []) t))
        (omega (arith, b)) in
    rw (quoted ((body s ++ quote ∷ []) ++ t))
      (ground (arith, loop, append_assoc (body s) (quote ∷ []) t))
