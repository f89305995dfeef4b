-- ===== src/StringValue/Escapes.antt =====
-- src/strvalue.hpp: what `unserialize` makes of a `\u` escape, and `serialize` of a NUL byte.
use leveldb_daemon.Prelude.{
  ℕ, suc, ◌+◌, ◌*◌, ◌/◌, ◌%◌, ◌<◌, ◌≡◌, refl, ap, Bool, true, false, [], ◌∷◌, ◌++◌, leb,
  if◌then◌else◌, arith, inl, inr, Bool-cases,
}
use leveldb_daemon.Prelude.Int.{negsuc, i32_half}
use leveldb_daemon.Prelude.Bytes.{Bytes}
use leveldb_daemon.Prelude.Exec.{ok}
use leveldb_daemon.StringValue.{to_ushort, put_code, unserialize_uhex, body, serialize, quote}
use leveldb_daemon.StringValue.RoundTrip.{IsEncoded, one, two, three, nothing, less_one_negsuc}

-- The character of a hexadecimal digit, a capital letter or a small one.
abbrev pub hex_char : Bool → ℕ → ℕ
hex_char capital d = if leb d 9 then 48 + d else if capital then 55 + d else 87 + d

-- The code point that a sequence of UTF-8 stands for, up to three bytes.
abbrev pub code_point : Bytes → ℕ
code_point [] = 0
code_point (a ∷ []) = a
code_point (a ∷ b ∷ []) = a % 32 * 64 + b % 64
code_point (a ∷ b ∷ c ∷ s) = a % 16 * 4096 + b % 64 * 64 + c % 64

to_ushort-hex_char :
    (capital : Bool) (d : ℕ) (s : Bytes) → d < 16 → to_ushort (hex_char capital d) s ≡ (ok d, s)
unfolding to_ushort
to_ushort-hex_char true d s h = ground arith
to_ushort-hex_char false d s h = ground arith

put_code-code_point :
    (m hex : ℕ) (t : Bytes)
    → m + 2 < i32_half
    → 0 < hex
    → hex < 65536
    → (out : Bytes) × (put_code (negsuc m) hex t ≡ (ok out, t))
      × (code_point out ≡ hex)
      × IsEncoded out
unfolding put_code
put_code-code_point m hex t b lo hi =
    let n₁ = less_one_negsuc m (omega (arith, b)) in
    let n₂ = less_one_negsuc (suc m) (omega (arith, b)) in
    elim (Bool-cases (leb hex 127)) [
      | inl e ↦ (hex ∷ [], ground (arith, e), refl, one hex [] lo (ground (arith, e)) nothing)
      | inr e ↦ elim (Bool-cases (leb hex 2047)) [
        | inl f ↦ (
          (192 + hex / 64) ∷ (128 + hex % 64) ∷ [],
          ground (arith, e, f, n₁),
          ground (arith, e, f),
          two _ _ [] (ground (arith, e, f)) (omega arith) nothing,
        )
        | inr f ↦ (
          (224 + hex / 4096) ∷ (128 + hex / 64 % 64) ∷ (128 + hex % 64) ∷ [],
          ground (arith, e, f, n₁, n₂),
          ground (arith, e, f),
          three _ _ _ [] (ground (arith, e, f)) (omega arith) (omega arith) nothing,
        )
      ]
    ]

-- Four hexadecimal digits of a number other than 0, capital or small, are read to the end, and give the
-- UTF-8 of the code point that they name; where less than 2^31 - 3 escapes were counted before.
unserialize_uhex-code_point :
    (capital : Bool) (m d₃ d₂ d₁ d₀ : ℕ) (t : Bytes)
    → m + 2 < i32_half
    → d₃ < 16
    → d₂ < 16
    → d₁ < 16
    → d₀ < 16
    → 0 < d₃ + d₂ + d₁ + d₀
    → let digits : Bytes =
        hex_char capital d₃
        ∷ hex_char capital d₂
        ∷ hex_char capital d₁
        ∷ hex_char capital d₀
        ∷ [] in
      (out : Bytes) × (unserialize_uhex (negsuc m) (digits ++ t) ≡ (ok out, t))
      × (code_point out ≡ d₃ * 4096 + d₂ * 256 + d₁ * 16 + d₀)
      × IsEncoded out
unfolding unserialize_uhex
unserialize_uhex-code_point capital m d₃ d₂ d₁ d₀ t b h₃ h₂ h₁ h₀ some_digit =
    let (out, written, value, enc) =
      put_code-code_point m (d₃ * 4096 + d₂ * 256 + d₁ * 16 + d₀) t b (omega arith) (omega arith) in
    (
      out,
      rw
          (
            to_ushort-hex_char capital d₃ _ h₃,
            to_ushort-hex_char capital d₂ _ h₂,
            to_ushort-hex_char capital d₁ _ h₁,
            to_ushort-hex_char capital d₀ _ h₀,
          )
          written,
      value,
      enc,
    )

body_cut : (s t : Bytes) → body (s ++ 0 ∷ t) ≡ body s
unfolding body
body_cut [] t = refl
body_cut (c ∷ s) t = ground (arith, body_cut s t)

-- A value is written up to its first NUL byte only: what is behind it is lost.
serialize_cut : (s t : Bytes) → serialize (s ++ 0 ∷ t) ≡ serialize s
unfolding serialize
serialize_cut s t = ap (λ u. quote ∷ u ++ quote ∷ []) (body_cut s t)
