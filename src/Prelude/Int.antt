-- ===== src/Prelude/Int.antt =====
-- Signed integers over the native numbers, and the ranges of `int` and `long long`.
use Prim.Native.Nat.{ℕ, suc, ◌+◌, ◌-◌, ◌*◌, ◌%◌, ◌≤◌, ◌<◌}
use mathlib.Core.Path.{◌≡◌}
use mathlib.Core.Bool.{Bool}
use native.Mathlib.Omega.{arith}
use leveldb_daemon.Prelude.Tests.{ltb, leb, if◌then◌else◌}

-- `negsuc n` is -(n + 1).
pub data ℤ : Type 0 where
  pos : ℕ → ℤ
  negsuc : ℕ → ℤ

abbrev pub pos_part : ℤ → ℕ
pos_part (pos n) = n
pos_part (negsuc n) = 0

abbrev pub neg_part : ℤ → ℕ
neg_part (pos n) = 0
neg_part (negsuc n) = suc n

-- a - b, as an integer.
abbrev pub sub_ℕ : ℕ → ℕ → ℤ
sub_ℕ a b = if leb b a then pos (a - b) else negsuc (b - a - 1)

infixl 65 ◌+ℤ◌ ◌-ℤ◌
infix 50 ◌≤ℤ◌
unfoldable pub ◌+ℤ◌ : ℤ → ℤ → ℤ
a +ℤ b = sub_ℕ (pos_part a + pos_part b) (neg_part a + neg_part b)

unfoldable pub ◌-ℤ◌ : ℤ → ℤ → ℤ
a -ℤ b = sub_ℕ (pos_part a + neg_part b) (neg_part a + pos_part b)

abbrev pub ◌≤ℤ◌ : ℤ → ℤ → Type 0
a ≤ℤ b = pos_part a + neg_part b ≤ pos_part b + neg_part a

abbrev pub ltb_ℤ : ℤ → ℤ → Bool
ltb_ℤ a b = ltb (pos_part a + neg_part b) (pos_part b + neg_part a)

abbrev pub leb_ℤ : ℤ → ℤ → Bool
leb_ℤ a b = leb (pos_part a + neg_part b) (pos_part b + neg_part a)

-- Two's complement: the `w`-bit value (of 2 * half values) that stands for an integer.
unfoldable pub wrap : ℕ → ℤ → ℤ
wrap half a =
    let r = (pos_part a % (2 * half) + (2 * half - neg_part a % (2 * half))) % (2 * half) in
    if ltb r half then pos r else negsuc (2 * half - 1 - r)

abbrev pub i32_half : ℕ
i32_half = 2147483648

abbrev pub i64_half : ℕ
i64_half = 9223372036854775808

-- -half <= a < half
abbrev pub InRange : ℕ → ℤ → Type 0
InRange half a = (pos_part a < half) × (neg_part a ≤ half)

-- Sums and differences of `int`, and of `long long`, as the machine forms them.
unfoldable pub add_i32 : ℤ → ℤ → ℤ
add_i32 a b = wrap i32_half (a +ℤ b)

unfoldable pub add_i64 : ℤ → ℤ → ℤ
add_i64 a b = wrap i64_half (a +ℤ b)

pub wrap-InRange_i32 : (a : ℤ) → InRange i32_half a → wrap i32_half a ≡ a
unfolding wrap
wrap-InRange_i32 (pos n) h = ground arith
wrap-InRange_i32 (negsuc n) h = ground arith

pub InRange-wrap_i64 : (a : ℤ) → InRange i64_half (wrap i64_half a)
unfolding wrap
InRange-wrap_i64 a = ground arith

-- Wrapping once at the end is wrapping at each sum.
pub wrap-add_i64 : (a b : ℤ) → wrap i64_half (wrap i64_half a +ℤ b) ≡ wrap i64_half (a +ℤ b)
unfolding wrap ◌+ℤ◌
wrap-add_i64 (pos a) (pos b) = ground arith
wrap-add_i64 (pos a) (negsuc b) = ground arith
wrap-add_i64 (negsuc a) (pos b) = ground arith
wrap-add_i64 (negsuc a) (negsuc b) = ground arith

pub +ℤ_assoc : (a b c : ℤ) → a +ℤ b +ℤ c ≡ a +ℤ (b +ℤ c)
unfolding ◌+ℤ◌
+ℤ_assoc a b c = ground arith

pub +ℤ_zero : (a : ℤ) → a +ℤ pos 0 ≡ a
unfolding ◌+ℤ◌
+ℤ_zero a = ground arith

pub add_i32_pos : (a b : ℕ) → a + b < i32_half → add_i32 (pos a) (pos b) ≡ pos (a + b)
unfolding add_i32 wrap ◌+ℤ◌
add_i32_pos a b h = ground arith

pub add_i32_overflow :
    (a b : ℕ)
    → a < i32_half
    → b < i32_half
    → i32_half ≤ a + b
    → pos_part (add_i32 (pos a) (pos b)) ≡ 0
unfolding add_i32 wrap ◌+ℤ◌
add_i32_overflow a b ha hb h = ground arith
