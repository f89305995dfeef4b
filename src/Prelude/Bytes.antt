-- ===== src/Prelude/Bytes.antt =====
-- `std::string` as a list of bytes: equality, and the order of `operator<`, which is also the order
-- of `leveldb::Slice::compare` (both compare bytes as unsigned numbers).
use Prim.Native.Nat.{ℕ}
use Prim.Native.Char.{code}
use Prim.Native.String.{String}
use mathlib.Core.Path.{◌≡◌, refl, ap}
use mathlib.Core.Logic.{◌↔◌, inl, inr}
use mathlib.Core.Bool.{Bool, true, false, ◌&&◌, not}
use mathlib.Core.List.{List, [], ◌∷◌}
use native.Mathlib.Omega.{arith}
use leveldb_daemon.Prelude.Tests.{ltb, ◌==◌ as ◌=ℕ=◌, if◌then◌else◌, Bool-cases}

abbrev pub Bytes : Type 0
Bytes = List ℕ

-- The bytes of an ASCII literal.
abbrev pub codes : String → Bytes
codes String.[] = []
codes (String.◌∷◌ c s) = code c ∷ codes s

-- `a == b`
unfoldable pub beq : Bytes → Bytes → Bool
beq [] [] = true
beq [] (y ∷ ys) = false
beq (x ∷ xs) [] = false
beq (x ∷ xs) (y ∷ ys) = ◌=ℕ=◌ x y && beq xs ys

-- `a < b`
unfoldable pub blt : Bytes → Bytes → Bool
blt [] [] = false
blt [] (y ∷ ys) = true
blt (x ∷ xs) [] = false
blt (x ∷ xs) (y ∷ ys) =
    let rest = blt xs ys in if ltb x y then true else if ltb y x then false else rest

-- `a.compare(b) <= 0`
unfoldable pub ble : Bytes → Bytes → Bool
unfolding blt
ble a b = not (blt b a)

pub beq_iff : (a b : Bytes) → (beq a b ≡ true) ↔ (a ≡ b)
unfolding beq
beq_iff [] [] = (λ _. refl, λ _. refl)
beq_iff [] (y ∷ ys) = (λ h. cc, λ h. cc)
beq_iff (x ∷ xs) [] = (λ h. cc, λ h. cc)
beq_iff (x ∷ xs) (y ∷ ys) = (λ h. ground (arith, beq_iff xs ys), λ h. ground (arith, beq_iff xs ys))

pub beq_refl : (a : Bytes) → beq a a ≡ true
beq_refl a = (beq_iff a a).1 refl

pub blt_irrefl : (a : Bytes) → blt a a ≡ false
unfolding blt
blt_irrefl [] = refl
blt_irrefl (x ∷ xs) = ground (arith, blt_irrefl xs)

pub blt_trans : (a b c : Bytes) → blt a b ≡ true → blt b c ≡ true → blt a c ≡ true
unfolding blt
blt_trans [] b [] h k = ground arith
blt_trans [] b (z ∷ zs) h k = refl
blt_trans (x ∷ xs) [] c h k = cc
blt_trans (x ∷ xs) (y ∷ ys) [] h k = cc
blt_trans (x ∷ xs) (y ∷ ys) (z ∷ zs) h k = ground (arith, blt_trans xs ys zs)

-- Of two different strings one is below the other.
pub blt_total : (a b : Bytes) → blt a b ≡ false → blt b a ≡ false → a ≡ b
unfolding blt
blt_total [] [] h k = refl
blt_total [] (y ∷ ys) h k = cc
blt_total (x ∷ xs) [] h k = cc
blt_total (x ∷ xs) (y ∷ ys) h k = ground (arith, blt_total xs ys)

pub blt_asymm : (a b : Bytes) → blt a b ≡ true → blt b a ≡ false
blt_asymm a b h = elim (Bool-cases (blt b a)) [
  | inl k ↦ absurd (ground (arith, blt_trans a b a, blt_irrefl a))
  | inr k ↦ k
]

-- A string is above another, or it is equal or below.
pub beq-false_of_blt : (a b : Bytes) → blt a b ≡ true → beq a b ≡ false
beq-false_of_blt a b h = elim (Bool-cases (beq a b)) [
  | inl e ↦ absurd (cc (h, blt_irrefl b, ap (λ t. blt t b) ((beq_iff a b).0 e)))
  | inr e ↦ e
]

pub beq_comm : (a b : Bytes) → beq a b ≡ beq b a
unfolding beq
beq_comm [] [] = refl
beq_comm [] (y ∷ ys) = refl
beq_comm (x ∷ xs) [] = refl
beq_comm (x ∷ xs) (y ∷ ys) = ground (arith, beq_comm xs ys)
