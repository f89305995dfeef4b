-- ===== src/Lines.antt =====
-- src/common/ad_compressed_write.hpp: reading a line of a compressed file. The library zlib is a parameter.
use leveldb_daemon.Prelude.{
  ℕ, zero, suc, ◌+◌, ◌-◌, ◌*◌, ◌<◌, ◌≤◌, ◌≡◌, refl, ap, ◌∙◌, Bool, true, false, Option, none, some,
  [], ◌∷◌, length, drop, arith, ◌==◌, if◌then◌else◌, ltb, leb,
}
use leveldb_daemon.Prelude.Bytes.{Bytes}

-- `gzgets` with the length of the buffer: the bytes before the terminating zero, or `none` for NULL.
pub record Zlib : Type 1 where
  pub File : Type 0
  pub gzgets : ℕ → File → Option Bytes × File

-- What zlib documents: as many bytes as there are up to the end of the line, one less than the length at most,
-- so that there is room for the terminating zero.
pub record Documented (Z : Zlib) : Type 0 where
  pub fits : (n : ℕ) (f : Z.File) (s : Bytes) → (Z.gzgets n f).0 ≡ some s → length s < n

-- `std::vector::resize`
abbrev pub resize : ℕ → Bytes → Bytes
resize zero line = []
resize (suc n) [] = 0 ∷ resize n []
resize (suc n) (c ∷ line) = c ∷ resize n line

-- `line[line.size()-1] = 0` and `line[line.size()-1]`
abbrev pub clear_last : Bytes → Bytes
clear_last [] = []
clear_last (c ∷ []) = 0 ∷ []
clear_last (c ∷ d ∷ line) = c ∷ clear_last (d ∷ line)

abbrev pub last : Bytes → ℕ
last [] = 0
last (c ∷ []) = c
last (c ∷ d ∷ line) = last (d ∷ line)

-- A string with its terminating zero, written into a buffer.
abbrev pub write : Bytes → Bytes → Bytes
write s [] = []
write [] (c ∷ line) = 0 ∷ line
write (d ∷ s) (c ∷ line) = d ∷ write s line

abbrev pub write_at : ℕ → Bytes → Bytes → Bytes
write_at zero s line = write s line
write_at (suc n) s [] = []
write_at (suc n) s (c ∷ line) = c ∷ write_at n s line

-- The bytes before the first zero, whose number is `strlen`.
abbrev pub before_zero : Bytes → Bytes
before_zero [] = []
before_zero (zero ∷ line) = []
before_zero (suc c ∷ line) = suc c ∷ before_zero line

module _ (Z : Zlib) where
  -- The loop on fuel; `none` for a buffer that ends before the position, or without fuel.
  unfoldable pub getline_loop : ℕ → ℕ → Bytes → Z.File → Option (Bool × Bytes × Z.File)
  getline_loop zero pos line file = none
  getline_loop (suc n) pos line file =
      let longer = clear_last (resize (length line + 16384) line) in
      let next_pos = pos + (length line - 1) in
      let (s, rest) = Z.gzgets (length longer - next_pos) file in
      elim s [
        | none ↦
            if ltb (1024 * 1024 * 1024) next_pos
            then some (false, line, file)
            else if ltb next_pos (length longer)
            then some (false, longer, rest)
            else none
        | some t ↦
            let filled = write_at next_pos t longer in
            let after = getline_loop n next_pos filled rest in
            if ltb (1024 * 1024 * 1024) next_pos
            then some (false, line, file)
            else if leb (length longer) next_pos
            then none
            else if last filled == 0
            then some
                (true, resize (length (before_zero (drop next_pos filled)) + next_pos) filled, rest)
            else after
      ]

  -- `getline` into a vector with this capacity; `none` where it has none, and there is no last byte.
  unfoldable pub getline : ℕ → ℕ → Bytes → Z.File → Option (Bool × Bytes × Z.File)
  getline n zero line file = none
  getline n (suc c) line file =
      let cleared = clear_last (resize (suc c) line) in
      let (s, rest) = Z.gzgets (suc c) file in
      elim s [
        | none ↦ some (false, cleared, rest)
        | some t ↦
            let filled = write t cleared in
            if last filled == 0
            then some (true, before_zero filled, rest)
            else getline_loop n 0 filled rest
      ]

length-resize : (n : ℕ) (line : Bytes) → length (resize n line) ≡ n
length-resize zero line = refl
length-resize (suc n) [] = ap suc (length-resize n [])
length-resize (suc n) (c ∷ line) = ap suc (length-resize n line)

length-clear_last : (line : Bytes) → length (clear_last line) ≡ length line
length-clear_last [] = refl
length-clear_last (c ∷ []) = refl
length-clear_last (c ∷ d ∷ line) = ap suc (length-clear_last (d ∷ line))

last-clear_last : (line : Bytes) → last (clear_last line) ≡ 0
last-clear_last [] = refl
last-clear_last (c ∷ []) = refl
last-clear_last (c ∷ d ∷ []) = refl
last-clear_last (c ∷ d ∷ e ∷ line) = last-clear_last (d ∷ e ∷ line)

last-write : (s line : Bytes) → length s < length line → last line ≡ 0 → last (write s line) ≡ 0
last-write s [] h e = refl
last-write [] (c ∷ []) h e = refl
last-write [] (c ∷ d ∷ line) h e = e
last-write (x ∷ s) (c ∷ []) h e = absurd (omega (arith, h))
last-write (x ∷ []) (c ∷ d ∷ line) h e = last-write [] (d ∷ line) (omega arith) e
last-write (x ∷ y ∷ s) (c ∷ d ∷ line) h e = last-write (y ∷ s) (d ∷ line) (omega (arith, h)) e

before_zero-write :
    (s line : Bytes) → length s < length line → before_zero (write s line) ≡ before_zero s
before_zero-write s [] h = absurd (omega (arith, h))
before_zero-write [] (c ∷ line) h = refl
before_zero-write (zero ∷ s) (c ∷ line) h = refl
before_zero-write (suc x ∷ s) (c ∷ line) h =
    ap (λ t. suc x ∷ t) (before_zero-write s line (omega (arith, h)))

-- `getline` never comes to its loop: it returns what the first call of `gzgets` gives, fewer bytes than the
-- capacity of the vector, though the line may go on.
getline_lem :
    (Z : Zlib) (D : Documented Z) (n c : ℕ) (line s : Bytes) (file : Z.File)
    → (Z.gzgets (suc c) file).0 ≡ some s
    → (getline Z n (suc c) line file ≡ some (true, before_zero s, (Z.gzgets (suc c) file).1))
      × (length s ≤ c)
unfolding getline
getline_lem Z D n c line s file e =
    let cleared = clear_last (resize (suc c) line) in
    let long : length cleared ≡ suc c =
      length-clear_last (resize (suc c) line) ∙ length-resize (suc c) line in
    let room : length s < length cleared = omega (arith, D.fits (suc c) file s e, long) in
    let ends = last-write s cleared room (last-clear_last (resize (suc c) line)) in
    let cut = before_zero-write s cleared room in
    (ground (arith, e, ends, cut), omega (arith, D.fits (suc c) file s e))
