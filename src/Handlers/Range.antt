-- ===== src/Handlers/Range.antt =====
-- `get_range` of src/fas_methods.hpp and `request::get_range` of src/fas_queries.hpp.
use leveldb_daemon.Prelude.{
  ℕ, zero, suc, ◌+◌, ◌-◌, ◌≤◌, ◌<◌, ◌≡◌, refl, ap, ◌∙◌, Bool, true, false, ◌&&◌, ◌||◌, Option, none,
  some, List, [], ◌∷◌, arith, if◌then◌else◌, is_empty, length, take, drop, take-nil, Bool-cases,
  inl, inr,
}
use leveldb_daemon.Prelude.Int.{
  ℤ, pos, pos_part, ltb_ℤ, leb_ℤ, add_i32, ◌+ℤ◌, i32_half, InRange, add_i32_pos, add_i32_overflow,
  wrap-InRange_i32,
}
use leveldb_daemon.Prelude.Bytes.{Bytes, ble}
use leveldb_daemon.Db.{Leveldb, Contract}
use leveldb_daemon.Db.Entries.{Entry, from_key}

-- struct request::get_range, and its defaults
pub record GetRange : Type 0 where
  pub from : Bytes
  pub to : Bytes
  pub limit : ℤ
  pub skip : ℤ

abbrev pub default_get_range : GetRange
default_get_range = record { from = []; to = []; limit = pos 1000; skip = pos 0 }

abbrev pub max_range : ℕ
max_range = 11000

module _ (L : Leveldb) where
  -- The loop of `get_range::request`, with the rounds that `count < total_limit` leaves.
  unfoldable pub range_loop : ℕ → Bytes → ℤ → ℕ → L.Iterator → List Entry
  range_loop zero to skip count it = []
  range_loop (suc n) to skip count it =
      let rest = range_loop n to skip (count + 1) (L.next it) in
      if L.valid it && (is_empty to || ble (L.key it) to)
      then (if leb_ℤ skip (pos count) then (L.key it, L.value it) ∷ rest else rest)
      else []

  -- get_range::request; `none` is the result `false`
  unfoldable pub get_range : GetRange → L.Db → Option (List Entry)
  get_range cmd d =
      let it = L.new_iterator d in
      let start = if is_empty cmd.from then L.seek_to_first it else L.seek it cmd.from in
      let total_limit = add_i32 cmd.limit cmd.skip in
      if ltb_ℤ cmd.limit (pos 0)
      then none
      else if ltb_ℤ cmd.skip (pos 0)
      then none
      else if ltb_ℤ (pos max_range) total_limit
      then none
      else some (range_loop (pos_part total_limit) cmd.to cmd.skip 0 start)

-- The entries from the first one on while their keys are not above `to`.
abbrev pub up_to : Bytes → List Entry → List Entry
up_to to [] = []
up_to to ((k, v) ∷ es) =
    let rest = up_to to es in if is_empty to || ble k to then (k, v) ∷ rest else []

-- The entries that a range names, an empty bound being none.
abbrev pub window : Bytes → Bytes → List Entry → List Entry
window from to es = up_to to (if is_empty from then es else from_key from es)

module _ (L : Leveldb) (C : Contract L) where
  open C use {entries, rest, snapshot-new, rest-first, rest-seek, valid_rest, next_rest}

  -- Behind the entries to skip.
  range_loop_taking :
      (n : ℕ) (to : Bytes) (skip count : ℕ) (it : L.Iterator) (es : List Entry)
      → skip ≤ count
      → rest it ≡ es
      → range_loop L n to (pos skip) count it ≡ take n (up_to to es)
  unfolding range_loop
  range_loop_taking zero to skip count it es h e = refl
  range_loop_taking (suc n) to skip count it [] h e = ground (arith, valid_rest it)
  range_loop_taking (suc n) to skip count it ((k, v) ∷ es) h e =
      let (key, value, behind) = next_rest it (k, v) es e in
      elim (Bool-cases (is_empty to || ble k to)) [
        | inl within ↦ ground (
          arith,
          within,
          key,
          value,
          valid_rest it,
          ap (λ t. ble t to) key,
          range_loop_taking n to skip (count + 1) (L.next it) es (omega arith) behind,
        )
        | inr outside ↦ ground (arith, outside, valid_rest it, ap (λ t. ble t to) key)
      ]

  range_loop_lem :
      (b n : ℕ) (to : Bytes) (skip count : ℕ) (it : L.Iterator) (es : List Entry)
      → skip ≡ count + b
      → rest it ≡ es
      → range_loop L n to (pos skip) count it ≡ take (n - b) (drop b (up_to to es))
  unfolding range_loop
  range_loop_lem zero n to skip count it es h e =
      let same : n - 0 ≡ n = omega arith in
      rw same (range_loop_taking n to skip count it es (omega arith) e)
  range_loop_lem (suc b) zero to skip count it es h e =
      let none_left : 0 - suc b ≡ 0 = omega arith in rw none_left
  range_loop_lem (suc b) (suc n) to skip count it [] h e =
      ground (arith, valid_rest it, take-nil {A = Entry} (suc n - suc b))
  range_loop_lem (suc b) (suc n) to skip count it ((k, v) ∷ es) h e =
      let (key, value, behind) = next_rest it (k, v) es e in
      let one_less : suc n - suc b ≡ n - b = omega arith in
      elim (Bool-cases (is_empty to || ble k to)) [
        | inl within ↦ rw one_less (
            ground (
              arith,
              within,
              valid_rest it,
              ap (λ t. ble t to) key,
              range_loop_lem b n to skip (count + 1) (L.next it) es (omega arith) behind,
            ))
        | inr outside ↦ ground (
          arith,
          outside,
          valid_rest it,
          ap (λ t. ble t to) key,
          take-nil {A = Entry} (suc n - suc b),
        )
      ]

  range_start :
      (from : Bytes) (d : L.Db)
      → rest (
          if is_empty from
          then L.seek_to_first (L.new_iterator d)
          else L.seek (L.new_iterator d) from)
        ≡ (if is_empty from then entries d else from_key from (entries d))
  range_start [] d = rest-first (L.new_iterator d) ∙ snapshot-new d
  range_start (c ∷ from) d =
      rest-seek (L.new_iterator d) (c ∷ from) ∙ ap (from_key (c ∷ from)) (snapshot-new d)

  -- In a database that meets `Contract`, a `get_range` with a limit and a number of entries to skip that are together within the maximum
  -- returns, of the entries from `from` up to and with `to`, in key order, those behind the skipped
  -- ones, at most `limit`; an empty bound is none.
  pub get_range-window :
      (from to : Bytes) (limit skip : ℕ) (d : L.Db)
      → limit + skip ≤ max_range
      → get_range L (record { from = from; to = to; limit = pos limit; skip = pos skip }) d
        ≡ some (take limit (drop skip (window from to (entries d))))
  unfolding get_range
  get_range-window from to limit skip d h =
      let total = add_i32_pos limit skip (omega arith) in
      let back : limit + skip - skip ≡ limit = omega arith in
      let found =
        range_loop_lem skip (limit + skip) to skip 0 _ _ (omega arith) (range_start from d) in
      ground (arith, total, back, found)

length-range_loop :
    (L : Leveldb) (n : ℕ) (to : Bytes) (skip : ℤ) (count : ℕ) (it : L.Iterator)
    → length (range_loop L n to skip count it) ≤ n
unfolding range_loop
length-range_loop L zero to skip count it = omega arith
length-range_loop L (suc n) to skip count it =
    ground (arith, length-range_loop L n to skip (count + 1) (L.next it))

-- A `get_range` that answers returns at most 11000 entries, whatever the command.
get_range_bounded :
    (L : Leveldb) (cmd : GetRange) (d : L.Db) (r : List Entry)
    → get_range L cmd d ≡ some r
    → length r ≤ max_range
unfolding get_range
get_range_bounded L cmd d r h =
    let it = L.new_iterator d in
    let start = if is_empty cmd.from then L.seek_to_first it else L.seek it cmd.from in
    ground
      (arith, length-range_loop L (pos_part (add_i32 cmd.limit cmd.skip)) cmd.to cmd.skip 0 start)

abbrev pub refused {ℓ} : {A : Type ℓ} → Option A → Bool
refused none = true
refused (some a) = false

-- Without an overflow of `int`, a `get_range` answers `false` exactly if the limit or the number of
-- entries to skip is negative, or their sum is above 11000.
get_range_refuses :
    (L : Leveldb) (cmd : GetRange) (d : L.Db)
    → InRange i32_half (cmd.limit +ℤ cmd.skip)
    → refused (get_range L cmd d) ≡ (
        ltb_ℤ cmd.limit (pos 0)
        || ltb_ℤ cmd.skip (pos 0)
        || ltb_ℤ (pos max_range) (cmd.limit +ℤ cmd.skip))
unfolding get_range add_i32
get_range_refuses L cmd d h = ground (arith, wrap-InRange_i32 (cmd.limit +ℤ cmd.skip) h)

-- The sum of the limit and the number of entries to skip may overflow `int`: with a machine that
-- wraps, such a command passes the check of the maximum, and the answer is empty.
get_range_overflow :
    (L : Leveldb) (from to : Bytes) (limit skip : ℕ) (d : L.Db)
    → limit < i32_half
    → skip < i32_half
    → i32_half ≤ limit + skip
    → get_range L (record { from = from; to = to; limit = pos limit; skip = pos skip }) d ≡ some []
unfolding get_range range_loop
get_range_overflow L from to limit skip d hl hs h =
    ground (arith, add_i32_overflow limit skip hl hs h)
