-- ===== src/Mysql.antt =====
-- common/mymysql.hpp: rows (`mysql_row`), results (`mysql_result`) and their owners, and connections. The MySQL
-- library and the number parsers of the C library are parameters. A result is known by its address.
pub mod Ownership
use leveldb_daemon.Prelude.{
  ℕ, zero, suc, ◌+◌, ◌%◌, ◌-◌, ◌^◌, Bool, true, false, not, ◌&&◌, Option, none, some, List, [], ◌∷◌,
  ◌==◌, ltb, if◌then◌else◌,
}
use leveldb_daemon.Prelude.Int.{ℤ, pos, negsuc}
use leveldb_daemon.Prelude.Bytes.{Bytes}
use leveldb_daemon.Prelude.Exec.{Result, ok, throw}

-- mysql_row: the cells of the row, `none` for NULL, and the members
pub record Row : Type 0 where
  pub cells : List (Option Bytes)
  pub at : ℕ
  pub size : ℕ

-- mysql_row::init
abbrev pub init : List (Option Bytes) → ℕ → Row
init cells n = record { cells = cells; at = 0; size = n }

-- _row[_pos]; `none` is a read behind the row
abbrev pub cell : ℕ → List (Option Bytes) → Option (Option Bytes)
cell n [] = none
cell zero (c ∷ cs) = some c
cell (suc n) (c ∷ cs) = cell n cs

-- operator >>: the value of a cell, a default for NULL, and the next position; `none` as before
unfoldable pub read {ℓ} : {A : Type ℓ} → (Bytes → A) → A → Row → Option (A × Row)
read of_text default r = elim (cell r.at r.cells) [
  | none ↦ none
  | some none ↦ some (default, record r { at = suc r.at })
  | some (some text) ↦ some (of_text text, record r { at = suc r.at })
]

-- The conversion to an unsigned type of `m` values.
abbrev pub to_unsigned : ℕ → ℤ → ℕ
to_unsigned m (pos n) = n % m
to_unsigned m (negsuc n) = (m - suc (n % m)) % m

abbrev pub is_nonzero : ℤ → Bool
is_nonzero (pos n) = not (n == 0)
is_nonzero (negsuc n) = true

module _ (atoi atol atoll : Bytes → ℤ) (to_int : ℤ → ℤ) where
  abbrev pub read_bool : Row → Option (Bool × Row)
  read_bool = read (λ t. is_nonzero (atoi t)) false

  abbrev pub read_uchar : Row → Option (ℕ × Row)
  read_uchar = read (λ t. to_unsigned (2 ^ 8) (atoi t)) 0

  abbrev pub read_ushort : Row → Option (ℕ × Row)
  read_ushort = read (λ t. to_unsigned (2 ^ 16) (atoi t)) 0

  abbrev pub read_ulong : Row → Option (ℕ × Row)
  read_ulong = read (λ t. to_unsigned (2 ^ 64) (atol t)) 0

  abbrev pub read_ulonglong : Row → Option (ℕ × Row)
  read_ulonglong = read (λ t. to_unsigned (2 ^ 64) (atoll t)) 0

  abbrev pub read_uint : Row → Option (ℕ × Row)
  read_uint = read (λ t. to_unsigned (2 ^ 32) (to_int (atol t))) 0

  abbrev pub read_int : Row → Option (ℤ × Row)
  read_int = read atoi (pos 0)

  abbrev pub read_time : Row → Option (ℤ × Row)
  read_time = read atoi (pos 0)

abbrev pub read_string : Row → Option (Bytes × Row)
read_string = read (λ t. t) []

-- The objects `mysql_result` that live, the youngest one first, by their `_result`; and the addresses that
-- were given to `mysql_free_result`.
pub record Results : Type 0 where
  pub held : List (Option ℕ)
  pub freed : List ℕ

abbrev pub get_at : ℕ → List (Option ℕ) → Option ℕ
get_at n [] = none
get_at zero (x ∷ xs) = x
get_at (suc n) (x ∷ xs) = get_at n xs

abbrev pub put_at : ℕ → Option ℕ → List (Option ℕ) → List (Option ℕ)
put_at n v [] = []
put_at zero v (x ∷ xs) = v ∷ xs
put_at (suc n) v (x ∷ xs) = x ∷ put_at n v xs

-- if (_result) mysql_free_result(_result);
abbrev pub free_held : Option ℕ → List ℕ → List ℕ
free_held none freed = freed
free_held (some r) freed = r ∷ freed

-- What the program does with results: the constructors (the copy constructor finds `_result` with some
-- contents, since it does not set it first), the assignments, and the destructor of the youngest object.
pub data Use : Type 0 where
  default_construct : Use
  construct : Option ℕ → Use
  copy_construct : Option ℕ → ℕ → Use
  set_result : ℕ → Option ℕ → Use
  assign : ℕ → ℕ → Use
  destroy : Use

abbrev pub pop_held : List (Option ℕ) → List ℕ → Results
pop_held [] freed = record { held = []; freed = freed }
pop_held (r ∷ held) freed = record { held = held; freed = free_held r freed }

unfoldable pub use_result : Use → Results → Results
use_result default_construct s = record s { held = none ∷ s.held }
use_result (construct r) s = record s { held = r ∷ s.held }
use_result (copy_construct found j) s = record {
  held = get_at j s.held ∷ put_at j none s.held;
  freed = free_held found s.freed;
}
use_result (set_result i r) s = record {
  held = put_at i r s.held;
  freed = free_held (get_at i s.held) s.freed;
}
use_result (assign i j) s = record {
  held = put_at j none (put_at i (get_at j s.held) s.held);
  freed = free_held (get_at i s.held) s.freed;
}
use_result destroy s = pop_held s.held s.freed

unfoldable pub use_results : List Use → Results → Results
unfolding use_result
use_results [] s = s
use_results (u ∷ us) s = use_results us (use_result u s)

-- mysql_result::operator bool
abbrev pub has_result : Option ℕ → Bool
has_result none = false
has_result (some r) = true

-- mysql_result::operator >>: the next row of a result, where `fetch_row` gives the cells and a length, and moves
-- the state of the library; a row that there is not has no cells
unfoldable pub next_row {ℓ} :
    {S : Type ℓ}
    → (ℕ → S → Option (List (Option Bytes) × ℕ) × S)
    → Option ℕ
    → Row
    → S
    → Bool × Row × S
next_row {S} fetch_row none row s = (false, row, s)
next_row {S} fetch_row (some r) row s = elim (fetch_row r s).0 as (λ o. Bool × Row × S) [
  | none ↦ (false, init [] 0, (fetch_row r s).1)
  | some (cells, n) ↦ (true, init cells n, (fetch_row r s).1)
]

-- What the code calls of the library on a connection; a call that fails leaves an error text.
pub record Mysql : Type 1 where
  pub Conn : Type 0
  pub real_connect : Conn → Bytes → Bytes → Bytes → Bytes → ℕ → Bool × Conn
  pub set_character_set : Conn → Bytes → Bool × Conn
  pub query : Conn → Bytes → Bool × Conn
  pub store_result : Conn → Option ℕ × Conn
  pub error : Conn → Bytes

module _ (M : Mysql) where
  -- mysql_connection::connect: `std::runtime_error` has a text
  unfoldable pub connect :
      Bytes → Bytes → Bytes → Bytes → Bytes → ℕ → M.Conn → Result Bytes Bool × M.Conn
  connect utf8 addr user pass db port c =
      let (connected, c₁) = M.real_connect c addr user pass db port in
      let (set, c₂) = M.set_character_set c₁ utf8 in
      if connected
      then (if set then (ok true, c₂) else (throw (M.error c₂), c₂))
      else (throw (M.error c₁), c₁)

  -- mysql_connection::query
  unfoldable pub query : Bytes → M.Conn → Result Bytes (Option ℕ) × M.Conn
  query text c =
      let (done, c₁) = M.query c text in
      let (r, c₂) = M.store_result c₁ in if done then (ok r, c₂) else (throw (M.error c₁), c₁)
