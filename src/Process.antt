-- ===== src/Process.antt =====
-- src/common/misc.hpp and `main` of src/daemon.cpp: how the process gives up its rights, and where its
-- output goes. The calls of the system and of the C library are parameters; a process is its user and its
-- groups, its open files by their numbers, and what `setsid` and `umask` set.
pub mod Identities
pub mod Outputs
use leveldb_daemon.Prelude.{
  ℕ, ◌+◌, ◌-◌, ◌%◌, ◌^◌, ◌≡◌, Bool, true, false, not, ◌&&◌, ◌==◌, Option, none, some, List, [], ◌∷◌,
  at_index, if◌then◌else◌,
}
use leveldb_daemon.Prelude.Int.{ℤ, pos, negsuc}
use leveldb_daemon.Prelude.Exec.{Result, ok, throw, Exec, pure, raise, ◌>>=◌, ◌>>◌}
use leveldb_daemon.Prelude.Bytes.{Bytes}

pub record Identity : Type 0 where
  pub uid : ℕ
  pub euid : ℕ
  pub gid : ℕ
  pub groups : List ℕ

pub data File : Type 0 where
  null : File
  log : Bytes → File
  other : ℕ → File

pub record Process : Type 0 where
  pub identity : Identity
  pub files : ℕ → Option File
  pub is_leader : Bool
  pub mask : ℕ

-- The calls of the system; `none` for a call that fails.
pub record System : Type 0 where
  pub getpwnam : Bytes → Option (ℕ × ℕ)
  pub atoi : Bytes → ℤ
  pub setgid : ℕ → Identity → Option Identity
  pub initgroups : Bytes → ℕ → Identity → Option Identity
  pub setgroups : List ℕ → Identity → Option Identity
  pub setuid : ℕ → Identity → Option Identity
  pub freopen : Bytes → Option File

-- How `fork` comes back.
pub data Fork : Type 0 where
  child parent failed : Fork

pub data Error : Type 0 where
  no_user not_assumed : Error

-- An int as an unsigned int of 32 bits, as `uid_t` and `gid_t` are.
abbrev pub unsigned : ℤ → ℕ
unsigned (pos n) = n % 2 ^ 32
unsigned (negsuc n) = 2 ^ 32 - 1 - n % 2 ^ 32

abbrev slash : ℕ
slash = 47

-- `user.find('/')` with the two calls of `substr`.
unfoldable pub split : Bytes → Option (Bytes × Bytes)
split [] = none
split (c ∷ s) =
    let rest = split s in
    if c == slash then some ([], s) else elim rest [ none ↦ none | some (a, b) ↦ some (c ∷ a, b) ]

module _ (S : System) where
  abbrev pub assume_identity : Bool → Bytes → ℕ → ℕ → Exec Error Identity (Unit {0})
  assume_identity uid_by_name username uid gid i = elim (S.setgid gid i) [
    | none ↦ (throw not_assumed, i)
    | some i₁ ↦ elim (if uid_by_name then S.initgroups username gid i₁ else S.setgroups [] i₁) [
      | none ↦ (throw not_assumed, i₁)
      | some i₂ ↦ elim (S.setuid uid i₂) [ none ↦ (throw not_assumed, i₂) | some i₃ ↦ (ok tt, i₃) ]
    ]
  ]

  unfoldable pub change_user : Bytes → Exec Error Identity (Unit {0})
  change_user user i =
      if not (i.uid == 0) && not (i.euid == 0) then (ok tt, i) else elim (split user) [
        | some (u, g) ↦ assume_identity false user (unsigned (S.atoi u)) (unsigned (S.atoi g)) i
        | none ↦ elim (S.getpwnam user) [
          | none ↦ (throw no_user, i)
          | some (u, g) ↦ assume_identity true user u g i
        ]
      ]

  unfoldable pub redirect_output : Bytes → Process → Process
  redirect_output [] p = p
  redirect_output (c ∷ file) p = record p {
    files = at_index (at_index p.files 2 (S.freopen (c ∷ file))) 1 (S.freopen (c ∷ file));
  }

abbrev pub close : ℕ → (ℕ → Option File) → ℕ → Option File
close n files = at_index files n none

-- `dup2` changes nothing when the first number is not open.
abbrev pub dup2 : ℕ → ℕ → (ℕ → Option File) → ℕ → Option File
dup2 old new files = elim (files old) [ none ↦ files | some f ↦ at_index files new (some f) ]

-- Whether the process goes on, or exits with a status.
pub data Ending : Type 0 where
  goes_on : Process → Ending
  exits : ℕ → Ending

-- `n` is the number that `open` gives "/dev/null".
unfoldable pub daemonize : Option ℕ → Fork → Bool → Bool → Process → Ending
daemonize none f allow_stderr allow_stdout p = exits 1
daemonize (some n) parent allow_stderr allow_stdout p = exits 0
daemonize (some n) failed allow_stderr allow_stdout p = exits 1
daemonize (some n) child allow_stderr allow_stdout p =
    let opened = at_index p.files n (some null) in
    let without_stdin = dup2 n 0 (close 0 opened) in
    let without_stdout = if allow_stdout then without_stdin else dup2 n 1 (close 1 without_stdin) in
    let without_stderr =
      if allow_stderr then without_stdout else dup2 n 2 (close 2 without_stdout) in
    goes_on (record p { files = without_stderr; is_leader = true; mask = 0 })

-- `std::string::length` as a condition
abbrev pub given : Bytes → Bool
given [] = false
given (c ∷ s) = true

-- The part of `main` between the options and the database; `throw` for an exception that nothing catches.
unfoldable pub enter :
    System → Bytes → Bytes → Bool → Option ℕ → Fork → Process → Result Error Ending
enter S log_file user daemon n f p =
    let p₁ = if given log_file then redirect_output S log_file p else p in
    let (r, identity) =
      if given user then change_user S user p₁.identity else (ok tt, p₁.identity) in
    elim r [
      | throw x ↦ throw x
      | ok _ ↦
          let p₂ = record p₁ { identity = identity } in
          ok (if daemon then daemonize n f (given log_file) (given log_file) p₂ else goes_on p₂)
    ]
