-- ===== src/Comet.antt =====
-- src/common/config_manager_comet.hpp: the configuration that a daemon takes from a Comet server while it
-- runs. The client of that server, the parser of options and that of JSON strings are parameters; the calls
-- of the client are recorded. Each function is run by one thread, while no other one has the lock.
use leveldb_daemon.Prelude.{
  map, some, none, Option, ℕ, ◌+◌, ◌%◌, ◌≡◌, refl, Bool, true, false, not, ◌&&◌, ◌||◌, ◌==◌, ==_iff,
  List, [], ◌∷◌, ◌++◌, if◌then◌else◌, arith, ◌↔◌, ◌≢◌, Bool-cases, inl, inr,
}
use leveldb_daemon.Prelude.Bytes.{Bytes, beq, beq_iff}
use leveldb_daemon.Locks.{Spinlock, new_spinlock, try_lock, unlock, exchange}

pub record CometConfig : Type 0 where
  pub host : Bytes
  pub port : ℕ
  pub channel : Bytes

-- `CometConfig::operator==`
unfoldable pub same_config : CometConfig → CometConfig → Bool
same_config a other = beq other.host a.host && other.port == a.port && beq other.channel a.channel

-- What the pointer `ccs` points to.
pub data Client : Type 0 where
  no_client alive deleted : Client

pub data Call : Type 0 where
  connect : Bytes → ℕ → Call
  subscribe_to : Bytes → Call
  close idle_client : Call

pub record Manager : Type 0 where
  pub cfg : CometConfig
  pub cfg_copy : CometConfig
  pub ccs : Client
  pub has_mux : Bool
  pub mtxs : List Spinlock
  pub lck_client : Spinlock
  pub counter : ℕ
  pub calls : List Call

-- A function returns, waits for ever for a lock, or uses a pointer to nothing.
pub data Outcome : Type 0 where
  returns : Manager → Outcome
  hangs undefined : Outcome

abbrev pub is_empty : Bytes → Bool
is_empty [] = true
is_empty (c ∷ s) = false

abbrev pub is_unset : CometConfig → Bool
is_unset c = is_empty c.host || is_empty c.channel

-- `std::lock_guard` around a part of a function: the lock of a spinlock that is taken ends only when another
-- thread gives it back.
abbrev pub unlocked : Outcome → Outcome
unlocked (returns m) = returns (record m { lck_client = unlock m.lck_client })
unlocked hangs = hangs
unlocked undefined = undefined

abbrev pub guarded : (Manager → Outcome) → Manager → Outcome
guarded f m =
    let (taken, l) = try_lock m.lck_client in
    if taken then unlocked (f (record m { lck_client = l })) else hangs

abbrev pub subscribed : Manager → Outcome
subscribed m = returns (record m {
  ccs = alive;
  counter = 0;
  cfg_copy = m.cfg;
  has_mux = true;
  calls = m.calls ++ connect m.cfg.host m.cfg.port ∷ subscribe_to m.cfg.channel ∷ [];
})

unfoldable pub subscribe : Manager → Outcome
subscribe m = if is_unset m.cfg then returns m else guarded subscribed m

-- `ccs->close` and `delete ccs`
abbrev pub replace_client : Manager → Outcome
replace_client m = elim m.ccs [
  | no_client ↦ returns m
  | alive ↦ subscribe (record m { ccs = deleted; calls = m.calls ++ close ∷ [] })
  | deleted ↦ undefined
]

unfoldable pub reconnect_comet : Manager → Outcome
reconnect_comet m =
    guarded
      (λ k. if k.has_mux && not (same_config k.cfg k.cfg_copy) then replace_client k else returns k)
      m

-- `mtx->lock()` of each mutex, one after the other; `none` if one is held. A `std::mutex` is held or free as a
-- spinlock is.
abbrev pub lock_all : List Spinlock → Option (List Spinlock)
lock_all [] = some []
lock_all (x ∷ xs) =
    let (taken, y) = try_lock x in
    let rest = lock_all xs in
    if taken then elim rest [ none ↦ none | some ys ↦ some (y ∷ ys) ] else none

-- `notify` gives the values that the options have after the data were read, as far as they could be. The
-- mutexes of the options are held meanwhile. `cfg.get()`, later, takes one of them and gives it back.
unfoldable pub update_variables : (Bytes → CometConfig → CometConfig) → Bytes → Manager → Outcome
update_variables notify text m = elim (lock_all m.mtxs) [
  | none ↦ hangs
  | some held ↦ reconnect_comet (record m { cfg = notify text m.cfg; mtxs = map unlock held })
]

-- The divisor is at least 1.
unfoldable pub idle : ℕ → Manager → Outcome
idle divisor m =
    if not ((m.counter + 1) % divisor == 0)
    then returns (record m { counter = m.counter + 1 })
    else if is_unset m.cfg
    then returns (record m { counter = 0 })
    else guarded
        (λ k. elim k.ccs [
          | no_client ↦ undefined
          | alive ↦ returns (record k { calls = k.calls ++ idle_client ∷ [] })
          | deleted ↦ undefined
        ])
        (record m { counter = 0 })

pub same_config_lem : (a b : CometConfig) → (same_config a b ≡ true) ↔ (a ≡ b)
unfolding same_config
same_config_lem a b = (
  λ h. ground (arith, h, beq_iff b.host a.host, beq_iff b.channel a.channel, ==_iff b.port a.port),
  λ e. ground (arith, e, beq_iff b.host a.host, beq_iff b.channel a.channel, ==_iff b.port a.port),
)

differ : (a b : CometConfig) → a ≢ b → same_config a b ≡ false
differ a b n = elim (Bool-cases (same_config a b)) [
  | inl e ↦ absurd (n ((same_config_lem a b).0 e))
  | inr e ↦ e
]

abbrev pub are_free : List Spinlock → Bool
are_free [] = true
are_free (x ∷ xs) = not x.value && are_free xs

-- Mutexes that are free can be locked, and are free again behind `mtx->unlock()`.
lock_all-free :
    (xs : List Spinlock)
    → are_free xs ≡ true
    → (ys : List Spinlock) × (lock_all xs ≡ some ys) × (map unlock ys ≡ xs)
unfolding try_lock exchange unlock
lock_all-free [] h = ([], refl, refl)
lock_all-free (x ∷ xs) h =
    let (ys, e, f) = lock_all-free xs (ground arith) in
    (record { value = true } ∷ ys, ground (arith, e), ground (arith, f))

-- A manager that has a client, and whose locks are free.
pub record Subscribed (m : Manager) : Type 0 where
  pub is_alive : m.ccs ≡ alive
  pub with_mux : m.has_mux ≡ true
  pub free : m.lck_client.value ≡ false
  pub mtxs_free : are_free m.mtxs ≡ true

-- `updateVariables`, in a manager that has a client and whose locks are free, where host and channel are set in
-- the configuration that it reads: it returns with the client as it was if this is the configuration that the
-- client was made for, and else waits for ever for its own lock.
pub update_variables_lem :
    (notify : Bytes → CometConfig → CometConfig) (text : Bytes) (m : Manager)
    → Subscribed m
    → is_unset (notify text m.cfg) ≡ false
    → update_variables notify text m ≡ (
        if same_config (notify text m.cfg) m.cfg_copy
        then returns (record m { cfg = notify text m.cfg; lck_client = new_spinlock })
        else hangs)
unfolding update_variables reconnect_comet subscribe try_lock unlock exchange
update_variables_lem notify text m v u =
    let (ys, e, f) = lock_all-free m.mtxs v.mtxs_free in
    ground (arith, e, f, v.is_alive, v.with_mux, v.free, u)

-- A manager whose host or channel is set to nothing deletes its client; the next change uses it again.
pub deleted_client_used :
    (notify : Bytes → CometConfig → CometConfig) (first second : Bytes) (m : Manager)
    → Subscribed m
    → notify first m.cfg ≢ m.cfg_copy
    → is_unset (notify first m.cfg) ≡ true
    → notify second (notify first m.cfg) ≢ m.cfg_copy
    → (k : Manager) × (update_variables notify first m ≡ returns k)
      × (k.ccs ≡ deleted)
      × (update_variables notify second k ≡ undefined)
unfolding update_variables reconnect_comet subscribe try_lock unlock exchange
deleted_client_used notify first second m v n u n' =
    let (ys, e, f) = lock_all-free m.mtxs v.mtxs_free in
    (
      record m {
        cfg = notify first m.cfg;
        ccs = deleted;
        lck_client = new_spinlock;
        calls = m.calls ++ close ∷ [];
      },
      ground (
        arith,
        e,
        f,
        v.is_alive,
        v.with_mux,
        v.free,
        u,
        differ (notify first m.cfg) m.cfg_copy n,
      ),
      refl,
      ground (arith, e, f, v.with_mux, differ (notify second (notify first m.cfg)) m.cfg_copy n'),
    )
