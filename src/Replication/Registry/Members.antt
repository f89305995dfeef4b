-- ===== src/Replication/Registry/Members.antt =====
-- src/replication.hpp: which slaves are registered after `add_client`.
use leveldb_daemon.Prelude.{
  ◌≡◌, ◌∙◌, Bool, true, false, not, Option, none, some, if◌then◌else◌, arith, Bool-cases,
  Option-cases, inl, inr,
}
use leveldb_daemon.Prelude.Bytes.{Bytes, codes, beq, beq_refl, beq_iff}
use leveldb_daemon.Prelude.Exec.{Result-cases, Exec}
use leveldb_daemon.Assoc.{
  find, contains, assign, erase, find-assign, find-erase, contains-find, find-none_of_contains,
}
use leveldb_daemon.Db.{Leveldb}
use leveldb_daemon.Serializers.{Serializers}
use leveldb_daemon.Replication.{new_client, Session, Failure}
use leveldb_daemon.Replication.Registry.{Master, on_client, begin_client, add_client}

abbrev pub is_some {ℓ} : {A : Type ℓ} → Option A → Bool
is_some none = false
is_some (some a) = true

on_client-others {ℓ} :
    {A : Type ℓ} (id j : Bytes) (m : Exec Failure Session A) (w : Master)
    → beq id j ≡ false
    → find j (on_client id m w).1.clients ≡ find j w.clients
unfolding on_client
on_client-others id j m w other = elim (Option-cases (find id w.clients)) [
  | inl e ↦ ground (arith, e)
  | inr (c, e) ↦
      let s = (m (record { client = c; conn = w.conn })).1 in
      elim (Result-cases (m (record { client = c; conn = w.conn })).0) [
        | inl (a, r) ↦ ground (arith, e, r, find-assign id j s.client w.clients)
        | inr (x, r) ↦ ground (arith, e, r, find-assign id j s.client w.clients)
      ]
]

on_client-registered {ℓ} :
    {A : Type ℓ} (id : Bytes) (m : Exec Failure Session A) (w : Master)
    → is_some (find id w.clients) ≡ true
    → is_some (find id (on_client id m w).1.clients) ≡ true
unfolding on_client
on_client-registered id m w there = elim (Option-cases (find id w.clients)) [
  | inl e ↦ absurd (ground (arith, e))
  | inr (c, e) ↦
      let s = (m (record { client = c; conn = w.conn })).1 in
      elim (Result-cases (m (record { client = c; conn = w.conn })).0) [
        | inl (a, r) ↦ ground (arith, e, r, find-assign id id s.client w.clients, beq_refl id)
        | inr (x, r) ↦ ground (arith, e, r, find-assign id id s.client w.clients, beq_refl id)
      ]
]

module _ (L : Leveldb) (J : Serializers) (d : L.Db) (id state : Bytes) where
  -- `add_client` with the client that it makes, if there is none.
  abbrev with_client : Master → Master
  with_client w =
      if contains id w.clients
      then w
      else record w { clients = assign id (new_client id) w.clients }

  with_client-others :
      (j : Bytes) (w : Master)
      → beq id j ≡ false
      → find j (with_client w).clients ≡ find j w.clients
  with_client-others j w other = ground (arith, find-assign id j (new_client id) w.clients)

  with_client-registered : (w : Master) → is_some (find id (with_client w).clients) ≡ true
  with_client-registered w = ground (
    arith,
    find-assign id id (new_client id) w.clients,
    beq_refl id,
    find-none_of_contains id w.clients,
    Option-cases (find id w.clients),
  )

  begin_client-others :
      (j : Bytes) (w : Master)
      → beq id j ≡ false
      → find j (begin_client L J d id state w).1.clients ≡ find j w.clients
  unfolding begin_client
  begin_client-others j w other = elim (Bool-cases (beq state (codes "start"))) [
    | inl e ↦ rw e (on_client-others id j _ (with_client w) other ∙ with_client-others j w other)
    | inr e ↦ rw e (on_client-others id j _ (with_client w) other ∙ with_client-others j w other)
  ]

  begin_client-registered :
      (w : Master) → is_some (find id (begin_client L J d id state w).1.clients) ≡ true
  unfolding begin_client
  begin_client-registered w = elim (Bool-cases (beq state (codes "start"))) [
    | inl e ↦ rw e (on_client-registered id _ (with_client w) (with_client-registered w))
    | inr e ↦ rw e (on_client-registered id _ (with_client w) (with_client-registered w))
  ]

module _ (L : Leveldb) (J : Serializers) (d : L.Db) (id state : Bytes) where
  -- Registering a slave, whatever the state it asks for and whether or not that throws, leaves all other
  -- slaves as they are.
  add_client-others :
      (j : Bytes) (w : Master)
      → beq id j ≡ false
      → find j (add_client L J d id state w).1.clients ≡ find j w.clients
  unfolding add_client
  add_client-others j w other =
      let dropped : Master = record w { clients = erase id w.clients } in
      ground (
        arith,
        find-erase id j w.clients,
        begin_client-others L J d id state j w other,
        begin_client-others L J d id state j dropped other,
        begin_client-others L J d id (codes "start") j w other,
      )

  -- After a slave has registered, whether or not that throws, it is in the registry exactly if it did not ask to stop.
  pub add_client-registered :
      (w : Master)
      → is_some (find id (add_client L J d id state w).1.clients) ≡ not (beq state (codes "stop"))
  unfolding add_client
  add_client-registered w =
      let dropped : Master = record w { clients = erase id w.clients } in
      ground (
        arith,
        find-erase id id w.clients,
        beq_refl id,
        contains-find id w.clients,
        beq_iff state (codes "stop"),
        beq_iff state (codes "start"),
        beq_iff state (codes "auto"),
        begin_client-registered L J d id state w,
        begin_client-registered L J d id state dropped,
        begin_client-registered L J d id (codes "start") w,
      )
