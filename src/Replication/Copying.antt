-- ===== src/Replication/Copying.antt =====
-- src/replication.hpp: the first copy of the master's database to a slave (`sync_initial`,
-- `_push_next_portion`).
use leveldb_daemon.Prelude.{
  ℕ, zero, suc, ◌+◌, ◌*◌, ◌≡◌, refl, ap, ◌∙◌, sym, subst, true, false, none, some, List, [], ◌∷◌,
  ◌++◌, arith, take, drop, take-append-drop, take-add, is_empty, map,
}
use mathlib.Core.List.{append_assoc, append-nil, flatten}
use leveldb_daemon.Prelude.Bytes.{Bytes, blt}
use leveldb_daemon.Db.{Leveldb, Contract}
use leveldb_daemon.Db.Entries.{Entry, find, from_key, IsSorted}
use leveldb_daemon.Db.Above.{
  last_key, last_key-append, last_key_found, from_key_stops, from_key_found, split_at, above,
}
use leveldb_daemon.Serializers.{Serializers}
use leveldb_daemon.Replication.{
  collect, portion_start, portion, portion_size, pipeline_size, push_portions, sync_initial, set,
  Session,
}
use leveldb_daemon.Replication.Steps.{after_portion, push_next_portion_lem}
use leveldb_daemon.Replication.Protocol.{new_session, push_portions-Grown}

module _ (L : Leveldb) where
  -- The portions that `push_portions` sends, one after the other.
  unfoldable pub portions : ℕ → L.Db → Bytes → List (List Entry)
  portions zero d key = []
  portions (suc n) d key = portion L d key ∷ portions n d (last_key key (portion L d key))

-- A key that is found where the empty one is not is not empty.
named :
    (k : Bytes) (es : List Entry) (w : Bytes)
    → find [] es ≡ none
    → find k es ≡ some w
    → is_empty k ≡ false
named [] es w h f = cc
named (c ∷ k) es w h f = refl

module _ (L : Leveldb) (C : Contract L) where
  open C use {
    entries, rest, entries_sorted, get_entries, snapshot-new, rest-first, rest-seek, valid_rest,
    next_rest,
  }

  -- The loop collects what the iterator has left, up to its count.
  pub collect_lem :
      (n : ℕ) (it : L.Iterator) (es : List Entry) → rest it ≡ es → collect L n it ≡ take n es
  unfolding collect
  collect_lem zero it es e = refl
  collect_lem (suc n) it [] e = ground (arith, valid_rest it)
  collect_lem (suc n) it (x ∷ es) e =
      ground (arith, valid_rest it, next_rest it x es e, collect_lem n (L.next it) es)

  portion_first : (d : L.Db) → portion L d [] ≡ take portion_size (entries d)
  unfolding portion portion_start
  portion_first d = collect_lem portion_size _ (entries d) (rest-first _ ∙ snapshot-new d)

  -- Where the seek stops, the portion begins behind it.
  portion_behind :
      (d : L.Db) (k : Bytes) (x : Entry) (es : List Entry)
      → is_empty k ≡ false
      → from_key k (entries d) ≡ x ∷ es
      → portion L d k ≡ take portion_size es
  unfolding portion portion_start
  portion_behind d k x es h e = rw h (
      collect_lem portion_size _ es
        (next_rest _ x es
          (rest-seek (L.new_iterator d) k ∙ ap (from_key k) (snapshot-new d) ∙ e)).2)

  -- What is sent next after the first part `pre` of the database was sent.
  portion_next :
      (d : L.Db) (pre post : List Entry)
      → entries d ≡ pre ++ post
      → find [] (entries d) ≡ none
      → portion L d (last_key [] pre) ≡ take portion_size post
  portion_next d [] post e h = portion_first d ∙ ap (take portion_size) e
  portion_next d ((j, v) ∷ pre) post e h =
      let s : IsSorted ((j, v) ∷ pre ++ post) = subst IsSorted e (entries_sorted d) in
      let (w, f, a, _) = last_key_found j v pre post s in
      let found : find (last_key j pre) (entries d) ≡ some w = rw e f in
      portion_behind d (last_key j pre) (last_key j pre, w) post
        (named (last_key j pre) (entries d) w h found)
        (from_key_found (last_key j pre) w (entries d) (entries_sorted d) found
          ∙ ap (λ t. (last_key j pre, w) ∷ t) (rw e a))

  portions_lem :
      (n : ℕ) (d : L.Db) (pre post : List Entry)
      → entries d ≡ pre ++ post
      → find [] (entries d) ≡ none
      → flatten (portions L n d (last_key [] pre)) ≡ take (n * portion_size) post
  unfolding portions flatten
  portions_lem zero d pre post e h = refl
  portions_lem (suc n) d pre post e h =
      let rounds : suc n * portion_size ≡ portion_size + n * portion_size = omega arith in
      let now = take portion_size post in
      let later = drop portion_size post in
      let pre' : entries d ≡ (pre ++ now) ++ later =
        e
        ∙ ap (λ t. pre ++ t) (sym (take-append-drop portion_size post))
        ∙ sym (append_assoc pre now later) in
      rw (rounds, portion_next d pre post e h, take-add portion_size (n * portion_size) post)
        (ap (λ t. now ++ t)
          (ap (λ t. flatten (portions L n d t)) (sym (last_key-append [] pre now))
            ∙ portions_lem n d (pre ++ now) later pre' h))

  -- From a key on that the database has, the portions are the entries above it, in order.
  pub portions_from :
      (n : ℕ) (d : L.Db) (k w : Bytes)
      → L.get d [] ≡ none
      → L.get d k ≡ some w
      → flatten (portions L n d k) ≡ take (n * portion_size) (above k (entries d))
  portions_from n d k w h f =
      let (pre, e, l) = split_at k w (entries d) (entries_sorted d) (sym (get_entries d k) ∙ f) in
      ap (λ t. flatten (portions L n d t)) (sym (l []))
      ∙ portions_lem n d pre (above k (entries d)) e (sym (get_entries d []) ∙ h)

  -- In a database that meets `Contract`, a seek whose key (not the empty one) was deleted stops behind it, and the portion then leaves out where it stopped:
  -- after the last key that was sent is deleted, the next entry of the database is never copied.
  pub deleted_key_skips_next :
      (d : L.Db) (k : Bytes) (x : Entry) (es : List Entry)
      → is_empty k ≡ false
      → L.get d k ≡ none
      → from_key k (entries d) ≡ x ∷ es
      → (portion L d k ≡ take portion_size es) × (blt k x.0 ≡ true) × (L.get d x.0 ≡ some x.1)
  deleted_key_skips_next d k x es h gone e =
      let stopped =
        from_key_stops k (entries d) x es (entries_sorted d) (sym (get_entries d k) ∙ gone) e in
      (portion_behind d k x es h e, stopped.0, get_entries d x.0 ∙ stopped.1)

module _ (L : Leveldb) (J : Serializers) (d : L.Db) where
  push_portions-sent :
      (n : ℕ) (key : Bytes) (s : Session)
      → (push_portions L J n d key s).1.conn.sent
        ≡ s.conn.sent ++ map (λ es. (set, J.print_valmap2str es)) (portions L n d key)
  unfolding push_portions portions
  push_portions-sent zero key s = sym (append-nil s.conn.sent)
  push_portions-sent (suc n) key s = rw (push_next_portion_lem L J d key s) (
      push_portions-sent n (last_key key (portion L d key))
        (after_portion J.print_valmap2str (portion L d key) key s)
      ∙ append_assoc s.conn.sent _ _)

module _ (L : Leveldb) (C : Contract L) (J : Serializers) (d : L.Db) where
  -- A slave that starts afresh is first sent `set` calls whose batches, put together, are the first
  -- `pipeline_size * portion_size` entries of the database in order, each once; where the database
  -- meets `Contract` and no entry has the empty key.
  pub initial_copy :
      (id : Bytes)
      → L.get d [] ≡ none
      → (batches : List (List Entry)) × ((sync_initial L J d (new_session id)).1.conn.sent
          ≡ map (λ es. (set, J.print_valmap2str es)) batches)
        × (flatten batches ≡ take (pipeline_size * portion_size) (C.entries d))
  unfolding sync_initial
  initial_copy id h =
      let (returned, _) = push_portions-Grown L J d pipeline_size [] (new_session id) in
      (
        portions L pipeline_size d [],
        rw returned (push_portions-sent L J d pipeline_size [] (new_session id)),
        portions_lem L C pipeline_size d [] (C.entries d) refl (sym (C.get_entries d []) ∙ h),
      )
