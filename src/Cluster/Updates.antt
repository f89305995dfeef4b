-- ===== src/Cluster/Updates.antt =====
-- src/fas_methods.hpp, src/replication.hpp: one update, at the master and at the slave.
use leveldb_daemon.Prelude.{
  ℕ, zero, suc, ◌<◌, ◌≡◌, refl, ap, ◌∙◌, true, some, List, [], ◌∷◌, ◌++◌, length, drop, take, ◌≤◌,
  arith, ◌⊎◌, inl, inr,
}
use leveldb_daemon.Prelude.Bytes.{Bytes, codes, beq}
use leveldb_daemon.Db.{Leveldb, Contract}
use leveldb_daemon.Db.Entries.{Entry, remove}
use leveldb_daemon.Serializers.{Serializers}
use leveldb_daemon.Replication
use leveldb_daemon.Replication.{
  ClientState, running, Client, Session, Method, request, send_items, push_queue_items,
  schedule_queue, wake, on_confirm, enqueue, send, method_of, pop_front,
}
use leveldb_daemon.Replication.Registry
use leveldb_daemon.Replication.Sending.{calls}
use leveldb_daemon.Handlers.{Server, put_all, delete_all, set_request, del_request}
use leveldb_daemon.Cluster.{Parsers, take_call, take_calls}

module _ (L : Leveldb) (J : Serializers) (P : Parsers) where
  pub take_calls-append :
      (xs ys : List (Method × Bytes)) (s : Server L)
      → take_calls L J P (xs ++ ys) s ≡ take_calls L J P ys (take_calls L J P xs s)
  take_calls-append [] ys s = refl
  take_calls-append (x ∷ xs) ys s = take_calls-append xs ys (take_call L J P x s)

  pub take_set :
      (es : List Entry) (s : Server L)
      → P.parse_valmap2str (J.print_valmap2str es) ≡ some es
      → (take_call L J P (Replication.set, J.print_valmap2str es) s).db ≡ (put_all L es true s.db).1
  unfolding take_call set_request
  take_set es s h = ground (arith, h)

  pub take_del :
      (ks : List Bytes) (s : Server L)
      → P.parse_vallist (J.print_vallist ks) ≡ some ks
      → (take_call L J P (Replication.del, J.print_vallist ks) s).db ≡ (delete_all L ks s.db).1
  unfolding take_call del_request
  take_del ks s h = ground (arith, h)

module _ (L : Leveldb) (C : Contract L)
    (deletes : (d : L.Db) (k : Bytes) → (L.delete d k).1 ≡ true) where
  abbrev pub remove_all : List Bytes → List Entry → List Entry
  remove_all [] es = es
  remove_all (k ∷ ks) es = remove_all ks (remove k es)

  pub delete_all-entries :
      (ks : List Bytes) (d : L.Db) → C.entries (delete_all L ks d).1 ≡ remove_all ks (C.entries d)
  unfolding delete_all
  delete_all-entries [] d = refl
  delete_all-entries (k ∷ ks) d =
      delete_all-entries ks (L.delete d k).0
      ∙ ap (remove_all ks) (C.delete_entries d k (deletes d k))

-- What a broadcast makes of one slave that is running.
pub set-one :
    (J : Serializers) (repl : List Entry) (id : Bytes) (c client : Client)
    → c.state ≡ running
    → Registry.set J repl ((id, c) ∷ []) ≡ (id, client) ∷ []
    → ((repl ≡ []) × (client ≡ c)) ⊎ (client ≡ enqueue (codes "set", J.print_valmap2str repl) c)
unfolding Registry.set Registry.send_to_clients Registry.send_to_client send
set-one J [] id c client h e = inl (refl, ground arith)
set-one J (x ∷ repl) id c client h e = inr (ground arith)

pub del-one :
    (J : Serializers) (keys : List Bytes) (id : Bytes) (c client : Client)
    → c.state ≡ running
    → Registry.del J keys ((id, c) ∷ []) ≡ (id, client) ∷ []
    → ((keys ≡ []) × (client ≡ c)) ⊎ (client ≡ enqueue (codes "del", J.print_vallist keys) c)
unfolding Registry.del Registry.send_to_clients Registry.send_to_client send
del-one J [] id c client h e = inl (refl, ground arith)
del-one J (x ∷ keys) id c client h e = inr (ground arith)

pub method_of_set : method_of (codes "set") ≡ some Replication.set
unfolding method_of beq
method_of_set = refl

pub method_of-del : method_of (codes "del") ≡ some Replication.del
unfolding method_of beq
method_of-del = refl

pub drop-cons-length {ℓ} :
    {A : Type ℓ} (n : ℕ) (xs rest : List A) (x : A) → drop n xs ≡ x ∷ rest → n < length xs
drop-cons-length zero [] rest x h = absurd (ground arith)
drop-cons-length (suc n) [] rest x h = absurd (ground arith)
drop-cons-length zero (y ∷ xs) rest x h = omega arith
drop-cons-length (suc n) (y ∷ xs) rest x h = omega (arith, drop-cons-length n xs rest x h)

pub drop-length {ℓ} : {A : Type ℓ} (xs : List A) → drop (length xs) xs ≡ []
drop-length [] = refl
drop-length (x ∷ xs) = drop-length xs

pub drop-suc {ℓ} :
    {A : Type ℓ} (n : ℕ) (xs rest : List A) (x : A) → drop n xs ≡ x ∷ rest → drop (suc n) xs ≡ rest
drop-suc zero [] rest x h = absurd (ground arith)
drop-suc (suc n) [] rest x h = absurd (ground arith)
drop-suc zero (y ∷ xs) rest x h = ground arith
drop-suc (suc n) (y ∷ xs) rest x h = drop-suc n xs rest x h

pub take-append {ℓ} :
    {A : Type ℓ} (n : ℕ) (xs ys : List A) → n ≤ length xs → take n (xs ++ ys) ≡ take n xs
take-append zero xs ys h = refl
take-append (suc n) [] ys h = absurd (omega (arith, h))
take-append (suc n) (x ∷ xs) ys h = ap (λ t. x ∷ t) (take-append n xs ys (omega (arith, h)))

pub take-suc {ℓ} :
    {A : Type ℓ} (n : ℕ) (xs rest : List A) (x : A)
    → drop n xs ≡ x ∷ rest
    → take (suc n) xs ≡ take n xs ++ x ∷ []
take-suc zero [] rest x h = absurd (ground arith)
take-suc (suc n) [] rest x h = absurd (ground arith)
take-suc zero (y ∷ xs) rest x h = ground arith
take-suc (suc n) (y ∷ xs) rest x h = ap (λ t. y ∷ t) (take-suc n xs rest x h)

pub calls-pop_front : (q : List (Bytes × Bytes)) → calls (pop_front q) ≡ drop 1 (calls q)
calls-pop_front [] = refl
calls-pop_front (x ∷ q) = refl
