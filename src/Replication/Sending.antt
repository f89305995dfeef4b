-- ===== src/Replication/Sending.antt =====
-- src/replication.hpp: the loops that send queued updates (`_push_queue_items`).
use leveldb_daemon.Prelude.{
  ℕ, zero, suc, ◌+◌, ◌-◌, ◌≤◌, ◌≡◌, refl, ap, Bool, true, false, Option, none, some, List, [], ◌∷◌,
  ◌++◌, arith, inl, inr, leb, Bool-cases, length, take, drop,
}
use mathlib.Core.List.{append_assoc, append-nil}
use leveldb_daemon.Prelude.Int.{pos, ◌+ℤ◌}
use leveldb_daemon.Prelude.Bytes.{Bytes}
use leveldb_daemon.Prelude.Exec.{ok}
use leveldb_daemon.Replication.{
  Session, Method, set, method_of, send_items, push_queue_items, schedule_queue, request,
  pipeline_size,
}

-- Every queued command is one that the loop can send.
abbrev pub Known : List (Bytes × Bytes) → Type 0
Known [] = Unit {0}
Known ((cmd, params) ∷ q) = ((m : Method) × (method_of cmd ≡ some m)) × Known q

abbrev pub or_set : Option Method → Method
or_set none = set
or_set (some m) = m

-- The calls that the queued updates turn into.
abbrev pub calls : List (Bytes × Bytes) → List (Method × Bytes)
calls [] = []
calls ((cmd, params) ∷ q) = (or_set (method_of cmd), params) ∷ calls q

-- The session after the first entries of `items` were sent, at most `room` of them.
abbrev pub after_sending : ℕ → ℕ → List (Bytes × Bytes) → Session → Session
after_sending p room items s = record s {
  client = record s.client { queue_pipelined = pos (p + length (take room items)) };
  conn = record s.conn { sent = s.conn.sent ++ calls (take room items) };
}

pub send_items_lem :
    (items : List (Bytes × Bytes)) (p room : ℕ) (s : Session)
    → Known items
    → s.client.queue_pipelined ≡ pos p
    → p + room ≡ pipeline_size
    → send_items items s ≡ (ok tt, after_sending p room items s)
unfolding send_items ◌+ℤ◌
send_items_lem [] p zero s k e h = ground (arith, append-nil s.conn.sent)
send_items_lem [] p (suc room) s k e h = ground (arith, append-nil s.conn.sent)
send_items_lem ((cmd, params) ∷ rest) p zero s k e h = ground (arith, append-nil s.conn.sent)
send_items_lem ((cmd, params) ∷ rest) p (suc room) s ((m, known), k) e h = ground (
  arith,
  send_items_lem rest (p + 1) room
      (record s {
        client = record s.client { queue_pipelined = s.client.queue_pipelined +ℤ pos 1 };
        conn = request m params s.conn;
      })
      k,
  append_assoc s.conn.sent ((m, params) ∷ []) (calls (take room rest)),
)

pub Known-drop : (n : ℕ) (q : List (Bytes × Bytes)) → Known q → Known (drop n q)
Known-drop zero q k = k
Known-drop (suc n) [] k = tt
Known-drop (suc n) (x ∷ q) k = Known-drop n q k.1

pub Known-append :
    (q : List (Bytes × Bytes)) (cmd params : Bytes) (m : Method)
    → Known q
    → method_of cmd ≡ some m
    → Known (q ++ (cmd, params) ∷ [])
Known-append [] cmd params m k e = ((m, e), tt)
Known-append (x ∷ q) cmd params m k e = (k.0, Known-append q cmd params m k.1 e)

pub length-calls : (q : List (Bytes × Bytes)) → length (calls q) ≡ length q
length-calls [] = refl
length-calls (x ∷ q) = ap suc (length-calls q)

-- With an empty queue the check is put off; nothing is sent.
pub push_queue_items_empty :
    (s : Session)
    → s.client.queue ≡ []
    → s.client.queue_pipelined ≡ pos 0
    → push_queue_items s ≡ (ok false, schedule_queue s)
unfolding push_queue_items
push_queue_items_empty s q p = ground arith

after_sending_none :
    (p room : ℕ) (s : Session) → s.client.queue_pipelined ≡ pos p → after_sending p room [] s ≡ s
after_sending_none p zero s e = ground (arith, append-nil s.conn.sent)
after_sending_none p (suc room) s e = ground (arith, append-nil s.conn.sent)

after_sending_full :
    (p : ℕ) (items : List (Bytes × Bytes)) (s : Session)
    → s.client.queue_pipelined ≡ pos p
    → after_sending p 0 items s ≡ s
after_sending_full p items s e = ground (arith, append-nil s.conn.sent)

drop_all : (n : ℕ) (q : List (Bytes × Bytes)) → length q ≤ n → drop n q ≡ []
drop_all zero [] h = refl
drop_all zero (x ∷ q) h = elim h [ ]
drop_all (suc n) [] h = refl
drop_all (suc n) (x ∷ q) h = drop_all n q (omega arith)

-- Otherwise the pipeline is filled up from the first entry that is not on its way.
pub push_queue_items_lem :
    (s : Session) (p : ℕ) (x : Bytes × Bytes) (q : List (Bytes × Bytes))
    → s.client.queue ≡ x ∷ q
    → s.client.queue_pipelined ≡ pos p
    → p ≤ pipeline_size
    → p ≤ length s.client.queue
    → Known s.client.queue
    → (b : Bool) × (push_queue_items s
        ≡ (ok b, after_sending p (pipeline_size - p) (drop p s.client.queue) s))
unfolding push_queue_items
push_queue_items_lem s p x q e hp small fits known =
    elim (Bool-cases (leb (length s.client.queue) p)) [
      | inl all ↦ (
        false,
        ground (arith, after_sending_none p (pipeline_size - p) s hp, drop_all p s.client.queue),
      )
      | inr some_left ↦ elim (Bool-cases (leb pipeline_size p)) [
        | inl full ↦ (false, ground (arith, after_sending_full p (drop p s.client.queue) s hp))
        | inr room ↦ (
          true,
          ground (
            arith,
            send_items_lem (drop p s.client.queue) p (pipeline_size - p) s
                (Known-drop p s.client.queue known) hp,
          ),
        )
      ]
    ]
