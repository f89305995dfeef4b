-- ===== src/Tests/Clusters.antt =====
-- A master and a slave on a concrete session, and threads on concrete rounds.
use leveldb_daemon.Prelude.{zero, suc, ◌≡◌, refl, ap, true, some, List, [], ◌∷◌, ◌++◌, map, arith}
use leveldb_daemon.Prelude.Int.{◌+ℤ◌}
use leveldb_daemon.Prelude.Bytes.{Bytes, codes, beq}
use leveldb_daemon.Db.Entries.{Entry}
use leveldb_daemon.Serializers.{Serializers}
use leveldb_daemon.Replication
use leveldb_daemon.Replication.{
  Client, new_client, sync_queue, push_queue_items, schedule_queue, enqueue, send, wake, send_items,
  method_of,
}
use leveldb_daemon.Replication.Registry
use leveldb_daemon.Handlers.{Server, set_request}
use leveldb_daemon.Handlers.Commands.{set}
use leveldb_daemon.Cluster.Follows.{connected}
use leveldb_daemon.Cluster.{
  Parsers, Cluster, Reach, here, next, command, wakes, take_next, master, take_call,
}
use mathlib.Core.List.{append-nil}
use leveldb_daemon.Replication.Protocol.{resumed}
use leveldb_daemon.Tests.Sample.{Log, sample, sample_contract, sample_writes, sample_json}

-- A word is written as a 0 and its bytes, each with 1 added.
abbrev word : Bytes → Bytes → Bytes
word w s = 0 ∷ (map suc w ++ s)

abbrev words : List Bytes → Bytes
words [] = []
words (w ∷ ws) = word w (words ws)

-- The bytes before the first 0, and the words behind it.
abbrev split_words : Bytes → Bytes × List Bytes
split_words [] = ([], [])
split_words (zero ∷ s) = let (w, ws) = split_words s in ([], w ∷ ws)
split_words (suc c ∷ s) = let (w, ws) = split_words s in (c ∷ w, ws)

abbrev paired : List Bytes → List Entry
paired [] = []
paired (k ∷ []) = []
paired (k ∷ v ∷ ws) = (k, v) ∷ paired ws

abbrev unpaired : List Entry → List Bytes
unpaired [] = []
unpaired ((k, v) ∷ es) = k ∷ v ∷ unpaired es

split_words-map :
    (w s : Bytes) → split_words (map suc w ++ s) ≡ (w ++ (split_words s).0, (split_words s).1)
split_words-map [] s = refl
split_words-map (c ∷ w) s = ap (λ p. (c ∷ p.0, p.1)) (split_words-map w s)

split_words-words : (ws : List Bytes) → split_words (words ws) ≡ ([], ws)
split_words-words [] = refl
split_words-words (w ∷ ws) =
    ground (arith, split_words-map w (words ws), split_words-words ws, append-nil w)

abbrev worded : Serializers
worded = record sample_json { print_valmap2str = λ es. words (unpaired es); print_vallist = words }

abbrev unworded : Parsers
unworded = record {
  parse_valmap2str = λ s. some (paired (split_words s).1);
  parse_vallist = λ s. some (split_words s).1;
}

reads_list : (ks : List Bytes) → unworded.parse_vallist (worded.print_vallist ks) ≡ some ks
reads_list ks = ap (λ p. some p.1) (split_words-words ks)

sample_deletes : (d : Log) (k : Bytes) → (sample.delete d k).1 ≡ true
sample_deletes d k = refl

abbrev one_entry : List Entry
one_entry = (codes "a", codes "1") ∷ []

abbrev empty_slave : Server sample
empty_slave = record { db = []; clients = [] }

abbrev at_first : Cluster sample
at_first =
    connected sample sample_contract sample_writes sample_deletes worded unworded (codes "s1")
      (new_client (codes "s1")) tt [] empty_slave refl

abbrev in_queue : Client
in_queue = enqueue (codes "set", worded.print_valmap2str one_entry) at_first.link.session.client

abbrev at_last : Cluster sample
at_last = record at_first {
  db = (set_request sample worded one_entry (master (codes "s1") at_first)).1.db;
  link = record at_first.link {
    session = (wake (record at_first.link.session { client = in_queue })).1;
  };
  slave = (set_request sample worded one_entry empty_slave).1;
  taken = 1;
}

abbrev at_last-Reach : Reach sample worded unworded (codes "s1") at_first at_last
unfolding sync_queue push_queue_items schedule_queue set_request Registry.set
    Registry.send_to_clients Registry.send_to_client send enqueue wake send_items method_of beq ◌+ℤ◌
    take_call
at_last-Reach =
    next (next (next here (command _ (set one_entry) in_queue refl)) (wakes _ (omega arith)))
      (take_next _ (Replication.set, worded.print_valmap2str one_entry) [] refl)

-- The connection is lost after the slave has taken the call, which is sent again.
abbrev again : Cluster sample
again = record at_last { link = resumed at_last.link.session.client; taken = 0 }
