-- ===== src/Tests/Slaves.antt =====
-- The replication on concrete sessions.
use leveldb_daemon.Prelude.{
  ◌≡◌, refl, ◌<◌, ◌≤◌, ◌+◌, ◌*◌, ◌⊎◌, true, some, none, List, [], ◌∷◌, arith, length, take, map,
}
use mathlib.Core.List.{flatten}
use leveldb_daemon.Prelude.Int.{◌-ℤ◌, ◌+ℤ◌}
use leveldb_daemon.Prelude.Bytes.{Bytes, codes, beq, blt}
use leveldb_daemon.Prelude.Exec.{ok}
use leveldb_daemon.Db.Entries.{Entry, find, insert, from_key}
use leveldb_daemon.Replication.{
  Client, new_client, syncing, sync_finishing, Session, set, del, schedule_queue, on_confirm,
  sync_queue, sync_initial, push_queue_items, send_items, method_of, pipeline_size, portion_size,
  portion, enqueue,
}
use leveldb_daemon.Replication.Sending.{Known}
use leveldb_daemon.Replication.Protocol.{
  Link, Start, resume, resumed, confirm, Reach, here, next, new_session, new_conn,
  confirm_never_throws, pipeline_bounded, never_stalls,
}
use leveldb_daemon.Replication.{running}
use leveldb_daemon.Replication.Delivery.{pending, fifo_delivery}
use leveldb_daemon.Replication.Copying.{portions, initial_copy, deleted_key_skips_next}
use leveldb_daemon.Replication.Registry.{send_to_client, below_key}
use leveldb_daemon.Replication.Registry.Routing.{
  confirms, update_covered, update_at_cursor_lost, update_while_finishing_lost,
}
use leveldb_daemon.Tests.Sample.{Log, sample, sample_contract, sample_json}

-- A slave that connects again, with two updates that it is still to be sent.
abbrev behind : Client
behind = record (new_client (codes "s1")) {
  queue = (codes "set", codes "a") ∷ (codes "del", codes "b") ∷ [];
}

behind-Known : Known behind.queue
unfolding method_of beq
behind-Known = ((_, refl), ((_, refl), tt))

behind-Start : Start sample sample_json (resumed behind)
behind-Start = resume behind behind-Known

abbrev store : Log
store = (codes "b", some (codes "2")) ∷ (codes "a", some (codes "1")) ∷ []

-- Both updates go out at once, and the slave confirms the first one.
behind_sent : 0 < length (resumed behind).session.conn.sent
unfolding sync_queue push_queue_items send_items method_of beq ◌+ℤ◌
behind_sent = omega arith

abbrev confirmed_once : Link
confirmed_once = record {
  session = (on_confirm sample sample_json store (resumed behind).session).1;
  confirmed = 1;
}

abbrev one_confirmed : Reach sample sample_json (resumed behind) confirmed_once
one_confirmed = next here (confirm store (resumed behind) behind_sent)

still_on_its_way : 1 < length confirmed_once.session.conn.sent
unfolding on_confirm sync_queue push_queue_items send_items method_of beq ◌-ℤ◌ ◌+ℤ◌
still_on_its_way = omega arith

fifo_delivery_example : pending confirmed_once.session ≡ (set, codes "a") ∷ (del, codes "b") ∷ []
unfolding method_of beq
fifo_delivery_example = fifo_delivery sample sample_json behind behind-Known one_confirmed

confirm_never_throws_example :
    (on_confirm sample sample_json store confirmed_once.session).0 ≡ ok tt
confirm_never_throws_example =
    confirm_never_throws sample sample_json behind-Start one_confirmed store still_on_its_way

never_stalls_example :
    (1 < length confirmed_once.session.conn.sent) ⊎ (0 < confirmed_once.session.conn.scheduled)
never_stalls_example = never_stalls sample sample_json behind-Start one_confirmed

pipeline_bounded_example :
    (1 ≤ length confirmed_once.session.conn.sent)
    × (length confirmed_once.session.conn.sent ≤ 1 + pipeline_size)
pipeline_bounded_example = pipeline_bounded sample sample_json behind-Start one_confirmed

-- A slave with nothing to be sent waits for its thread.
idle_scheduled : 0 < (resumed (new_client [])).session.conn.scheduled
unfolding sync_queue push_queue_items schedule_queue
idle_scheduled = omega arith

initial_copy_example :
    (batches : List (List Entry)) × ((sync_initial sample sample_json store
        (new_session (codes "s1"))).1.conn.sent
      ≡ map (λ es. (set, sample_json.print_valmap2str es)) batches)
    × (flatten batches ≡ take (pipeline_size * portion_size) (sample_contract.entries store))
unfolding find insert beq blt
initial_copy_example = initial_copy sample sample_contract sample_json store (codes "s1") refl

-- A slave that was sent the entries up to "b".
abbrev copying : Client
copying = record (new_client (codes "s1")) { state = syncing; current_keys = codes "b" ∷ [] }

abbrev sent_to_copying : Bytes → Client
sent_to_copying key =
    send_to_client sample_json.print_valmap2str (codes "set") ((key, codes "9") ∷ []) below_key
      copying

update_covered_example :
    (sent_to_copying (codes "c")
      ≡ enqueue (codes "set", sample_json.print_valmap2str ((codes "c", codes "9") ∷ [])) copying)
    ⊎ ((sent_to_copying (codes "c") ≡ copying)
        × (find
              (codes "c")
              (flatten (portions sample 1 (sample.put store (codes "c") (codes "9")).0 (codes "b")))
            ≡ some (codes "9")))
unfolding find insert beq blt
update_covered_example =
    update_covered sample sample_contract sample_json store (codes "c") (codes "9") copying refl
      refl refl (codes "2") 1 refl refl (omega arith)

update_at_cursor_lost_example :
    (sent_to_copying (codes "b") ≡ copying)
    × (find
          (codes "b")
          (flatten (portions sample 1 (sample.put store (codes "b") (codes "9")).0 (codes "b")))
        ≡ none)
unfolding find insert beq blt
update_at_cursor_lost_example =
    update_at_cursor_lost sample sample_contract sample_json store (codes "b") (codes "9") copying
      refl refl refl 1 refl refl

abbrev finishing : Session
finishing = record {
  client = record copying { state = sync_finishing; current_keys = codes "a" ∷ codes "b" ∷ [] };
  conn = new_conn;
}

update_while_finishing_lost_example :
    (send_to_client sample_json.print_valmap2str
        (codes "set")
        ((codes "a", codes "9") ∷ [])
        below_key
        finishing.client
      ≡ finishing.client)
    × (pending (confirms sample sample_json (store ∷ [] ∷ []) finishing) ≡ [])
    × ((confirms sample sample_json (store ∷ [] ∷ []) finishing).client.state ≡ running)
update_while_finishing_lost_example =
    update_while_finishing_lost sample sample_json ((codes "a", codes "9") ∷ []) (codes "a")
      (codes "b" ∷ []) store ([] ∷ []) finishing refl refl refl tt

-- "aa" was copied last and then deleted; "b" is the next entry.
deleted_key_skips_next_example :
    (portion sample store (codes "aa") ≡ take portion_size [])
    × (blt (codes "aa") (codes "b") ≡ true)
    × (sample.get store (codes "b") ≡ some (codes "2"))
unfolding find insert from_key beq blt
deleted_key_skips_next_example =
    deleted_key_skips_next sample sample_contract store (codes "aa") (codes "b", codes "2") [] refl
      refl refl
