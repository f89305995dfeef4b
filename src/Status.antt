-- ===== src/Status.antt =====
-- What `rep_status` answers: `Client_t::write_status` of src/replication.hpp and `rep_status::request` of
-- src/fas_methods.hpp. The stringstream is the text written so far.
pub mod Printing
use leveldb_daemon.Prelude.{
  ℕ, zero, suc, ◌+◌, ◌/◌, ◌%◌, Bool, true, false, List, [], ◌∷◌, ◌++◌, ltb, length, if◌then◌else◌,
}
use leveldb_daemon.Prelude.Bytes.{Bytes, codes}
use leveldb_daemon.Serializers.{Serializers}
use leveldb_daemon.Replication.{
  ClientState, not_ready, syncing, sync_finishing, running, Client, current,
}

-- operator<< of a size, with rounds for its digits
unfoldable pub digits : ℕ → ℕ → Bytes
digits zero n = []
digits (suc fuel) n =
    let higher = digits fuel (n / 10) in
    if ltb n 10 then (48 + n) ∷ [] else higher ++ (48 + n % 10) ∷ []

unfoldable pub decimal : ℕ → Bytes
unfolding digits
decimal n = digits (suc n) n

abbrev pub state_name : ClientState → Bytes
state_name not_ready = codes "not_ready"
state_name syncing = codes "syncing"
state_name sync_finishing = codes "sync_finishing"
state_name running = codes "running"

module _ (J : Serializers) where
  -- Client_t::write_status
  unfoldable pub write_status : Client → Bytes → Bytes
  unfolding decimal
  write_status c out =
      out
      ++ (codes "{\"id\":\""
          ++ c.id
          ++ codes "\",\"state\":\""
          ++ state_name c.state
          ++ codes "\",\"queue\":"
          ++ decimal (length c.queue)
          ++ codes ",\"current\":"
          ++ J.print_string (current c)
          ++ codes "}")

  -- The loop of `rep_status::request`.
  unfoldable pub status_loop : List (Bytes × Client) → Bool → Bytes → Bytes
  unfolding write_status
  status_loop [] first out = out
  status_loop ((id, c) ∷ cs) first out =
      let separated = if first then out else out ++ codes "," in
      status_loop cs false
        (write_status c (separated ++ (codes "\"" ++ id ++ codes "\"" ++ codes ":")))

  -- rep_status::request
  unfoldable pub rep_status : List (Bytes × Client) → Bytes
  unfolding status_loop
  rep_status cs = status_loop cs true (codes "{") ++ codes "}"
