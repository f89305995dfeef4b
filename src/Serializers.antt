-- ===== src/Serializers.antt =====
-- The JSON serializers that the handlers and the replication call: instances of templates of the
-- library `fas`, which the repository only carries a copy of. They are parameters.
use leveldb_daemon.Prelude.{Bool, Option, List}
use leveldb_daemon.Prelude.Bytes.{Bytes}
use leveldb_daemon.Prelude.Int.{ℤ}

pub record Serializers : Type 0 where
  -- `valmap2str_json` and `vallist_json`, printing
  pub print_valmap2str : List (Bytes × Bytes) → Bytes
  pub print_vallist : List Bytes → Bytes
  -- `aj::value<std::string>`, printing
  pub print_string : Bytes → Bytes
  -- `aj::value<long long int>`: parsing is given what the variable held, and returns what it holds
  -- then and whether the parser returned (it may throw with the variable half set)
  pub parse_i64 : ℤ → Bytes → ℤ × Bool
  pub print_i64 : ℤ → Bytes
  -- `valmap2str_map_json`: `none` if the parser throws
  pub parse_map : Bytes → Option (List (Bytes × Bytes))
  pub print_map : List (Bytes × Bytes) → Bytes
