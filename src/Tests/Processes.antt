-- ===== src/Tests/Processes.antt =====
-- The start of the process, and its configuration, on concrete systems.
use leveldb_daemon.Prelude.{
  ◌≡◌, refl, true, false, none, some, [], ◌∷◌, arith, if◌then◌else◌, at_index,
}
use leveldb_daemon.Prelude.Int.{pos}
use leveldb_daemon.Prelude.Bytes.{codes, beq}
use leveldb_daemon.Locks.{new_spinlock}
use leveldb_daemon.Comet.{
  CometConfig, Manager, alive, hangs, same_config, update_variables, update_variables_lem,
}
use leveldb_daemon.Process.{
  Identity, Process, System, null, log, other, change_user, enter, split, redirect_output,
  daemonize,
}
use leveldb_daemon.Process.Identities.{Manual, asked, Ends, change_user_lem}
use leveldb_daemon.Process.Outputs.{enter-files}

-- A system where all calls of root come back, and that knows the user "db".
abbrev small : System
small = record {
  getpwnam = λ name. if beq name (codes "db") then some (100, 200) else none;
  atoi = λ s. pos 7;
  setgid = λ g i. some (record i { gid = g });
  initgroups = λ name g i. some (record i { groups = g ∷ [] });
  setgroups = λ gs i. some (record i { groups = gs });
  setuid = λ u i. some (record i { uid = u; euid = u });
  freopen = λ name. some (log name);
}

abbrev small_manual : Manual small
small_manual = record {
  members = λ name g. g ∷ [];
  sets_gid = λ g i j h e. ground (arith, e);
  sets_members = λ name g i j h e. ground (arith, e);
  sets_groups = λ gs i j h e. ground (arith, e);
  sets_uid = λ u i j h e. ground (arith, e);
}

abbrev root : Identity
root = record { uid = 0; euid = 0; gid = 0; groups = 0 ∷ [] }

abbrev started : Process
started = record { identity = root; files = λ n. some (other n); is_leader = false; mask = 18 }

change_user_lem_example :
    Ends small small_manual
      (some (record { uid = 100; euid = 100; gid = 200; groups = 200 ∷ [] }))
      root
      (change_user small (codes "db") root)
unfolding split beq
change_user_lem_example = change_user_lem small small_manual (codes "db") root refl

abbrev daemon : Process
daemon = record {
  identity = record { uid = 100; euid = 100; gid = 200; groups = 200 ∷ [] };
  files =
      at_index
        (at_index
          (at_index
            (at_index (at_index started.files 2 (some (log (codes "l")))) 1
              (some (log (codes "l"))))
            3 (some null))
          0 none)
        0 (some null);
  is_leader = true;
  mask = 0;
}

enter-files_example :
    (daemon.files 2 ≡ some (log (codes "l")))
    × (asked small small_manual (codes "db") ≡ some daemon.identity)
unfolding enter split beq redirect_output daemonize change_user
enter-files_example =
    enter-files small small_manual (codes "l") (codes "db") 3 2 (log (codes "l")) started daemon
      (omega arith) refl refl (λ g. refl) refl

abbrev config : CometConfig
config = record { host = codes "h"; port = 20100; channel = codes "c" }

abbrev manager : Manager
manager = record {
  cfg = config;
  cfg_copy = config;
  ccs = alive;
  has_mux = true;
  mtxs = new_spinlock ∷ new_spinlock ∷ [];
  lck_client = new_spinlock;
  counter = 0;
  calls = [];
}

-- The data are the new host.
update_variables_lem_example :
    update_variables (λ text c. record c { host = text }) (codes "g") manager ≡ hangs
unfolding same_config beq
update_variables_lem_example =
    update_variables_lem (λ text c. record c { host = text }) (codes "g") manager
      (record { is_alive = refl; with_mux = refl; free = refl; mtxs_free = refl }) refl
